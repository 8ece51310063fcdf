-- ===== src/Relay/State.antt =====
-- moq-go/moqt: the stores of a relay. A `RelayStream` is shared by the maps of its publisher and of its
-- subscribers: it stands in `streams` under a reference, and the maps hold the reference. A handler
-- stands under the identifier of its session, which is only compared. Locks order calls of goroutines;
-- a call is one step here. Logging is left out.
use moq_quic_bbrv3_go.Prelude.{
  ℕ, ◌==◌, Bool, true, false, ◌&&◌, ◌||◌, if◌then◌else◌, List, [], ◌∷◌, ◌++◌, Option, none, some,
  assign, set, include, exclude,
}
use moq_quic_bbrv3_go.Wire.Params.{Object}
use moq_quic_bbrv3_go.Wire.Messages.{Subscribe, Message}

pub record RelayStream : Type 0 where
  pub sub_id : ℕ
  pub stream_id : List ℕ
  pub subscribers : List ℕ
  pub object_cache : List Object

-- Both maps take the identifier of a subscription to a stream; `written` is what was written to the
-- control stream.
pub record RelayHandler : Type 0 where
  pub remote_role : ℕ
  pub incoming : List (ℕ × ℕ)
  pub subscribed : List (ℕ × ℕ)
  pub written : List Message

-- `SessionManager`, with the objects that it leads to.
pub record Relay : Type 0 where
  pub handlers : ℕ → RelayHandler
  pub streams : ℕ → RelayStream
  pub next : ℕ
  pub sessions : List ℕ
  pub namespaces : List (List ℕ × ℕ)

unfoldable pub new_relay_handler : RelayHandler
new_relay_handler = record { remote_role = 0; incoming = []; subscribed = []; written = [] }

unfoldable pub new_relay_stream : ℕ → List ℕ → RelayStream
new_relay_stream subid id = record {
  sub_id = subid;
  stream_id = id;
  subscribers = [];
  object_cache = [];
}

unfoldable pub new_session_manager : Relay
unfolding new_relay_handler new_relay_stream
new_session_manager = record {
  handlers = λ _. new_relay_handler;
  streams = λ _. new_relay_stream 0 [];
  next = 0;
  sessions = [];
  namespaces = [];
}

-- Strings, by their bytes.
abbrev pub same : List ℕ → List ℕ → Bool
same [] [] = true
same (a ∷ s) (b ∷ t) = a == b && same s t
same _ _ = false

abbrev pub starts_with : List ℕ → List ℕ → Bool
starts_with [] s = true
starts_with (a ∷ t) [] = false
starts_with (a ∷ t) (b ∷ s) = a == b && starts_with t s

-- `strings.Contains(s, t)`
abbrev pub contains : List ℕ → List ℕ → Bool
contains t [] = starts_with t []
contains t (b ∷ s) = starts_with t (b ∷ s) || contains t s

-- The namespace, an underscore and the track's name.
unfoldable pub get_stream_id : Subscribe → List ℕ
get_stream_id m = m.track_namespace ++ (95 ∷ m.track_name)

-- StreamsMap.GetSubID and StreamIDGetStream: the first entry whose stream has the identifier.
unfoldable pub get_sub_id : List ℕ → (ℕ → RelayStream) → List (ℕ × ℕ) → Option ℕ
get_sub_id id streams [] = none
get_sub_id id streams ((k, r) ∷ m) =
    if same (streams r).stream_id id then some k else get_sub_id id streams m

unfoldable pub stream_id_get_stream : List ℕ → (ℕ → RelayStream) → List (ℕ × ℕ) → Option ℕ
stream_id_get_stream id streams [] = none
stream_id_get_stream id streams ((k, r) ∷ m) =
    if same (streams r).stream_id id then some r else stream_id_get_stream id streams m

-- SessionManager.getPublisher, and the assignment of `addPublisher`.
unfoldable pub get_publisher : List ℕ → List (List ℕ × ℕ) → Option ℕ
get_publisher ns [] = none
get_publisher ns ((k, p) ∷ m) = if same k ns then some p else get_publisher ns m

unfoldable pub put_publisher : List ℕ → ℕ → List (List ℕ × ℕ) → List (List ℕ × ℕ)
put_publisher ns p [] = (ns, p) ∷ []
put_publisher ns p ((k, q) ∷ m) = if same k ns then (ns, p) ∷ m else (k, q) ∷ put_publisher ns p m

-- A store with one handler, or one stream, changed.
abbrev pub on_handler : ℕ → (RelayHandler → RelayHandler) → Relay → Relay
on_handler id f g = record g { handlers = set id (f (g.handlers id)) g.handlers }

abbrev pub on_stream : ℕ → (RelayStream → RelayStream) → Relay → Relay
on_stream r f g = record g { streams = set r (f (g.streams r)) g.streams }

-- `CS.WriteControlMessage`
unfoldable pub write : ℕ → Message → Relay → Relay
write id m g = on_handler id (λ h. record h { written = h.written ++ (m ∷ []) }) g

unfoldable pub add_subscriber : ℕ → ℕ → Relay → Relay
add_subscriber r id g = on_stream r (λ s. record s { subscribers = include id s.subscribers }) g

unfoldable pub remove_subscriber : ℕ → ℕ → Relay → Relay
remove_subscriber id r g = on_stream r (λ s. record s { subscribers = exclude id s.subscribers }) g

-- StreamsMap.AddStream on the two maps of a handler.
unfoldable pub add_incoming : ℕ → ℕ → ℕ → Relay → Relay
add_incoming id subid r g = on_handler id (λ h. record h { incoming = assign subid r h.incoming }) g

unfoldable pub add_subscribed : ℕ → ℕ → ℕ → Relay → Relay
add_subscribed id subid r g =
    on_handler id (λ h. record h { subscribed = assign subid r h.subscribed }) g
