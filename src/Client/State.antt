-- ===== src/Client/State.antt =====
-- moq-go/moqt: the handlers of a publisher and of a subscriber. A channel is the list of what was sent on
-- it, and a send is taken to find a receiver; `none` is the panic of a send on a closed channel, or of
-- closing it again. The identifier that `Subscribe` draws at random is an argument. Locks and logging
-- are left out.
use moq_quic_bbrv3_go.Prelude.{
  ℕ, Bool, true, false, if◌then◌else◌, List, [], ◌∷◌, ◌++◌, Option, none, some, find, assign,
}
use moq_quic_bbrv3_go.Wire.Messages.{
  Announce, Subscribe, SubscribeOk, Message, announce, subscribe, subscribe_ok,
}
use moq_quic_bbrv3_go.Wire.Streams.{
  TrackStream, GroupStream, Stream, new_track_stream, new_group_stream, parse_stream,
}
use moq_quic_bbrv3_go.Varint.{either}
use moq_quic_bbrv3_go.Wire.Params.{◌>>=◌}
use moq_quic_bbrv3_go.Session.State.{protocol_violation}
use moq_quic_bbrv3_go.Relay.State.{same, get_stream_id}

pub record PubStream : Type 0 where
  pub stream_id : List ℕ
  pub sub_id : ℕ
  pub namespace : List ℕ
  pub track_name : List ℕ
  pub alias : ℕ
  pub group_counter : ℕ

-- `offered` is `SubscribeChan`; `closed` has the error codes that the connection was closed with.
pub record PubHandler : Type 0 where
  pub announced : List (List ℕ × List (ℕ × PubStream))
  pub offered : List PubStream
  pub is_closed : Bool
  pub closed : List ℕ
  pub written : List Message

unfoldable pub new_pub_handler : PubHandler
new_pub_handler = record {
  announced = [];
  offered = [];
  is_closed = false;
  closed = [];
  written = [];
}

unfoldable pub new_pub_stream : Subscribe → PubStream
new_pub_stream m = record {
  stream_id = get_stream_id m;
  sub_id = m.subscribe_id;
  namespace = m.track_namespace;
  track_name = m.track_name;
  alias = m.track_alias;
  group_counter = 0;
}

-- `pub.AnnouncedStreams[ns]`, and its assignment.
abbrev pub find_announced :
    List ℕ → List (List ℕ × List (ℕ × PubStream)) → Option (List (ℕ × PubStream))
find_announced ns [] = none
find_announced ns ((k, v) ∷ m) = if same k ns then some v else find_announced ns m

abbrev pub assign_announced :
    List ℕ
    → List (ℕ × PubStream)
    → List (List ℕ × List (ℕ × PubStream))
    → List (List ℕ × List (ℕ × PubStream))
assign_announced ns v [] = (ns, v) ∷ []
assign_announced ns v ((k, w) ∷ m) =
    if same k ns then (ns, v) ∷ m else (k, w) ∷ assign_announced ns v m

-- The streams of a namespace that is announced again are forgotten.
unfoldable pub send_announce : List ℕ → PubHandler → PubHandler
send_announce ns h = record h {
  written = h.written ++ (announce (record { track_namespace = ns; params = [] }) ∷ []);
  announced = assign_announced ns [] h.announced;
}

unfoldable pub refuse_announce : Announce → PubHandler → PubHandler
refuse_announce m h = record h { closed = h.closed ++ (protocol_violation ∷ []) }

-- PubHandler.HandleSubscribe
unfoldable pub add_offered : Subscribe → List (ℕ × PubStream) → PubHandler → PubHandler
add_offered m streams h = record h {
  announced =
      assign_announced m.track_namespace (assign m.subscribe_id (new_pub_stream m) streams)
        h.announced;
  offered = h.offered ++ (new_pub_stream m ∷ []);
}

unfoldable pub offer_stream :
    Subscribe → Option (List (ℕ × PubStream)) → PubHandler → Option PubHandler
offer_stream m none h = some h
offer_stream m (some streams) h = if h.is_closed then none else some (add_offered m streams h)

unfoldable pub pub_handle_subscribe : Subscribe → PubHandler → Option PubHandler
pub_handle_subscribe m h = offer_stream m (find_announced m.track_namespace h.announced) h

unfoldable pub pub_handle_close : PubHandler → Option PubHandler
pub_handle_close h = if h.is_closed then none else some (record h { is_closed = true })

-- PubStream.Accept
abbrev pub accept_message : PubStream → SubscribeOk
accept_message s = record {
  subscribe_id = s.sub_id;
  expires = 1024;
  content_exists = 0;
  largest_group_id = 0;
  largest_object_id = 0;
}

unfoldable pub accept : PubStream → PubHandler → PubHandler
accept s h = record h { written = h.written ++ (subscribe_ok (accept_message s) ∷ []) }

-- What `NewTrack` and `NewGroup` open, and the bytes that `NewStream` writes first.
unfoldable pub new_track : PubStream → TrackStream
new_track s = new_track_stream s.sub_id s.alias

unfoldable pub new_group : ℕ → PubStream → GroupStream
new_group id s = new_group_stream s.sub_id id s.alias

pub record SubStream : Type 0 where
  pub stream_id : List ℕ
  pub sub_id : ℕ

-- `offered` is `StreamsChan`, and `announces` `AnnounceChan`, which is never closed.
pub record SubHandler : Type 0 where
  pub subscribed : List (ℕ × SubStream)
  pub offered : List SubStream
  pub announces : List (List ℕ)
  pub is_closed : Bool
  pub written : List Message

unfoldable pub new_sub_handler : SubHandler
new_sub_handler = record {
  subscribed = [];
  offered = [];
  announces = [];
  is_closed = false;
  written = [];
}

-- The message of `Subscribe`, with the filter `LatestGroup`.
abbrev pub subscribe_message : (ns name : List ℕ) (alias subid : ℕ) → Subscribe
subscribe_message ns name alias subid = record {
  subscribe_id = subid;
  track_alias = alias;
  track_namespace = ns;
  track_name = name;
  filter_type = 1;
  start_group = 0;
  start_object = 0;
  end_group = 0;
  end_object = 0;
  params = [];
}

unfoldable pub new_sub_stream : List ℕ → ℕ → SubStream
new_sub_stream id subid = record { stream_id = id; sub_id = subid }

unfoldable pub sub_subscribe : (ns name : List ℕ) (alias subid : ℕ) → SubHandler → SubHandler
sub_subscribe ns name alias subid h =
    let m = subscribe_message ns name alias subid in
    record h {
      written = h.written ++ (subscribe m ∷ []);
      subscribed = assign subid (new_sub_stream (get_stream_id m) subid) h.subscribed;
    }

unfoldable pub sub_handle_announce : Announce → SubHandler → SubHandler
sub_handle_announce m h = record h { announces = h.announces ++ (m.track_namespace ∷ []) }

-- SubHandler.HandleSubscribeOk
unfoldable pub add_found : SubStream → SubHandler → SubHandler
add_found s h = record h { offered = h.offered ++ (s ∷ []) }

unfoldable pub offer_found : Option SubStream → SubHandler → Option SubHandler
offer_found none h = some h
offer_found (some s) h = if h.is_closed then none else some (add_found s h)

unfoldable pub sub_handle_subscribe_ok : SubscribeOk → SubHandler → Option SubHandler
sub_handle_subscribe_ok m h = offer_found (find m.subscribe_id h.subscribed) h

unfoldable pub sub_handle_close : SubHandler → Option SubHandler
sub_handle_close h = if h.is_closed then none else some (record h { is_closed = true })

-- SubHandler.DoHandle, on one stream: the subscription that it is handed to, and the stream. A stream
-- that cannot be parsed, or of no subscription, is dropped.
unfoldable pub sub_do_handle : List ℕ → SubHandler → Option (SubStream × Stream)
sub_do_handle r h =
    either (parse_stream r) (λ e r1. none) λ p r1. do s ← find p.0 h.subscribed; some (s, p.1)
