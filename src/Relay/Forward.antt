-- ===== src/Relay/Forward.antt =====
-- moq-go/moqt: a data stream of a publisher on its way to a subscriber: DoHandle of relayhandler.go and
-- subhandler.go, relaystream.go's ProcessObjects and ForwardStream, NewStream and ProcessMOQTStream. The
-- stream is a track. A goroutine that follows a stream, its Wait included, is a state of Wire/Piping, in
-- whatever order its steps and those of the writer came; what a session writes on a stream is the list
-- of the bytes. An error of opening a stream or of writing on it is left out.
use moq_quic_bbrv3_go.Prelude.{
  if◌then◌else◌, ℕ, zero, suc, List, [], ◌∷◌, ◌++◌, Option, none, some, find,
}
use moq_quic_bbrv3_go.Varint.{panics, either}
use moq_quic_bbrv3_go.Wire.Params.{◌>>=◌, Object}
use moq_quic_bbrv3_go.Wire.Streams.{
  TrackStream, Stream, parse_stream, track_header, Outcome, got, failed, no_reader,
  track_read_object, append_objects,
}
use moq_quic_bbrv3_go.Wire.Piping.{Piping}
use moq_quic_bbrv3_go.Relay.State.{Relay, get_sub_id}

-- DoHandle of a relay's handler `p`, on one stream: the relay's stream and the stream that was parsed.
-- A stream that cannot be parsed, or of no subscription, is dropped.
unfoldable pub do_handle : ℕ → List ℕ → Relay → Option (ℕ × Stream)
do_handle p r g =
    either (parse_stream r) (λ e r1. none)
      λ h r1. do rs ← find h.0 (g.handlers p).incoming; some (rs, h.1)

-- What follows an object, and what follows any error but a panic.
abbrev pub next_object :
    {A : Type 0}
    → TrackStream × Outcome
    → (TrackStream → Object → Option A)
    → (TrackStream → A)
    → Option A
next_object x f d = elim x.1 [
  | got group o ↦ f x.0 o
  | failed e ↦ if panics (some e) then none else some (d x.0)
  | no_reader ↦ some (d x.0)
]

-- The loop of ProcessObjects, with the cache; none means a panic, or that the fuel ran out.
unfoldable pub process_objects : ℕ → TrackStream → List Object → Option (TrackStream × List Object)
process_objects zero s cache = none
process_objects (suc fuel) s cache =
    next_object (track_read_object s) (λ s' o. process_objects fuel s' (cache ++ o ∷ []))
      λ s'. (s', cache)

-- What is written on the stream of a follower that has run as `p`: the header, and what its calls of Pipe
-- have given, one behind the other.
unfoldable pub send_stream : ℕ → TrackStream → Piping → Option (List ℕ)
send_stream subid s p = do
  header ← track_header subid s
  piped ← append_objects [] p.written
  some (header ++ piped)

-- ProcessMOQTStream of a relay's handler `s`, on a stream with the name `id`: what it writes on a new
-- stream, none if the handler has no subscription of that name.
unfoldable pub process_moqt_stream : ℕ → List ℕ → TrackStream → Piping → Relay → Option (List ℕ)
unfolding send_stream
process_moqt_stream s id stream p g = do
  k ← get_sub_id id g.streams (g.handlers s).subscribed
  send_stream k stream p

-- ForwardStream: what each subscriber of the relay's stream is sent, by the follower that serves it.
unfoldable pub forward_all :
    List ℕ → List ℕ → TrackStream → (ℕ → Piping) → Relay → List (ℕ × Option (List ℕ))
forward_all [] id stream p g = []
forward_all (s ∷ ss) id stream p g =
    (s, process_moqt_stream s id stream (p s) g) ∷ forward_all ss id stream p g

unfoldable pub forward_stream : ℕ → TrackStream → (ℕ → Piping) → Relay → List (ℕ × Option (List ℕ))
unfolding forward_all
forward_stream rs stream p g =
    forward_all (g.streams rs).subscribers (g.streams rs).stream_id stream p g
