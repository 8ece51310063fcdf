-- ===== src/Client/Track.antt =====
-- moq-go/moqt: the objects of a track, from the publisher through the relay to a subscriber.
use mathlib.Core.List.{append_assoc, append-nil}
use moq_quic_bbrv3_go.Prelude.{
  ℕ, zero, suc, ◌≤◌, ◌<◌, ◌≡◌, refl, ap, ◌∙◌, arith, true, false, List, [], ◌∷◌, ◌++◌, none, some,
  find, length, All, drop, length-append,
}
use moq_quic_bbrv3_go.Wire.Piping.{Piping, ended, Reach, Reach-Orderly, pending}
use moq_quic_bbrv3_go.Varint.{ok, eof, read, read_byte, max_varint}
use moq_quic_bbrv3_go.Varint.RoundTrip.{encoding}
use moq_quic_bbrv3_go.Wire.Params.{Object}
use moq_quic_bbrv3_go.Wire.Streams.{
  TrackStream, track_stream, new_track_stream, parse_stream, got, failed, track_read_object,
  read_in_group,
}
use moq_quic_bbrv3_go.Wire.Headers.{parse_stream-track_header}
use moq_quic_bbrv3_go.Wire.Relaying.{
  ObjectWritable, object_code, entries_code, append_objects-code, read_in_group-code,
}
use moq_quic_bbrv3_go.Relay.State.{
  Relay, get_sub_id, get_stream_id, get_publisher, stream_id_get_stream,
}
use moq_quic_bbrv3_go.Relay.Calls.{handle_subscribe}
use moq_quic_bbrv3_go.Relay.Members.{leads}
use moq_quic_bbrv3_go.Relay.Answer.{handle_subscribe-leads}
use moq_quic_bbrv3_go.Relay.Forward.{
  do_handle, process_objects, send_stream, process_moqt_stream, forward_all, forward_stream,
}
use moq_quic_bbrv3_go.Client.State.{
  new_pub_stream, new_track, SubStream, new_sub_stream, SubHandler, subscribe_message,
  sub_subscribe, sub_do_handle,
}
use moq_quic_bbrv3_go.Client.Circle.{find_assigned}

-- A reader that stands at the end of the stream: ReadObject closes it.
read_end :
    (s : TrackStream)
    → track_read_object (record s { reader = some [] })
      ≡ (record s { reader = some []; is_eof = true }, failed eof)
unfolding track_read_object read_in_group read read_byte
read_end s = refl

read_next :
    (s : TrackStream) (o : Object) (r : List ℕ)
    → ObjectWritable o
    → track_read_object (record s { reader = some (encoding o.group_id ++ (object_code o ++ r)) })
      ≡ (record s { objects = s.objects ++ (o ∷ []); reader = some r }, got o.group_id o)
unfolding track_read_object
read_next s o r h =
    read_in_group-code (record s { reader = some (encoding o.group_id ++ (object_code o ++ r)) }) o
      r h

-- The loop reads all objects, and ends at the end of the stream.
process_objects-code :
    (fuel : ℕ) (os : List Object) (s : TrackStream) (cache : List Object)
    → All ObjectWritable os
    → length os < fuel
    → process_objects fuel (record s { reader = some (entries_code os) }) cache
      ≡ some (record s { objects = s.objects ++ os; reader = some []; is_eof = true }, cache ++ os)
unfolding process_objects entries_code
process_objects-code zero os s cache h b = absurd (omega arith)
process_objects-code (suc fuel) [] s cache h b =
    rw (read_end s, append-nil s.objects, append-nil cache)
process_objects-code (suc fuel) (o ∷ os) s cache h b = rw (read_next s o (entries_code os) h.0) (
    process_objects-code fuel os (record s { objects = s.objects ++ (o ∷ []) }) (cache ++ o ∷ [])
      h.1 (omega arith)
    ∙ rw (append_assoc s.objects (o ∷ []) os, append_assoc cache (o ∷ []) os))

-- The numbers of a track's header fit a variable-length integer.
abbrev pub HeaderFits : TrackStream → Type 0
HeaderFits s = (s.track_alias ≤ max_varint) × (s.send_order ≤ max_varint)

All-prefix : (xs ys : List Object) → All ObjectWritable (xs ++ ys) → All ObjectWritable xs
All-prefix [] ys h = tt
All-prefix (x ∷ xs) ys h = (h.0, All-prefix xs ys h.1)

-- A stream as its receiver has it before the first object is read, and after the last.
abbrev pub arrived : ℕ → TrackStream → List ℕ → TrackStream
arrived k s r = record (new_track_stream k 0) {
  track_alias = s.track_alias;
  send_order = s.send_order;
  reader = some r;
}

abbrev pub received : ℕ → TrackStream → List Object → TrackStream
received k s os = record (new_track_stream k 0) {
  track_alias = s.track_alias;
  send_order = s.send_order;
  objects = os;
  reader = some [];
  is_eof = true;
}

-- What a follower has sent of a track is parsed as a stream of the subscription that it was sent for.
record Sent (k : ℕ) (s : TrackStream) (p : Piping) : Type 0 where
  code : List ℕ
  sent : send_stream k s p ≡ some code
  parsed :
      parse_stream code
      ≡ ok (k, track_stream (arrived k s (entries_code p.written))) (entries_code p.written)

send_stream-Sent :
    (k : ℕ) (s : TrackStream) (p : Piping)
    → k ≤ max_varint
    → HeaderFits s
    → All ObjectWritable p.written
    → Sent k s p
unfolding send_stream
send_stream-Sent k s p b f w =
    let (header, h, q) = parse_stream-track_header k s (entries_code p.written) b f.0 f.1 in
    record {
      code = header ++ entries_code p.written;
      sent = rw (h, append_objects-code [] p.written w);
      parsed = q;
    }

process_objects-arrived :
    (fuel k : ℕ) (s : TrackStream) (os : List Object)
    → All ObjectWritable os
    → length os < fuel
    → process_objects fuel (arrived k s (entries_code os)) [] ≡ some (received k s os, os)
unfolding new_track_stream
process_objects-arrived fuel k s os f b = process_objects-code fuel os (arrived k s []) [] f b

-- A follower of a stream of these objects that has come to the end of its loop.
pub record Follows (os : List Object) (p : Piping) : Type 0 where
  pub reached : Reach p
  pub followed : p.objects ≡ os
  pub over : p.phase ≡ ended

-- It has written them, but for those behind its index.
Follows-written : (os : List Object) (p : Piping) → Follows os p → p.written ++ drop p.index os ≡ os
Follows-written os p f =
    let split = (Reach-Orderly f.reached).split in
    let none_pending : pending p.phase ≡ [] = ap pending f.over in
    ground (arith, split, none_pending, append-nil p.written, f.followed)

Follows-Writable :
    (os : List Object) (p : Piping)
    → Follows os p
    → All ObjectWritable os
    → All ObjectWritable p.written × (length p.written ≤ length os)
Follows-Writable os p f w =
    let e = Follows-written os p f in
    (
      All-prefix p.written (drop p.index os) (rw (e) w),
      omega (arith, length-append p.written (drop p.index os), ap (length {A = Object}) e),
    )

-- A track's way: what the publisher's follower `here` sends, what the relay makes of it, what the
-- relay's follower `there` sends to the subscriber, and what the subscriber reads.
pub record Travels (fuel p s rs : ℕ) (stream : TrackStream) (here there : Piping) (id : List ℕ)
    (g : Relay) (sub : SubHandler) (ss : SubStream) : Type 0 where
  pub upstream : List ℕ
  pub sent : send_stream stream.sub_id stream here ≡ some upstream
  pub taken : TrackStream
  pub handled : do_handle p upstream g ≡ some (rs, track_stream taken)
  pub relayed : TrackStream
  pub cached : process_objects fuel taken [] ≡ some (relayed, here.written)
  pub downstream : List ℕ
  pub forwarded : process_moqt_stream s id relayed there g ≡ some downstream
  pub offered : TrackStream
  pub accepted : sub_do_handle downstream sub ≡ some (ss, track_stream offered)
  pub finished : TrackStream
  pub read : process_objects fuel offered [] ≡ some (finished, there.written)
  pub closed : (finished.objects ≡ there.written) × (finished.is_eof ≡ true)
  pub accounted :
      there.written ++ (drop there.index here.written ++ drop here.index here.objects)
      ≡ here.objects

-- A track of a publisher whose subscription the relay knows, from its follower to the subscription of
-- the subscriber.
send_stream-Travels :
    (fuel p s rs k : ℕ) (stream : TrackStream) (os : List Object) (here there : Piping) (g : Relay)
    (sub : SubHandler) (ss : SubStream)
    → HeaderFits stream
    → All ObjectWritable os
    → Follows os here
    → Follows here.written there
    → stream.sub_id ≤ max_varint
    → k ≤ max_varint
    → length os < fuel
    → find stream.sub_id (g.handlers p).incoming ≡ some rs
    → get_sub_id (g.streams rs).stream_id g.streams (g.handlers s).subscribed ≡ some k
    → find k sub.subscribed ≡ some ss
    → Travels fuel p s rs stream here there (g.streams rs).stream_id g sub ss
unfolding do_handle process_moqt_stream sub_do_handle
send_stream-Travels fuel p s rs k stream os here there g sub ss f w l m a b c known wanted mine =
    let (v, n) = Follows-Writable os here l w in
    let (x, o) = Follows-Writable here.written there m v in
    let up = send_stream-Sent stream.sub_id stream here a f v in
    let relayed = received stream.sub_id stream here.written in
    let down : Sent k relayed there = send_stream-Sent k relayed there b f x in
    record {
      upstream = up.code;
      sent = up.sent;
      taken = arrived stream.sub_id stream (entries_code here.written);
      handled = rw (up.parsed, known);
      relayed = relayed;
      cached = process_objects-arrived fuel stream.sub_id stream here.written v (omega arith);
      downstream = down.code;
      forwarded = rw (wanted, down.sent);
      offered = arrived k relayed (entries_code there.written);
      accepted = rw (down.parsed, mine);
      finished = received k relayed there.written;
      read = process_objects-arrived fuel k relayed there.written x (omega arith);
      closed = (refl, refl);
      accounted = ground (
        arith,
        append_assoc there.written (drop there.index here.written) (drop here.index os),
        Follows-written here.written there m,
        Follows-written os here l,
        l.followed,
      );
    }

only_one :
    (s rs : ℕ) (stream : TrackStream) (p : ℕ → Piping) (g : Relay) (down : List ℕ)
    → (g.streams rs).subscribers ≡ s ∷ []
    → process_moqt_stream s (g.streams rs).stream_id stream (p s) g ≡ some down
    → forward_stream rs stream p g ≡ (s, some down) ∷ []
unfolding forward_stream forward_all
only_one s rs stream p g down m f =
    ap (λ ss. forward_all ss (g.streams rs).stream_id stream p g) m ∙ ap (λ o. (s, o) ∷ []) f

-- A track that the publisher opens for a subscription which the relay has just asked it for is
-- forwarded to the subscriber alone. In whatever order the publisher's follower waits, is woken and
-- writes while any objects are written to the track, and the relay's follower while the relay reads
-- what came: once both have ended their loops, the subscriber's program has read, in order and up to a
-- closed end, what was written downstream, and all other objects of the track are those behind the
-- indices at which the two followers ended. The identifiers and the numbers of the objects fit a
-- variable-length integer, `make` does not refuse their payloads, the fuel is more than the number of
-- the objects, the relay does not serve the track yet, and the subscriber uses neither the identifier
-- nor the new stream and has no other stream of the same name.
pub sub_subscribe-Travels :
    (fuel k subid p s alias : ℕ) (ns name : List ℕ) (os : List Object) (here : Piping)
    (there : ℕ → Piping) (g : Relay) (sub : SubHandler)
    → let m = subscribe_message ns name alias k in
      All ObjectWritable os
      → Follows os here
      → Follows here.written (there s)
      → subid ≤ max_varint
      → k ≤ max_varint
      → length os < fuel
      → get_publisher ns g.namespaces ≡ some p
      → stream_id_get_stream (get_stream_id m) g.streams (g.handlers p).incoming ≡ none
      → find k (g.handlers s).subscribed ≡ none
      → leads g.next (g.handlers s).subscribed ≡ false
      → get_sub_id (get_stream_id m) g.streams (g.handlers s).subscribed ≡ none
      → let asked = handle_subscribe s m subid g in
        (t : Travels fuel p s g.next
          (new_track (new_pub_stream (record m { subscribe_id = subid })))
          here
          (there s)
          (asked.streams g.next).stream_id
          asked
          (sub_subscribe ns name alias k sub)
          (new_sub_stream (get_stream_id m) k))
        × (forward_stream g.next t.relayed there asked ≡ (s, some t.downstream) ∷ [])
unfolding new_track new_pub_stream new_track_stream sub_subscribe
sub_subscribe-Travels fuel k subid p s alias ns name os here there g sub w l q a b c e n new free
      other =
    let m = subscribe_message ns name alias k in
    let asked = handle_subscribe s m subid g in
    let track : TrackStream = new_track (new_pub_stream (record m { subscribe_id = subid })) in
    let (known, members, wanted) = handle_subscribe-leads p s m subid g e n new free other in
    let t =
      send_stream-Travels fuel p s g.next k track os here (there s) asked
        (sub_subscribe ns name alias k sub) (new_sub_stream (get_stream_id m) k)
        (omega arith, omega arith) w l q a b c known wanted
        (find_assigned k (new_sub_stream (get_stream_id m) k) sub.subscribed) in
    (t, only_one s g.next t.relayed there asked t.downstream members t.forwarded)
