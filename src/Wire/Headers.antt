-- ===== src/Wire/Headers.antt =====
-- moq-go/moqt/wire: the headers of the data streams, read back from what is written of them.
use mathlib.Core.List.{append_assoc}
use moq_quic_bbrv3_go.Prelude.{ℕ, ◌≤◌, ◌≡◌, arith, List, [], ◌++◌, some}
use moq_quic_bbrv3_go.Varint.{ok, max_varint}
use moq_quic_bbrv3_go.Varint.RoundTrip.{encoding, read-encoding, append-encoding}
use moq_quic_bbrv3_go.Wire.Streams.{
  TrackStream, GroupStream, new_track_stream, new_group_stream, parse_track_header, parse_track,
  parse_group_header, parse_group, track_header, group_header, track_stream, group_stream,
  parse_stream,
}

-- The header of a track stream, written for a subscription with numbers that fit a variable-length
-- integer, is written without a panic and read back as a stream of that subscription with the same
-- alias and order, no object, and a reader of what follows.
pub parse_stream-track_header :
    (subid : ℕ) (s : TrackStream) (r : List ℕ)
    → subid ≤ max_varint
    → s.track_alias ≤ max_varint
    → s.send_order ≤ max_varint
    → (code : List ℕ) × (track_header subid s ≡ some code)
      × (parse_stream (code ++ r)
          ≡ ok
              (
                subid,
                track_stream (record (new_track_stream subid 0) {
                  track_alias = s.track_alias;
                  send_order = s.send_order;
                  reader = some r;
                }),
              )
              r)
unfolding parse_stream parse_track parse_track_header track_header
parse_stream-track_header subid s r a b c = (
  encoding 0x50 ++ (encoding subid ++ (encoding s.track_alias ++ encoding s.send_order)),
  rw
      (
        append-encoding [] 0x50 (omega arith),
        append-encoding (encoding 0x50) subid a,
        append-encoding _ s.track_alias b,
        append-encoding _ s.send_order c,
      )
      (simp append_assoc),
  rw (
    append_assoc (encoding 0x50) _ r,
    append_assoc (encoding subid) _ r,
    append_assoc (encoding s.track_alias) _ r,
    read-encoding 0x50 _ (omega arith),
    read-encoding subid _ a,
    read-encoding s.track_alias _ b,
    read-encoding s.send_order r c,
  ),
)

-- The header of a group stream, written for a subscription with numbers that fit a variable-length
-- integer, is written without a panic and read back as a stream of that subscription with the same
-- alias, group and order, no object, and a reader of what follows.
pub parse_stream-group_header :
    (subid : ℕ) (s : GroupStream) (r : List ℕ)
    → subid ≤ max_varint
    → s.track_alias ≤ max_varint
    → s.group_id ≤ max_varint
    → s.send_order ≤ max_varint
    → (code : List ℕ) × (group_header subid s ≡ some code)
      × (parse_stream (code ++ r)
          ≡ ok
              (
                subid,
                group_stream (record (new_group_stream subid s.group_id s.track_alias) {
                  send_order = s.send_order;
                  reader = some r;
                }),
              )
              r)
unfolding parse_stream parse_group parse_group_header group_header new_group_stream
parse_stream-group_header subid s r a b c d = (
  encoding 0x51
      ++ (encoding subid
          ++ (encoding s.track_alias ++ (encoding s.group_id ++ encoding s.send_order))),
  rw
      (
        append-encoding [] 0x51 (omega arith),
        append-encoding (encoding 0x51) subid a,
        append-encoding _ s.track_alias b,
        append-encoding _ s.group_id c,
        append-encoding _ s.send_order d,
      )
      (simp append_assoc),
  rw (
    append_assoc (encoding 0x51) _ r,
    append_assoc (encoding subid) _ r,
    append_assoc (encoding s.track_alias) _ r,
    append_assoc (encoding s.group_id) _ r,
    read-encoding 0x51 _ (omega arith),
    read-encoding subid _ a,
    read-encoding s.track_alias _ b,
    read-encoding s.group_id _ c,
    read-encoding s.send_order r d,
  ),
)
