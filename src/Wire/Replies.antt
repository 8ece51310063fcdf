-- ===== src/Wire/Replies.antt =====
-- moq-go/moqt/wire: ANNOUNCE_OK, SUBSCRIBE, SUBSCRIBE_OK, SUBSCRIBE_DONE and UNSUBSCRIBE, read back
-- from what is written of them.
use mathlib.Core.List.{append_assoc, append-nil}
use moq_quic_bbrv3_go.Prelude.{
  ℕ, ◌≤◌, ◌≡◌, refl, arith, Bool, true, false, List, [], ◌++◌, some, length,
}
use moq_quic_bbrv3_go.Wire.Params.{max_make}
use moq_quic_bbrv3_go.Varint.{ok, max_varint}
use moq_quic_bbrv3_go.Varint.RoundTrip.{encoding, read-encoding, append-encoding}
use moq_quic_bbrv3_go.Wire.Codes.{string_code, parse_string-code, string_bytes-code, ParamsWritable}
use moq_quic_bbrv3_go.Wire.ParamLoop.{map_code, parse_params-code, params_bytes-code}
use moq_quic_bbrv3_go.Wire.Messages.{
  Subscribe, has_start, has_end, parse_announce_ok, announce_ok_bytes, read_if, parse_range,
  parse_subscribe, append_if, append_range, subscribe_bytes, parse_unsubscribe, unsubscribe_bytes,
}

pub parse_announce_ok-code :
    (ns r : List ℕ) → length ns ≤ max_make → parse_announce_ok (string_code ns ++ r) ≡ ok ns r
unfolding parse_announce_ok
parse_announce_ok-code ns r h = rw (parse_string-code ns r h)

pub announce_ok_bytes-code :
    (ns : List ℕ)
    → length ns ≤ max_make
    → announce_ok_bytes ns ≡ some (encoding 7 ++ string_code ns)
unfolding announce_ok_bytes
announce_ok_bytes-code ns h =
    rw (append-encoding [] 7 (omega arith), append-encoding (encoding 7) (length ns) (omega arith))
      (simp append_assoc)

pub parse_unsubscribe-code :
    (id : ℕ) (r : List ℕ) → id ≤ max_varint → parse_unsubscribe (encoding id ++ r) ≡ ok id r
unfolding parse_unsubscribe
parse_unsubscribe-code id r h = rw (read-encoding id r h)

pub unsubscribe_bytes-code :
    (id : ℕ) → id ≤ max_varint → unsubscribe_bytes id ≡ some (encoding 10 ++ encoding id)
unfolding unsubscribe_bytes
unsubscribe_bytes-code id h =
    rw (append-encoding [] 10 (omega arith), append-encoding (encoding 10) id h)

-- A number that is written under a condition.
abbrev pub if_code : Bool → ℕ → List ℕ
if_code true v = encoding v
if_code false v = []

-- What is read back under the same condition.
abbrev pub kept : Bool → ℕ → ℕ
kept true v = v
kept false v = 0

read_if-code :
    (c : Bool) (v : ℕ) (r : List ℕ)
    → v ≤ max_varint
    → read_if c (if_code c v ++ r) ≡ ok (kept c v) r
unfolding read_if
read_if-code true v r h = read-encoding v r h
read_if-code false v r h = refl

pub append_if-code :
    (c : Bool) (d : List ℕ) (v : ℕ) → v ≤ max_varint → append_if c d v ≡ some (d ++ if_code c v)
unfolding append_if
append_if-code true d v h = append-encoding d v h
append_if-code false d v h = rw append-nil

abbrev pub SubscribeWritable : Subscribe → Type 0
SubscribeWritable s =
    (s.subscribe_id ≤ max_varint)
    × (s.track_alias ≤ max_varint)
    × (length s.track_namespace ≤ max_make)
    × (length s.track_name ≤ max_make)
    × (s.filter_type ≤ max_varint)
    × ((s.start_group ≤ max_varint)
        × (s.start_object ≤ max_varint)
        × (s.end_group ≤ max_varint)
        × (s.end_object ≤ max_varint)
        × ParamsWritable s.params)

abbrev range_code : Subscribe → List ℕ
range_code s =
    if_code (has_start s.filter_type) s.start_group
    ++ (if_code (has_start s.filter_type) s.start_object
        ++ (if_code (has_end s.filter_type) s.end_group
            ++ (if_code (has_end s.filter_type) s.end_object ++ map_code s.params)))

abbrev pub subscribe_code : Subscribe → List ℕ
subscribe_code s =
    encoding s.subscribe_id
    ++ (encoding s.track_alias
        ++ (string_code s.track_namespace
            ++ (string_code s.track_name ++ (encoding s.filter_type ++ range_code s))))

-- A start that the filter does not have, and an end, are not written and come back as 0.
abbrev pub in_filter : Subscribe → Subscribe
in_filter s = record s {
  start_group = kept (has_start s.filter_type) s.start_group;
  start_object = kept (has_start s.filter_type) s.start_object;
  end_group = kept (has_end s.filter_type) s.end_group;
  end_object = kept (has_end s.filter_type) s.end_object;
}

parse_range-code :
    (s z : Subscribe) (r : List ℕ)
    → SubscribeWritable s
    → z.filter_type ≡ s.filter_type
    → parse_range z (range_code s ++ r)
      ≡ ok
          (record z {
            start_group = kept (has_start s.filter_type) s.start_group;
            start_object = kept (has_start s.filter_type) s.start_object;
            end_group = kept (has_end s.filter_type) s.end_group;
            end_object = kept (has_end s.filter_type) s.end_object;
            params = s.params;
          })
          r
unfolding parse_range
parse_range-code s z r (a, b, c, d, e, (sg, so, eg, eo, m)) f =
    let st = has_start s.filter_type in
    let en = has_end s.filter_type in
    rw (
      append_assoc (if_code st s.start_group) _ r,
      append_assoc (if_code st s.start_object) _ r,
      append_assoc (if_code en s.end_group) _ r,
      append_assoc (if_code en s.end_object) _ r,
      f,
      read_if-code st s.start_group _ sg,
      read_if-code st s.start_object _ so,
      read_if-code en s.end_group _ eg,
      read_if-code en s.end_object _ eo,
      parse_params-code s.params r m,
    )

pub parse_subscribe-code :
    (s : Subscribe) (r : List ℕ)
    → SubscribeWritable s
    → parse_subscribe (subscribe_code s ++ r) ≡ ok (in_filter s) r
unfolding parse_subscribe
parse_subscribe-code s r h =
    rw
      (
        append_assoc (encoding s.subscribe_id) _ r,
        append_assoc (encoding s.track_alias) _ r,
        append_assoc (string_code s.track_namespace) _ r,
        append_assoc (string_code s.track_name) _ r,
        append_assoc (encoding s.filter_type) _ r,
        read-encoding s.subscribe_id _ h.0,
        read-encoding s.track_alias _ h.1,
        parse_string-code s.track_namespace _ h.2,
        parse_string-code s.track_name _ h.3,
        read-encoding s.filter_type _ h.4,
      )
      (parse_range-code s _ r h refl)

append_range-code :
    (s : Subscribe) (d : List ℕ) → SubscribeWritable s → append_range s d ≡ some (d ++ range_code s)
unfolding append_range
append_range-code s d (a, b, c, e, f, (sg, so, eg, eo, m)) =
    rw
      (
        append_if-code (has_start s.filter_type) d s.start_group sg,
        append_if-code (has_start s.filter_type) _ s.start_object so,
        append_if-code (has_end s.filter_type) _ s.end_group eg,
        append_if-code (has_end s.filter_type) _ s.end_object eo,
        params_bytes-code s.params m,
      )
      (simp append_assoc)

pub subscribe_bytes-code :
    (s : Subscribe)
    → SubscribeWritable s
    → subscribe_bytes s ≡ some (encoding 3 ++ subscribe_code s)
unfolding subscribe_bytes
subscribe_bytes-code s h =
    rw
      (
        append-encoding [] 3 (omega arith),
        append-encoding (encoding 3) s.subscribe_id h.0,
        append-encoding _ s.track_alias h.1,
        string_bytes-code s.track_namespace h.2,
        string_bytes-code s.track_name h.3,
        append-encoding _ s.filter_type h.4,
        append_range-code s _ h,
      )
      (simp append_assoc)
