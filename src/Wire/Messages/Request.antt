-- ===== src/Wire/Messages/Request.antt =====
-- moq-go/moqt/wire/subscribe.go.
use moq_quic_bbrv3_go.Prelude.{ℕ, Bool, true, false, ◌||◌, ◌==◌, List, [], ◌++◌, Option, some}
use moq_quic_bbrv3_go.Varint.{Parsed, ok, check, read, append}
use moq_quic_bbrv3_go.Wire.Params.{
  ◌>>=◌, parse_string, string_bytes, Parameters, parse_params, params_bytes,
}

pub record Subscribe : Type 0 where
  pub subscribe_id : ℕ
  pub track_alias : ℕ
  pub track_namespace : List ℕ
  pub track_name : List ℕ
  pub filter_type : ℕ
  pub start_group : ℕ
  pub start_object : ℕ
  pub end_group : ℕ
  pub end_object : ℕ
  pub params : Parameters

-- AbsoluteStart or AbsoluteRange, and AbsoluteRange.
abbrev pub has_start : ℕ → Bool
has_start f = f == 3 || f == 4

abbrev pub has_end : ℕ → Bool
has_end f = f == 4

abbrev pub zero_subscribe : Subscribe
zero_subscribe = record {
  subscribe_id = 0;
  track_alias = 0;
  track_namespace = [];
  track_name = [];
  filter_type = 0;
  start_group = 0;
  start_object = 0;
  end_group = 0;
  end_object = 0;
  params = [];
}

-- `if cond { field, err = Read(reader) }`; a field that is not read keeps the receiver's zero.
unfoldable pub read_if : Bool → List ℕ → Parsed ℕ
read_if true r = read r
read_if false r = ok 0 r

-- The part of `Subscribe.Parse` behind the filter type.
unfoldable pub parse_range : Subscribe → List ℕ → Parsed Subscribe
parse_range s r = check (read_if (has_start s.filter_type) r) s λ sg r1.
    let s1 : Subscribe = record s { start_group = sg } in
    check (read_if (has_start s.filter_type) r1) s1 λ so r2.
      let s2 : Subscribe = record s1 { start_object = so } in
      check (read_if (has_end s.filter_type) r2) s2 λ eg r3.
        let s3 : Subscribe = record s2 { end_group = eg } in
        check (read_if (has_end s.filter_type) r3) s3 λ eo r4.
          let s4 : Subscribe = record s3 { end_object = eo } in
          check (parse_params r4) s4 λ m r5. ok (record s4 { params = m }) r5

unfoldable pub parse_subscribe : List ℕ → Parsed Subscribe
parse_subscribe r = check (read r) zero_subscribe λ id r1.
    let s1 : Subscribe = record zero_subscribe { subscribe_id = id } in
    check (read r1) s1 λ alias r2.
      let s2 : Subscribe = record s1 { track_alias = alias } in
      check (parse_string r2) s2 λ ns r3.
        let s3 : Subscribe = record s2 { track_namespace = ns } in
        check (parse_string r3) s3 λ name r4.
          let s4 : Subscribe = record s3 { track_name = name } in
          check (read r4) s4 λ f r5. parse_range (record s4 { filter_type = f }) r5

-- `if cond { data = quicvarint.Append(data, v) }`
unfoldable pub append_if : Bool → List ℕ → ℕ → Option (List ℕ)
append_if true d v = append d v
append_if false d v = some d

unfoldable pub append_range : Subscribe → List ℕ → Option (List ℕ)
append_range s d = do
  d1 ← append_if (has_start s.filter_type) d s.start_group
  d2 ← append_if (has_start s.filter_type) d1 s.start_object
  d3 ← append_if (has_end s.filter_type) d2 s.end_group
  d4 ← append_if (has_end s.filter_type) d3 s.end_object
  bytes ← params_bytes s.params
  some (d4 ++ bytes)

unfoldable pub subscribe_bytes : Subscribe → Option (List ℕ)
subscribe_bytes s = do
  d1 ← append [] 0x3
  d2 ← append d1 s.subscribe_id
  d3 ← append d2 s.track_alias
  ns ← string_bytes s.track_namespace
  name ← string_bytes s.track_name
  d4 ← append ((d3 ++ ns) ++ name) s.filter_type
  append_range s d4
