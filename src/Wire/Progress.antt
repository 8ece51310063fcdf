-- ===== src/Wire/Progress.antt =====
-- moq-go/moqt/wire: no parser puts bytes back, and `ParseMOQTMessage` takes one at least.
use moq_quic_bbrv3_go.Prelude.{
  ℕ, zero, suc, ◌≤◌, ◌<◌, ◌≡◌, arith, Bool, true, false, List, [], ◌∷◌, ◌++◌, none, length,
}
use moq_quic_bbrv3_go.Varint.{read_byte, read}
use moq_quic_bbrv3_go.Wire.Params.{parse_string}
use moq_quic_bbrv3_go.Wire.Messages.{
  parse_announce, parse_announce_ok, parse_versions, parse_client_setup, parse_server_setup,
  has_start, has_end, read_if, parse_range, parse_subscribe, parse_subscribe_ok,
  parse_subscribe_done, parse_unsubscribe, parse_body, parse_message, Subscribe,
}
use moq_quic_bbrv3_go.Wire.Within.{
  Within, read_byte-Within, read-shorter, read-Within, parse_string-Within, parse_params-Within,
}

parse_announce-Within : (n : ℕ) (r : List ℕ) → length r ≤ n → Within n (parse_announce r)
unfolding parse_announce
parse_announce-Within n r h =
    ground (arith, parse_string-Within n r h, parse_params-Within n (parse_string r).rest)

parse_announce_ok-Within : (n : ℕ) (r : List ℕ) → length r ≤ n → Within n (parse_announce_ok r)
unfolding parse_announce_ok
parse_announce_ok-Within n r h = ground (arith, parse_string-Within n r h)

parse_versions-Within : (n k : ℕ) (vs r : List ℕ) → length r ≤ n → Within n (parse_versions k vs r)
unfolding parse_versions
parse_versions-Within n zero vs r h = h
parse_versions-Within n (suc k) vs r h =
    let a = read r in
    ground (arith, read-Within n r h, parse_versions-Within n k (vs ++ (a.value ∷ [])) a.rest)

parse_client_setup-Within : (n : ℕ) (r : List ℕ) → length r ≤ n → Within n (parse_client_setup r)
unfolding parse_client_setup
parse_client_setup-Within n r h =
    let a = read r in
    let v = parse_versions a.value [] a.rest in
    ground (
      arith,
      read-Within n r h,
      parse_versions-Within n a.value [] a.rest,
      parse_params-Within n v.rest,
    )

parse_server_setup-Within : (n : ℕ) (r : List ℕ) → length r ≤ n → Within n (parse_server_setup r)
unfolding parse_server_setup
parse_server_setup-Within n r h =
    ground (arith, read-Within n r h, parse_params-Within n (read r).rest)

read_if-Within : (n : ℕ) (c : Bool) (r : List ℕ) → length r ≤ n → Within n (read_if c r)
unfolding read_if
read_if-Within n true r h = read-Within n r h
read_if-Within n false r h = h

parse_range-Within :
    (n : ℕ) (s : Subscribe) (r : List ℕ) → length r ≤ n → Within n (parse_range s r)
unfolding parse_range
parse_range-Within n s r h =
    let st = has_start s.filter_type in
    let en = has_end s.filter_type in
    let r1 = (read_if st r).rest in
    let r2 = (read_if st r1).rest in
    let r3 = (read_if en r2).rest in
    let r4 = (read_if en r3).rest in
    ground (
      arith,
      read_if-Within n st r h,
      read_if-Within n st r1,
      read_if-Within n en r2,
      read_if-Within n en r3,
      parse_params-Within n r4,
    )

parse_subscribe-Within : (n : ℕ) (r : List ℕ) → length r ≤ n → Within n (parse_subscribe r)
unfolding parse_subscribe
parse_subscribe-Within n r h =
    let a = read r in
    let b = read a.rest in
    let c = parse_string b.rest in
    let d = parse_string c.rest in
    let f = read d.rest in
    ground (
      arith,
      read-Within n r h,
      read-Within n a.rest,
      parse_string-Within n b.rest,
      parse_string-Within n c.rest,
      read-Within n d.rest,
      parse_range-Within n
          (record {
            subscribe_id = a.value;
            track_alias = b.value;
            track_namespace = c.value;
            track_name = d.value;
            filter_type = f.value;
            start_group = 0;
            start_object = 0;
            end_group = 0;
            end_object = 0;
            params = [];
          })
          f.rest,
    )

parse_subscribe_ok-Within : (n : ℕ) (r : List ℕ) → length r ≤ n → Within n (parse_subscribe_ok r)
unfolding parse_subscribe_ok
parse_subscribe_ok-Within n r h =
    let a = read r in
    let b = read a.rest in
    let c = read_byte b.rest in
    let d = read c.rest in
    ground (
      arith,
      read-Within n r h,
      read-Within n a.rest,
      read_byte-Within n b.rest,
      read-Within n c.rest,
      read-Within n d.rest,
    )

parse_subscribe_done-Within :
    (n : ℕ) (r : List ℕ) → length r ≤ n → Within n (parse_subscribe_done r)
unfolding parse_subscribe_done
parse_subscribe_done-Within n r h =
    let a = read r in
    let b = read a.rest in
    let c = parse_string b.rest in
    let d = read_byte c.rest in
    let e = read d.rest in
    ground (
      arith,
      read-Within n r h,
      read-Within n a.rest,
      parse_string-Within n b.rest,
      read_byte-Within n c.rest,
      read-Within n d.rest,
      read-Within n e.rest,
    )

parse_unsubscribe-Within : (n : ℕ) (r : List ℕ) → length r ≤ n → Within n (parse_unsubscribe r)
unfolding parse_unsubscribe
parse_unsubscribe-Within n r h = ground (arith, read-Within n r h)

parse_body-Within : (n t : ℕ) (r : List ℕ) → length r ≤ n → Within n (parse_body t r)
unfolding parse_body
parse_body-Within n t r h = ground (
  arith,
  parse_client_setup-Within n r h,
  parse_server_setup-Within n r h,
  parse_announce-Within n r h,
  parse_announce_ok-Within n r h,
  parse_subscribe-Within n r h,
  parse_subscribe_ok-Within n r h,
  parse_unsubscribe-Within n r h,
  parse_subscribe_done-Within n r h,
)

-- A message is read only from a byte at least.
pub parse_message-shorter :
    (r : List ℕ) → (parse_message r).error ≡ none → length (parse_message r).rest < length r
unfolding parse_message
parse_message-shorter [] h = unfold read read_byte in cc
parse_message-shorter (b ∷ r) h =
    let a = read (b ∷ r) in
    ground (arith, read-shorter b r, parse_body-Within (length r) a.value a.rest)
