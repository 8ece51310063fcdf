-- ===== src/Wire/Contents.antt =====
-- moq-go/moqt/wire: SUBSCRIBE_OK and SUBSCRIBE_DONE, read back from what is written of them.
use mathlib.Core.List.{append_assoc}
use moq_quic_bbrv3_go.Prelude.{
  ℕ, ◌≤◌, ◌≡◌, arith, ◌==◌, if◌then◌else◌, List, [], ◌∷◌, ◌++◌, some, length, Bool-cases, inl, inr,
}
use moq_quic_bbrv3_go.Wire.Params.{max_make}
use moq_quic_bbrv3_go.Varint.{ok, read_byte, max_varint}
use moq_quic_bbrv3_go.Varint.RoundTrip.{encoding, read-encoding, append-encoding}
use moq_quic_bbrv3_go.Wire.Codes.{string_code, parse_string-code}
use moq_quic_bbrv3_go.Wire.Replies.{if_code, append_if-code}
use moq_quic_bbrv3_go.Wire.Messages.{
  SubscribeOk, SubscribeDone, parse_subscribe_ok, subscribe_ok_bytes, parse_subscribe_done,
  subscribe_done_bytes,
}

abbrev pub SubscribeOkWritable : SubscribeOk → Type 0
SubscribeOkWritable s =
    (s.subscribe_id ≤ max_varint)
    × (s.expires ≤ max_varint)
    × (s.largest_object_id ≤ max_varint)
    × (s.largest_group_id ≤ max_varint)

abbrev pub subscribe_ok_code : SubscribeOk → List ℕ
subscribe_ok_code s =
    let c = s.content_exists == 1 in
    encoding s.subscribe_id
    ++ (encoding s.expires
        ++ (s.content_exists ∷ (if_code c s.largest_object_id ++ if_code c s.largest_group_id)))

-- What comes back: no group, and the group that was sent in the place of the object.
abbrev pub swapped : SubscribeOk → SubscribeOk
swapped s = record s {
  largest_group_id = 0;
  largest_object_id = if s.content_exists == 1 then s.largest_group_id else 0;
}

pub parse_subscribe_ok-code :
    (s : SubscribeOk) (r : List ℕ)
    → SubscribeOkWritable s
    → parse_subscribe_ok (subscribe_ok_code s ++ r) ≡ ok (swapped s) r
unfolding parse_subscribe_ok read_byte
parse_subscribe_ok-code s r (a, b, o, g) = elim (Bool-cases (s.content_exists == 1)) [
  | inl one ↦ rw (
    one,
    append_assoc (encoding s.subscribe_id) _ r,
    append_assoc (encoding s.expires) _ r,
    append_assoc (encoding s.largest_object_id) _ r,
    read-encoding s.subscribe_id _ a,
    read-encoding s.expires _ b,
    one,
    read-encoding s.largest_object_id _ o,
    read-encoding s.largest_group_id _ g,
  )
  | inr other ↦ rw (
    other,
    append_assoc (encoding s.subscribe_id) _ r,
    append_assoc (encoding s.expires) _ r,
    read-encoding s.subscribe_id _ a,
    read-encoding s.expires _ b,
    other,
  )
]

pub subscribe_ok_bytes-code :
    (s : SubscribeOk)
    → SubscribeOkWritable s
    → subscribe_ok_bytes s ≡ some (encoding 4 ++ subscribe_ok_code s)
unfolding subscribe_ok_bytes
subscribe_ok_bytes-code s (a, b, o, g) =
    rw
      (
        append-encoding [] 4 (omega arith),
        append-encoding (encoding 4) s.subscribe_id a,
        append-encoding _ s.expires b,
        append_if-code (s.content_exists == 1) _ s.largest_object_id o,
        append_if-code (s.content_exists == 1) _ s.largest_group_id g,
      )
      (simp append_assoc)

abbrev pub SubscribeDoneWritable : SubscribeDone → Type 0
SubscribeDoneWritable s =
    (s.subscribe_id ≤ max_varint)
    × (s.status_code ≤ max_varint)
    × (length s.reason_phrase ≤ max_make)
    × (s.final_group ≤ max_varint)
    × (s.final_object ≤ max_varint)

-- All that is written behind the identifier.
abbrev pub done_code : SubscribeDone → List ℕ
done_code s =
    let c = s.content_exists == 1 in
    encoding s.status_code
    ++ (string_code s.reason_phrase
        ++ (s.content_exists ∷ (if_code c s.final_group ++ if_code c s.final_object)))

-- Without content the final object is not written.
abbrev pub in_content : SubscribeDone → SubscribeDone
in_content s = record s {
  final_group = if s.content_exists == 1 then s.final_group else 0;
  final_object = if s.content_exists == 1 then s.final_object else 0;
}

pub parse_subscribe_done-code :
    (s : SubscribeDone) (r : List ℕ)
    → SubscribeDoneWritable s
    → parse_subscribe_done ((encoding s.subscribe_id ++ done_code s) ++ r) ≡ ok (in_content s) r
unfolding parse_subscribe_done read_byte
parse_subscribe_done-code s r (a, b, l, g, o) = elim (Bool-cases (s.content_exists == 1)) [
  | inl one ↦ rw (
    one,
    append_assoc (encoding s.subscribe_id) _ r,
    append_assoc (encoding s.status_code) _ r,
    append_assoc (string_code s.reason_phrase) _ r,
    append_assoc (encoding s.final_group) _ r,
    read-encoding s.subscribe_id _ a,
    read-encoding s.status_code _ b,
    parse_string-code s.reason_phrase _ l,
    one,
    read-encoding s.final_group _ g,
    read-encoding s.final_object _ o,
  )
  | inr other ↦ rw (
    other,
    append_assoc (encoding s.subscribe_id) _ r,
    append_assoc (encoding s.status_code) _ r,
    append_assoc (string_code s.reason_phrase) _ r,
    read-encoding s.subscribe_id _ a,
    read-encoding s.status_code _ b,
    parse_string-code s.reason_phrase _ l,
    other,
  )
]

pub subscribe_done_bytes-code :
    (s : SubscribeDone)
    → SubscribeDoneWritable s
    → subscribe_done_bytes s ≡ some (encoding s.subscribe_id ++ done_code s)
unfolding subscribe_done_bytes
subscribe_done_bytes-code s (a, b, l, g, o) =
    rw
      (
        append-encoding [] s.subscribe_id a,
        append-encoding _ s.status_code b,
        append-encoding _ (length s.reason_phrase) (omega arith),
        append_if-code (s.content_exists == 1) _ s.final_group g,
        append_if-code (s.content_exists == 1) _ s.final_object o,
      )
      (simp append_assoc)
