-- ===== src/Wire/Messages/Replies.antt =====
-- moq-go/moqt/wire: subscribeok.go, subscribedone.go and unsubscribe.go.
use moq_quic_bbrv3_go.Prelude.{ℕ, ◌==◌, if◌then◌else◌, List, [], ◌∷◌, ◌++◌, Option, length}
use moq_quic_bbrv3_go.Varint.{Parsed, ok, check, read_byte, read, append}
use moq_quic_bbrv3_go.Wire.Params.{◌>>=◌, parse_string}
use moq_quic_bbrv3_go.Wire.Messages.Request.{append_if}

pub record SubscribeOk : Type 0 where
  pub subscribe_id : ℕ
  pub expires : ℕ
  pub content_exists : ℕ
  pub largest_group_id : ℕ
  pub largest_object_id : ℕ

pub record SubscribeDone : Type 0 where
  pub subscribe_id : ℕ
  pub status_code : ℕ
  pub reason_phrase : List ℕ
  pub content_exists : ℕ
  pub final_group : ℕ
  pub final_object : ℕ

abbrev pub zero_subscribe_ok : SubscribeOk
zero_subscribe_ok = record {
  subscribe_id = 0;
  expires = 0;
  content_exists = 0;
  largest_group_id = 0;
  largest_object_id = 0;
}

-- Both numbers are read into `largestObjectId`.
unfoldable pub parse_subscribe_ok : List ℕ → Parsed SubscribeOk
parse_subscribe_ok r = check (read r) zero_subscribe_ok λ id r1.
    let s1 : SubscribeOk = record zero_subscribe_ok { subscribe_id = id } in
    check (read r1) s1 λ e r2.
      let s2 : SubscribeOk = record s1 { expires = e } in
      check (read_byte r2) s2 λ c r3.
        let s3 : SubscribeOk = record s2 { content_exists = c } in
        if c == 1
        then (check (read r3) s3 λ first r4.
            let s4 : SubscribeOk = record s3 { largest_object_id = first } in
            check (read r4) (record s4 { largest_object_id = 0 })
              λ second r5. ok (record s4 { largest_object_id = second }) r5)
        else ok s3 r3

unfoldable pub subscribe_ok_bytes : SubscribeOk → Option (List ℕ)
subscribe_ok_bytes s = do
  d1 ← append [] 0x4
  d2 ← append d1 s.subscribe_id
  d3 ← append d2 s.expires
  let d4 = d3 ++ (s.content_exists ∷ [])
  d5 ← append_if (s.content_exists == 1) d4 s.largest_object_id
  append_if (s.content_exists == 1) d5 s.largest_group_id

abbrev pub zero_subscribe_done : SubscribeDone
zero_subscribe_done = record {
  subscribe_id = 0;
  status_code = 0;
  reason_phrase = [];
  content_exists = 0;
  final_group = 0;
  final_object = 0;
}

unfoldable pub parse_subscribe_done : List ℕ → Parsed SubscribeDone
parse_subscribe_done r = check (read r) zero_subscribe_done λ id r1.
    let s1 : SubscribeDone = record zero_subscribe_done { subscribe_id = id } in
    check (read r1) s1 λ code r2.
      let s2 : SubscribeDone = record s1 { status_code = code } in
      check (parse_string r2) s2 λ reason r3.
        let s3 : SubscribeDone = record s2 { reason_phrase = reason } in
        check (read_byte r3) s3 λ c r4.
          let s4 : SubscribeDone = record s3 { content_exists = c } in
          if c == 1
          then (check (read r4) s4 λ g r5.
              let s5 : SubscribeDone = record s4 { final_group = g } in
              check (read r5) s5 λ o r6. ok (record s5 { final_object = o }) r6)
          else ok s4 r4

-- No message type is written, unlike in every other message.
unfoldable pub subscribe_done_bytes : SubscribeDone → Option (List ℕ)
subscribe_done_bytes s = do
  d1 ← append [] s.subscribe_id
  d2 ← append d1 s.status_code
  d3 ← append d2 (length s.reason_phrase)
  let d4 = (d3 ++ s.reason_phrase) ++ (s.content_exists ∷ [])
  d5 ← append_if (s.content_exists == 1) d4 s.final_group
  append_if (s.content_exists == 1) d5 s.final_object

unfoldable pub parse_unsubscribe : List ℕ → Parsed ℕ
parse_unsubscribe r = check (read r) 0 λ id r1. ok id r1

unfoldable pub unsubscribe_bytes : ℕ → Option (List ℕ)
unsubscribe_bytes id = do d1 ← append [] 0xa; append d1 id
