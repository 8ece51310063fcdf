-- ===== src/Wire/Runs.antt =====
-- moq-go/moqt/wire and quicvarint: the theorems on concrete messages, and tests.
use moq_quic_bbrv3_go.Prelude.{
  ℕ, ◌≤◌, ◌<◌, ◌≡◌, ◌⊎◌, refl, arith, List, [], ◌∷◌, ◌++◌, none, some, length,
}
use moq_quic_bbrv3_go.Wire.Messages.{parse_announce}
use moq_quic_bbrv3_go.Wire.Params.{parse_string, read_full}
use moq_quic_bbrv3_go.Varint.{
  out_of_range, read_four, read_eight, unknown_message, ok, read_byte, read, append, len,
  max_varint,
}
use moq_quic_bbrv3_go.Prelude.{refl}
use moq_quic_bbrv3_go.Varint.RoundTrip.{read-append}
use moq_quic_bbrv3_go.Wire.Params.{int_param, string_param}
use moq_quic_bbrv3_go.Wire.Messages.{
  Subscribe, SubscribeDone, subscribe, subscribe_ok, parse_message, parse_body, parse_subscribe_ok,
  parse_subscribe_done, subscribe_done_bytes,
}
use moq_quic_bbrv3_go.Wire.Contents.{in_content}
use moq_quic_bbrv3_go.Wire.RoundTrip.{
  Survives, parse_message-message_bytes, subscribe_done_bytes-parse_message,
}

read-append_example :
    ((300 ≤ max_varint)
      × (code : List ℕ) × (append (7 ∷ []) 300 ≡ some ((7 ∷ []) ++ code))
      × (read (code ++ (1 ∷ [])) ≡ ok 300 (1 ∷ []))
      × (len 300 ≡ some (length code)))
    ⊎ ((max_varint < 300) × (append (7 ∷ []) 300 ≡ none) × (len 300 ≡ none))
read-append_example = read-append (7 ∷ []) (1 ∷ []) 300

-- An absolute range, with a role.
abbrev request : Subscribe
request = record {
  subscribe_id = 1;
  track_alias = 300;
  track_namespace = 109 ∷ 111 ∷ [];
  track_name = 113 ∷ [];
  filter_type = 4;
  start_group = 5;
  start_object = 6;
  end_group = 70_000;
  end_object = 8;
  params = (0, int_param 0 3) ∷ (1, string_param 1 (47 ∷ [])) ∷ [];
}

parse_message-message_bytes_example : Survives (subscribe request) (9 ∷ [])
parse_message-message_bytes_example = parse_message-message_bytes (subscribe request) (9 ∷ []) (
  omega arith,
  omega arith,
  omega arith,
  omega arith,
  omega arith,
  (
    omega arith,
    omega arith,
    omega arith,
    omega arith,
    (
      (refl, refl, omega arith),
      (λ (e : 1 ≡ 0). omega arith, tt),
      ((refl, refl, omega arith), tt, tt),
    ),
  ),
)

abbrev finished : SubscribeDone
finished = record {
  subscribe_id = 9;
  status_code = 2;
  reason_phrase = 120 ∷ [];
  content_exists = 1;
  final_group = 500;
  final_object = 3;
}

subscribe_done_bytes-parse_message_example :
    (bs : List ℕ) × (subscribe_done_bytes finished ≡ some bs)
    × (parse_subscribe_done (bs ++ []) ≡ ok (in_content finished) [])
    × ((parse_message (bs ++ [])).error ≡ some unknown_message)
subscribe_done_bytes-parse_message_example =
    subscribe_done_bytes-parse_message finished []
      (omega arith, omega arith, omega arith, omega arith, omega arith)

-- A namespace of 2 ^ 62 - 1 bytes is announced: `make` panics.
make_test :
    (parse_message (6 ∷ 255 ∷ 255 ∷ 255 ∷ 255 ∷ 255 ∷ 255 ∷ 255 ∷ 255 ∷ [])).error
    ≡ some out_of_range
unfolding parse_message parse_body parse_announce parse_string read_full read read_four read_eight
    read_byte
make_test = refl

-- The largest object 6 of the message is lost; the largest group comes back as the object.
swapped_test :
    parse_message (4 ∷ 1 ∷ 0 ∷ 1 ∷ 6 ∷ 5 ∷ [])
    ≡ ok
        (some (
          subscribe_ok (record {
            subscribe_id = 1;
            expires = 0;
            content_exists = 1;
            largest_group_id = 0;
            largest_object_id = 5;
          })))
        []
unfolding parse_message parse_body parse_subscribe_ok read read_byte
swapped_test = refl
