-- ===== src/Wire/RoundTrip.antt =====
-- moq-go/moqt/wire/message.go: `ParseMOQTMessage` on what `GetBytes` wrote, for every message.
use mathlib.Core.List.{append_assoc}
use moq_quic_bbrv3_go.Prelude.{
  ◌⊎◌, ℕ, ◌≤◌, ◌≡◌, ap, ◌∙◌, arith, Bool, true, ◌==◌, if◌then◌else◌, List, ◌++◌, Option, none, some,
  length,
}
use moq_quic_bbrv3_go.Wire.Params.{max_make}
use moq_quic_bbrv3_go.Varint.{Error, unknown_message, out_of_range, Parsed, ok, max_varint}
use moq_quic_bbrv3_go.Varint.RoundTrip.{encoding, read-encoding}
use moq_quic_bbrv3_go.Wire.Codes.{string_code}
use moq_quic_bbrv3_go.Wire.Messages.{
  SubscribeDone, Message, client_setup, server_setup, announce, announce_ok, subscribe,
  subscribe_ok, unsubscribe, subscribe_done, drop_error, parse_subscribe_done, subscribe_done_bytes,
  message_bytes, parse_body, parse_message,
}
use moq_quic_bbrv3_go.Wire.Opening.{
  AnnounceWritable, announce_code, parse_announce-code, announce_bytes-code, ClientSetupWritable,
  client_setup_code, parse_client_setup-code, client_setup_bytes-code, ServerSetupWritable,
  server_setup_code, parse_server_setup-code, server_setup_bytes-code,
}
use moq_quic_bbrv3_go.Wire.Replies.{
  parse_announce_ok-code, announce_ok_bytes-code, parse_unsubscribe-code, unsubscribe_bytes-code,
  SubscribeWritable, subscribe_code, in_filter, parse_subscribe-code, subscribe_bytes-code,
}
use moq_quic_bbrv3_go.Wire.Contents.{
  SubscribeOkWritable, subscribe_ok_code, swapped, parse_subscribe_ok-code, subscribe_ok_bytes-code,
  SubscribeDoneWritable, done_code, in_content, parse_subscribe_done-code,
  subscribe_done_bytes-code,
}

-- Every number fits a variable-length integer, `make` accepts every length of a string, and the
-- parameters are known ones.
-- SUBSCRIBE_DONE is left out: it is written without its type.
abbrev pub Writable : Message → Type 0
Writable (client_setup s) = ClientSetupWritable s
Writable (server_setup s) = ServerSetupWritable s
Writable (announce a) = AnnounceWritable a
Writable (announce_ok ns) = length ns ≤ max_make
Writable (subscribe s) = SubscribeWritable s
Writable (subscribe_ok s) = SubscribeOkWritable s
Writable (unsubscribe id) = id ≤ max_varint
Writable (subscribe_done s) = ⊥

-- What a peer reads.
abbrev pub received : Message → Message
received (client_setup s) = client_setup s
received (server_setup s) = server_setup s
received (announce a) = announce a
received (announce_ok ns) = announce_ok ns
received (subscribe s) = subscribe (in_filter s)
received (subscribe_ok s) = subscribe_ok (swapped s)
received (unsubscribe id) = unsubscribe id
received (subscribe_done s) = subscribe_done s

-- A message as its type and its body.
parse_message-code :
    (t : ℕ) (body r : List ℕ)
    → t ≤ max_varint
    → parse_message ((encoding t ++ body) ++ r) ≡ parse_body t (body ++ r)
unfolding parse_message
parse_message-code t body r h = rw (append_assoc (encoding t) body r, read-encoding t (body ++ r) h)

-- The message is written with a code that is read back.
abbrev pub Survives : Message → List ℕ → Type 0
Survives m r =
    (bs : List ℕ) × (message_bytes m ≡ some bs)
    × (parse_message (bs ++ r) ≡ ok (some (received m)) r)

survives :
    (m : Message) (t : ℕ) (body r : List ℕ)
    → t ≤ max_varint
    → message_bytes m ≡ some (encoding t ++ body)
    → parse_body t (body ++ r) ≡ ok (some (received m)) r
    → Survives m r
survives m t body r h w p = (encoding t ++ body, w, parse_message-code t body r h ∙ p)

abbrev dropped :
    {A : Type 0} (f : A → Message) {p : Parsed A} {a : A} {r : List ℕ}
    → p ≡ ok a r
    → drop_error f p ≡ ok (some (f a)) r
dropped f e = ap (drop_error f) e

-- Every message but SUBSCRIBE_DONE, whose numbers fit a variable-length integer, whose strings have
-- lengths that `make` accepts and whose parameters are of the known kinds, each under its own key, is
-- written without a panic, and `ParseMOQTMessage` reads it back and leaves what follows. It comes back
-- unchanged, except that a SUBSCRIBE loses the starts and ends that its filter does not have, and a
-- SUBSCRIBE_OK loses the largest object: its place takes the largest group, and the group is 0.
pub parse_message-message_bytes : (m : Message) (r : List ℕ) → Writable m → Survives m r
unfolding message_bytes parse_body
parse_message-message_bytes (client_setup s) r h =
    survives (client_setup s) 64 (client_setup_code s) r (omega arith) (client_setup_bytes-code s h)
      (dropped client_setup (parse_client_setup-code s r h))
parse_message-message_bytes (server_setup s) r h =
    survives (server_setup s) 65 (server_setup_code s) r (omega arith) (server_setup_bytes-code s h)
      (dropped server_setup (parse_server_setup-code s r h))
parse_message-message_bytes (announce a) r h =
    survives (announce a) 6 (announce_code a) r (omega arith) (announce_bytes-code a h)
      (dropped announce (parse_announce-code a r h))
parse_message-message_bytes (announce_ok ns) r h =
    survives (announce_ok ns) 7 (string_code ns) r (omega arith) (announce_ok_bytes-code ns h)
      (dropped announce_ok (parse_announce_ok-code ns r h))
parse_message-message_bytes (subscribe s) r h =
    survives (subscribe s) 3 (subscribe_code s) r (omega arith) (subscribe_bytes-code s h)
      (dropped subscribe (parse_subscribe-code s r h))
parse_message-message_bytes (subscribe_ok s) r h =
    survives (subscribe_ok s) 4 (subscribe_ok_code s) r (omega arith) (subscribe_ok_bytes-code s h)
      (dropped subscribe_ok (parse_subscribe_ok-code s r h))
parse_message-message_bytes (unsubscribe id) r h =
    survives (unsubscribe id) 10 (encoding id) r (omega arith) (unsubscribe_bytes-code id h)
      (dropped unsubscribe (parse_unsubscribe-code id r h))
parse_message-message_bytes (subscribe_done s) r h = absurd h

-- The types that `ParseMOQTMessage` knows.
abbrev pub known : ℕ → Bool
known t =
    if t == 0x40
    then true
    else if t == 0x41
    then true
    else if t == 0x6
    then true
    else if t == 0x7
    then true
    else if t == 0x3
    then true
    else if t == 0x4
    then true
    else if t == 0xa
    then true
    else t == 0xb

-- What `ParseMOQTMessage` may answer behind a type: for a known one no error, if `make` does not panic.
abbrev pub ErrorOf : ℕ → Option Error → Type 0
ErrorOf t e = if known t then (e ≡ none) ⊎ (e ≡ some out_of_range) else (e ≡ some unknown_message)

parse_body-ErrorOf : (t : ℕ) (r : List ℕ) → ErrorOf t (parse_body t r).error
unfolding parse_body
parse_body-ErrorOf t r = ground arith

-- SUBSCRIBE_DONE is written without its type. The parser of its body reads back what was written
-- (without content, the final group and object as 0), but `ParseMOQTMessage` takes its identifier
-- for the type: it answers that the message is unknown, unless the identifier is the type of a
-- message, and then no error, unless `make` panics on a length that it reads there.
pub subscribe_done_bytes-parse_message :
    (s : SubscribeDone) (r : List ℕ)
    → SubscribeDoneWritable s
    → (bs : List ℕ) × (subscribe_done_bytes s ≡ some bs)
      × (parse_subscribe_done (bs ++ r) ≡ ok (in_content s) r)
      × ErrorOf s.subscribe_id (parse_message (bs ++ r)).error
subscribe_done_bytes-parse_message s r h = (
  encoding s.subscribe_id ++ done_code s,
  subscribe_done_bytes-code s h,
  parse_subscribe_done-code s r h,
  rw (parse_message-code s.subscribe_id (done_code s) r h.0)
      (parse_body-ErrorOf s.subscribe_id (done_code s ++ r)),
)
