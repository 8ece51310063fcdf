-- ===== src/Wire/Messages.antt =====
-- moq-go/moqt/wire: announce.go, announceok.go, clientsetup.go, serversetup.go, subscribe.go,
-- subscribeok.go, subscribedone.go, unsubscribe.go and message.go. `Parse` fills a zero receiver, and
-- on an error leaves it half filled, so its value is the receiver in both cases.
mod Opening
mod Request
mod Replies
use moq_quic_bbrv3_go.Prelude.{
  ℕ, zero, suc, ◌+◌, Bool, true, false, ◌||◌, ◌==◌, if◌then◌else◌, List, [], ◌∷◌, ◌++◌, Option,
  none, some, length,
}
use moq_quic_bbrv3_go.Varint.{
  Error, unknown_message, out_of_range, panics, Parsed, ok, err, check, read_byte, read, append,
}
use moq_quic_bbrv3_go.Wire.Params.{
  ◌>>=◌, parse_string, string_bytes, Parameters, parse_params, append_params, params_bytes,
}
pub use moq_quic_bbrv3_go.Wire.Messages.Opening.{Announce, ClientSetup, ServerSetup}
unfoldable pub use moq_quic_bbrv3_go.Wire.Messages.Opening.{
  draft_04, parse_announce, announce_bytes, parse_announce_ok, announce_ok_bytes, parse_versions,
  parse_client_setup, append_all, client_setup_bytes, check_draft_support, parse_server_setup,
  server_setup_bytes,
}
pub use moq_quic_bbrv3_go.Wire.Messages.Request.{Subscribe}
unfoldable pub use moq_quic_bbrv3_go.Wire.Messages.Request.{
  has_start, has_end, zero_subscribe, read_if, parse_range, parse_subscribe, append_if,
  append_range, subscribe_bytes,
}
pub use moq_quic_bbrv3_go.Wire.Messages.Replies.{SubscribeOk, SubscribeDone}
unfoldable pub use moq_quic_bbrv3_go.Wire.Messages.Replies.{
  zero_subscribe_ok, parse_subscribe_ok, subscribe_ok_bytes, zero_subscribe_done,
  parse_subscribe_done, subscribe_done_bytes, parse_unsubscribe, unsubscribe_bytes,
}

-- A value of the interface `MOQTMessage`.
pub data Message : Type 0 where
  client_setup : ClientSetup → Message
  server_setup : ServerSetup → Message
  announce : Announce → Message
  announce_ok : List ℕ → Message
  subscribe : Subscribe → Message
  subscribe_ok : SubscribeOk → Message
  unsubscribe : ℕ → Message
  subscribe_done : SubscribeDone → Message

-- The method `GetBytes` of the message.
unfoldable pub message_bytes : Message → Option (List ℕ)
message_bytes (client_setup s) = client_setup_bytes s
message_bytes (server_setup s) = server_setup_bytes s
message_bytes (announce a) = announce_bytes a
message_bytes (announce_ok ns) = announce_ok_bytes ns
message_bytes (subscribe s) = subscribe_bytes s
message_bytes (subscribe_ok s) = subscribe_ok_bytes s
message_bytes (unsubscribe id) = unsubscribe_bytes id
message_bytes (subscribe_done s) = subscribe_done_bytes s

-- `msg.Parse(reader); return msg, nil`: the error of `Parse` is dropped, but not a panic.
abbrev pub drop_error : {A : Type 0} → (A → Message) → Parsed A → Parsed (Option Message)
drop_error f p =
    if panics p.error then err none out_of_range p.rest else ok (some (f p.value)) p.rest

-- The switch of `ParseMOQTMessage` on the type that was read.
unfoldable pub parse_body : ℕ → List ℕ → Parsed (Option Message)
parse_body t r =
    if t == 0x40
    then drop_error client_setup (parse_client_setup r)
    else if t == 0x41
    then drop_error server_setup (parse_server_setup r)
    else if t == 0x6
    then drop_error announce (parse_announce r)
    else if t == 0x7
    then drop_error announce_ok (parse_announce_ok r)
    else if t == 0x3
    then drop_error subscribe (parse_subscribe r)
    else if t == 0x4
    then drop_error subscribe_ok (parse_subscribe_ok r)
    else if t == 0xa
    then drop_error unsubscribe (parse_unsubscribe r)
    else if t == 0xb
    then drop_error subscribe_done (parse_subscribe_done r)
    else err none unknown_message r

unfoldable pub parse_message : List ℕ → Parsed (Option Message)
parse_message r = check (read r) none λ t r1. parse_body t r1
