-- ===== src/Session/Handshake.antt =====
-- moq-go/moqt: a client's session and a server's, joined by their control streams.
use moq_quic_bbrv3_go.Prelude.{
  ℕ, suc, ◌≡◌, refl, Bool, true, if◌then◌else◌, [], ◌∷◌, Option, none, some, length,
}
use moq_quic_bbrv3_go.Varint.{read, read_byte, read_four, read_eight, append, len}
use moq_quic_bbrv3_go.Wire.Params.{
  ◌>>=◌, param_bytes, append_params, parse_params, parse_params_loop, parse_int_param, put,
  get_parameter, param_type, uint_value,
}
use moq_quic_bbrv3_go.Wire.Messages.{
  message_bytes, client_setup_bytes, server_setup_bytes, append_all, parse_message, parse_body,
  parse_client_setup, parse_server_setup, parse_versions, check_draft_support,
}
use moq_quic_bbrv3_go.Session.State.{
  role_publisher, role_subscriber, role_relay, protocol_violation, Session, create_session, close,
  open_control, write_control_message, set_remote_role, get_role_param, settle, agree,
  handle_setup_message, receive, initiate_handshake, accept_control_stream,
}
use moq_quic_bbrv3_go.Session.Serve.{Served, ended, crashed, panicked, out_of_fuel, serve_cs}
use moq_quic_bbrv3_go.Session.Steps.{compatible}

-- The session of a loop that has ended.
abbrev pub session : Served → Option Session
session (ended s) = some s
session crashed = none
session panicked = none
session out_of_fuel = none

-- The client writes first; the server reads all of it, and the client all of the reply.
unfoldable pub handshake : ℕ → ℕ → Option (Session × Session)
handshake mine peer = do
  client ← create_session mine
  server ← create_session peer
  opened ← initiate_handshake true client
  let request = opened.written
  replied ← session (serve_cs (suc (length request)) request (accept_control_stream server))
  let reply = replied.written
  joined ← session (serve_cs (suc (length reply)) reply opened)
  some (joined, replied)

pub data Role : Type 0 where
  publisher subscriber relay : Role

abbrev pub code : Role → ℕ
code publisher = role_publisher
code subscriber = role_subscriber
code relay = role_relay

-- Both sides have joined with each other's role, once each, or neither has and the server has closed.
abbrev pub Outcome : Bool → ℕ → ℕ → Session × Session → Type 0
Outcome fits mine peer (client, server) =
    (client.is_handshake_done ≡ fits)
    × (server.is_handshake_done ≡ fits)
    × (client.remote_role ≡ (if fits then peer else 0))
    × (server.remote_role ≡ mine)
    × (client.signals ≡ (if fits then 1 else 0))
    × (server.signals ≡ (if fits then 1 else 0))
    × (client.closed ≡ [])
    × (server.closed ≡ (if fits then [] else protocol_violation ∷ []))

-- For any two roles the handshake comes to an end: a client and a server that are not both
-- publishers or both subscribers join, each with the other's role and signalled once; otherwise the
-- server closes the session for a protocol violation and writes no reply, so neither side joins.
pub handshake_outcome :
    (mine peer : Role)
    → (both : Session × Session) × (handshake (code mine) (code peer) ≡ some both)
      × Outcome (compatible (code peer) (code mine)) (code mine) (code peer) both
unfolding handshake create_session initiate_handshake write_control_message open_control
    message_bytes client_setup_bytes server_setup_bytes append_all append append_params param_bytes
    len serve_cs accept_control_stream close parse_message parse_body parse_client_setup
    parse_server_setup parse_versions read read_byte parse_params parse_params_loop parse_int_param
    put receive handle_setup_message check_draft_support agree settle get_role_param get_parameter
    param_type uint_value set_remote_role read_four read_eight
handshake_outcome publisher publisher = (_, refl, (refl, refl, refl, refl, refl, refl, refl, refl))
handshake_outcome publisher subscriber = (_, refl, (refl, refl, refl, refl, refl, refl, refl, refl))
handshake_outcome publisher relay = (_, refl, (refl, refl, refl, refl, refl, refl, refl, refl))
handshake_outcome subscriber publisher = (_, refl, (refl, refl, refl, refl, refl, refl, refl, refl))
handshake_outcome subscriber subscriber =
    (_, refl, (refl, refl, refl, refl, refl, refl, refl, refl))
handshake_outcome subscriber relay = (_, refl, (refl, refl, refl, refl, refl, refl, refl, refl))
handshake_outcome relay publisher = (_, refl, (refl, refl, refl, refl, refl, refl, refl, refl))
handshake_outcome relay subscriber = (_, refl, (refl, refl, refl, refl, refl, refl, refl, refl))
handshake_outcome relay relay = (_, refl, (refl, refl, refl, refl, refl, refl, refl, refl))
