-- ===== src/Session/Dialing.antt =====
-- moq-go/moqt/moqtdialer.go: `Dial`, once there is a QUIC connection. `opened` says whether the stream of
-- the handshake could be opened, `reply` is what the server writes on it within five seconds.
use moq_quic_bbrv3_go.Prelude.{
  ℕ, suc, ◌≡◌, refl, Bool, true, if◌then◌else◌, ltb, List, Option, none, some, length,
}
use moq_quic_bbrv3_go.Varint.{read, read_byte, read_four, read_eight, append, len}
use moq_quic_bbrv3_go.Wire.Params.{
  param_bytes, append_params, parse_params, parse_params_loop, parse_int_param, put, get_parameter,
  param_type, uint_value,
}
use moq_quic_bbrv3_go.Wire.Messages.{
  message_bytes, client_setup_bytes, server_setup_bytes, append_all, parse_message, parse_body,
  parse_client_setup, parse_server_setup, parse_versions, check_draft_support,
}
use moq_quic_bbrv3_go.Session.State.{
  Session, create_session, initiate_handshake, write_control_message, open_control, close,
  set_remote_role, get_role_param, settle, agree, handle_setup_message, receive,
  accept_control_stream,
}
use moq_quic_bbrv3_go.Session.Serve.{Served, ended, crashed, panicked, out_of_fuel, serve_cs}
use moq_quic_bbrv3_go.Session.Steps.{compatible, Gate}
use moq_quic_bbrv3_go.Session.Gate.{Overlong}
use moq_quic_bbrv3_go.Session.Handshake.{handshake, Role, publisher, subscriber, relay, code}

-- `select`: the session if `HandshakeDone` has a value, and otherwise the timeout.
abbrev pub await : Session → Option Session
await s = if ltb 0 s.signals then some s else none

-- Dial returns a session or an error, or the process ends in a panic of `make` or in another one.
pub data Dialed : Type 0 where
  answered : Option Session → Dialed
  dial_crashed : Dialed
  dial_panicked : Dialed

-- What `select` does once the loop of the control stream stands still.
abbrev pub await_loop : Served → Dialed
await_loop (ended s) = answered (await s)
await_loop crashed = dial_crashed
await_loop panicked = dial_panicked
await_loop out_of_fuel = dial_panicked

unfoldable pub dial : ℕ → Bool → List ℕ → Dialed
dial role opened reply = elim (create_session role) [
  | none ↦ answered none
  | some s ↦ elim (initiate_handshake opened s) [
    | none ↦ dial_panicked
    | some s1 ↦
        if opened then await_loop (serve_cs (suc (length reply)) reply s1) else answered (await s1)
  ]
]

-- A session that Dial returns has its own role and one that goes with it, and is signalled once.
abbrev pub Joined : ℕ → Option Session → Type 0
Joined role none = Unit
Joined role (some s) =
    (s.local_role ≡ role)
    × (s.is_handshake_done ≡ true)
    × (compatible s.local_role s.remote_role ≡ true)
    × (s.signals ≡ 1)

-- Dial has answered as it should, or there was a length for `make` to refuse.
abbrev pub Answers : ℕ → List ℕ → Dialed → Type 0
Answers role reply (answered a) = Joined role a
Answers role reply dial_crashed = Overlong reply
Answers role reply dial_panicked = ⊥

-- A client that dials a server which answers it gets the session that the handshake leaves it, if their
-- roles go together, and an error otherwise.
pub dial-handshake :
    (mine peer : Role)
    → (client : Session) × (server : Session) × (handshake (code mine) (code peer)
        ≡ some (client, server))
      × (dial (code mine) true server.written
          ≡ answered (if compatible (code peer) (code mine) then some client else none))
unfolding dial handshake create_session initiate_handshake write_control_message open_control
    message_bytes client_setup_bytes server_setup_bytes append_all append append_params param_bytes
    len serve_cs accept_control_stream close parse_message parse_body parse_client_setup
    parse_server_setup parse_versions read read_byte parse_params parse_params_loop parse_int_param
    put receive handle_setup_message check_draft_support agree settle get_role_param get_parameter
    param_type uint_value set_remote_role read_four read_eight
dial-handshake publisher publisher = (_, _, refl, refl)
dial-handshake publisher subscriber = (_, _, refl, refl)
dial-handshake publisher relay = (_, _, refl, refl)
dial-handshake subscriber publisher = (_, _, refl, refl)
dial-handshake subscriber subscriber = (_, _, refl, refl)
dial-handshake subscriber relay = (_, _, refl, refl)
dial-handshake relay publisher = (_, _, refl, refl)
dial-handshake relay subscriber = (_, _, refl, refl)
dial-handshake relay relay = (_, _, refl, refl)
