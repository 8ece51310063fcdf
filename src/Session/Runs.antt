-- ===== src/Session/Runs.antt =====
-- moq-go/moqt: the theorems on concrete sessions, and tests.
use moq_quic_bbrv3_go.Prelude.{suc, length, ℕ, ◌≡◌, refl, arith, true, false, List, [], ◌∷◌, some}
use moq_quic_bbrv3_go.Varint.{read, read_byte}
use moq_quic_bbrv3_go.Wire.Params.{
  parse_params, parse_params_loop, parse_int_param, parse_string_param, put, read_full,
  parse_string,
}
use moq_quic_bbrv3_go.Wire.Messages.{parse_message, parse_body, parse_server_setup}
use moq_quic_bbrv3_go.Session.Typed.{SomeTyped, parse_message-SomeTyped}
use moq_quic_bbrv3_go.Session.State.{Session, role_relay}
use moq_quic_bbrv3_go.Session.Serve.{ended, serve_cs}
use moq_quic_bbrv3_go.Wire.Messages.{Message, announce, unsubscribe}
use moq_quic_bbrv3_go.Session.Dispatch.{write_all, calls, write_all-serve_cs}
use moq_quic_bbrv3_go.Session.Steps.{compatible, Gate}
use moq_quic_bbrv3_go.Session.Handshake.{
  handshake, publisher, relay, code, Outcome, handshake_outcome,
}

handshake_outcome_example :
    (both : Session × Session) × (handshake (code publisher) (code relay) ≡ some both)
    × Outcome (compatible (code relay) (code publisher)) (code publisher) (code relay) both
handshake_outcome_example = handshake_outcome publisher relay

-- A relay's session with its control stream.
abbrev waiting : Session
waiting = record {
  local_role = role_relay;
  remote_role = 0;
  has_control = true;
  is_handshake_done = false;
  signals = 0;
  closed = [];
  written = [];
  handled = [];
}

-- CLIENT_SETUP of draft 4 with the publisher's role, and a byte of the next message.
abbrev opening : List ℕ
opening = 64 ∷ 64 ∷ 1 ∷ 192 ∷ 0 ∷ 0 ∷ 0 ∷ 255 ∷ 0 ∷ 0 ∷ 4 ∷ 1 ∷ 0 ∷ 1 ∷ 1 ∷ 6 ∷ []

-- An ANNOUNCE and an UNSUBSCRIBE.
abbrev two : List Message
two = announce (record { track_namespace = 97 ∷ []; params = [] }) ∷ unsubscribe 8 ∷ []

abbrev open_session : Session
open_session = record waiting { is_handshake_done = true; signals = 1; remote_role = 1 }

write_all-serve_cs_example :
    (bytes : List ℕ) × (write_all two waiting ≡ some (record waiting { written = bytes }))
    × (serve_cs (suc (length bytes)) bytes open_session
        ≡ ended (record open_session { handled = calls two }))
write_all-serve_cs_example =
    write_all-serve_cs two waiting open_session refl refl ((omega arith, tt), ((omega arith), tt))

-- SERVER_SETUP with the role of a relay and a path.
abbrev setup_code : List ℕ
setup_code = 0x40 ∷ 0x41 ∷ 1 ∷ 2 ∷ 0 ∷ 1 ∷ 3 ∷ 1 ∷ 1 ∷ 47 ∷ []

parse_message-SomeTyped_example : SomeTyped (parse_message setup_code).value
unfolding parse_message parse_body parse_server_setup parse_params parse_params_loop parse_int_param
    parse_string_param put read read_byte read_full parse_string
parse_message-SomeTyped_example = parse_message-SomeTyped setup_code refl

-- SERVER_SETUP of draft 4 with the relay's role, and a byte of the next message.
abbrev answer_of_relay : List ℕ
answer_of_relay = 64 ∷ 65 ∷ 192 ∷ 0 ∷ 0 ∷ 0 ∷ 255 ∷ 0 ∷ 0 ∷ 4 ∷ 1 ∷ 0 ∷ 1 ∷ 3 ∷ 6 ∷ []
