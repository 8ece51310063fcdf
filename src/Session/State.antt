-- ===== src/Session/State.antt =====
-- moq-go/moqt: moqtsession.go, and the handlers of controlstream.go. A session keeps what is seen of
-- it from outside: the bytes written to its control stream, the error codes that it closed its
-- connection with, and the calls of its `Handler`. Logging is left out. `none` is a panic.
use moq_quic_bbrv3_go.Prelude.{
  ℕ, ◌+◌, ◌==◌, Bool, true, false, ◌||◌, not, if◌then◌else◌, List, [], ◌∷◌, ◌++◌, Option, none,
  some,
}
use moq_quic_bbrv3_go.Wire.Params.{
  ◌>>=◌, Parameters, int_param, role_param, uint_value, get_parameter,
}
use moq_quic_bbrv3_go.Wire.Messages.{
  Message, client_setup, server_setup, announce, announce_ok, subscribe, subscribe_ok, unsubscribe,
  draft_04, check_draft_support, message_bytes,
}

abbrev pub role_publisher : ℕ
role_publisher = 1

abbrev pub role_subscriber : ℕ
role_subscriber = 2

abbrev pub role_relay : ℕ
role_relay = 3

abbrev pub internal_error : ℕ
internal_error = 1

abbrev pub protocol_violation : ℕ
protocol_violation = 3

-- `CS` is nil where `has_control` is false; `signals` counts the values in `HandshakeDone`.
pub record Session : Type 0 where
  pub local_role : ℕ
  pub remote_role : ℕ
  pub has_control : Bool
  pub is_handshake_done : Bool
  pub signals : ℕ
  pub closed : List ℕ
  pub written : List ℕ
  pub handled : List Message

-- `CreateMOQSession`: `CreateNewHandler` knows the three roles.
unfoldable pub create_session : ℕ → Option Session
create_session role =
    if role == role_relay || role == role_publisher || role == role_subscriber
    then some (record {
      local_role = role;
      remote_role = 0;
      has_control = false;
      is_handshake_done = false;
      signals = 0;
      closed = [];
      written = [];
      handled = [];
    })
    else none

unfoldable pub is_upstream : Session → Bool
is_upstream s = s.remote_role == role_publisher || s.remote_role == role_relay

unfoldable pub close : ℕ → Session → Session
close code s = record s { closed = s.closed ++ (code ∷ []) }

-- `s.CS = NewControlStream(s, stream)`
unfoldable pub open_control : Session → Session
open_control s = record s { has_control = true; is_handshake_done = false }

-- Without a control stream nothing is written.
unfoldable pub write_control_message : Message → Session → Option Session
write_control_message m s =
    if s.has_control
    then (do bytes ← message_bytes m; some (record s { written = s.written ++ bytes }))
    else some s

-- The role is stored before it is checked; Go's error is the Boolean.
unfoldable pub set_remote_role : ℕ → Session → Session × Bool
set_remote_role role s =
    let s1 : Session = record s { remote_role = role } in
    if s.local_role == role_publisher
    then (s1, role == role_publisher)
    else if s.local_role == role_subscriber
    then (s1, role == role_subscriber)
    else (s1, not (s.local_role == role_relay))

-- `GetRoleParam` of both messages: the inner `none` is its error, and the outer one the panic of the
-- type assertion.
unfoldable pub get_role_param : Parameters → Option (Option ℕ)
get_role_param params = elim (get_parameter role_param params) [
  | none ↦ some none
  | some p ↦ do v ← uint_value p; some (some v)
]

abbrev pub role_params : ℕ → Parameters
role_params role = (role_param, int_param role_param role) ∷ []

-- `cs.ishandshakedone = true; cs.HandshakeDone <- true`
abbrev pub finish : Session → Session
finish s = record s { is_handshake_done = true; signals = s.signals + 1 }

-- The branches of `handleSetupMessage` behind the role, and behind the version: `reply` is what is
-- written at the end.
unfoldable pub settle : Option ℕ → (Session → Option Session) → Session → Option Session
settle none reply s = some (close internal_error s)
settle (some r) reply s =
    let (s1, failed) = set_remote_role r s in
    if failed then some (close protocol_violation s1) else reply (finish s1)

unfoldable pub agree : Parameters → (Session → Option Session) → Session → Option Session
agree params reply s = do role ← get_role_param params; settle role reply s

abbrev pub setup_reply : Session → Message
setup_reply s =
    server_setup (record { selected_version = draft_04; params = role_params s.local_role })

unfoldable pub handle_setup_message : Message → Session → Option Session
handle_setup_message (client_setup m) s =
    if check_draft_support m.supported_versions
    then agree m.params (λ s1. write_control_message (setup_reply s1) s1) s
    else some (close internal_error s)
handle_setup_message (server_setup m) s =
    if m.selected_version == draft_04
    then agree m.params (λ s1. some s1) s
    else some (close internal_error s)
handle_setup_message _ s = some s

abbrev pub handle : Message → Session → Session
handle m s = record s { handled = s.handled ++ (m ∷ []) }

-- A message of another kind is only logged, SUBSCRIBE_DONE included.
unfoldable pub handle_control_message : Message → Session → Session
handle_control_message (announce a) s = handle (announce a) s
handle_control_message (subscribe a) s = handle (subscribe a) s
handle_control_message (subscribe_ok a) s = handle (subscribe_ok a) s
handle_control_message (announce_ok a) s = handle (announce_ok a) s
handle_control_message (unsubscribe a) s = handle (unsubscribe a) s
handle_control_message _ s = s

-- The body of the loop of `ServeCS` behind the parse.
unfoldable pub receive : Message → Session → Option Session
receive m s =
    if s.is_handshake_done then some (handle_control_message m s) else handle_setup_message m s

-- `InitiateHandshake`, where `OpenStream` succeeds or fails.
unfoldable pub initiate_handshake : Bool → Session → Option Session
initiate_handshake opened s =
    if opened
    then write_control_message
        (client_setup
          (record { supported_versions = draft_04 ∷ []; params = role_params s.local_role }))
        (open_control s)
    else some (close internal_error s)

-- One stream that `handleControlStream` accepts.
unfoldable pub accept_control_stream : Session → Session
accept_control_stream s = if s.has_control then close protocol_violation s else open_control s
