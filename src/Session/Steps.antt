-- ===== src/Session/Steps.antt =====
-- moq-go/moqt/controlstream.go and moqtsession.go: what one message leaves of a session.
use moq_quic_bbrv3_go.Prelude.{
  ℕ, ◌+◌, ◌≤◌, ◌≡◌, refl, inl, inr, arith, Bool, true, false, ◌&&◌, ◌||◌, not, ◌==◌, if◌then◌else◌,
  [], Option, none, some, Option-cases, Bool-cases, ◌⊎◌,
}
use moq_quic_bbrv3_go.Wire.Params.{Parameters}
use moq_quic_bbrv3_go.Wire.Messages.{
  ServerSetup, Message, client_setup, server_setup, announce, announce_ok, subscribe, subscribe_ok,
  unsubscribe, subscribe_done, draft_04, message_bytes,
}
use moq_quic_bbrv3_go.Wire.Opening.{server_setup_bytes-code}
use moq_quic_bbrv3_go.Session.State.{
  role_publisher, role_subscriber, role_relay, role_params, Session, close, write_control_message,
  set_remote_role, get_role_param, finish, settle, agree, setup_reply, handle_setup_message,
  handle_control_message, receive,
}
use moq_quic_bbrv3_go.Session.Typed.{AllTyped, MessageTyped, get_role_param-returns}

-- The roles that a handshake may join: a local role that is known, and not two publishers or two
-- subscribers.
abbrev pub compatible : ℕ → ℕ → Bool
compatible mine peer =
    (mine == role_relay)
    || (mine == role_publisher && not (peer == role_publisher))
    || (mine == role_subscriber && not (peer == role_subscriber))

-- What holds of a session between messages: a finished handshake has joined compatible roles and has
-- been signalled once, and no handler has been called before.
pub record Gate (s : Session) : Type 0 where
  pub known : s.local_role ≤ 3
  pub joined : not s.is_handshake_done || compatible s.local_role s.remote_role ≡ true
  pub signalled : s.signals ≡ (if s.is_handshake_done then 1 else 0)
  pub gated : (s.is_handshake_done ≡ true) ⊎ (s.handled ≡ [])

-- The handshake of a session with its role and its peer's, once done, stays.
abbrev pub Stays : Session → Session → Type 0
Stays s s' =
    (s'.local_role ≡ s.local_role)
    × ((s.is_handshake_done ≡ false)
        ⊎ ((s'.is_handshake_done ≡ true) × (s'.remote_role ≡ s.remote_role)))

-- A session in which a property holds is returned.
abbrev pub Returns : Option Session → (Session → Type 0) → Type 0
Returns none P = ⊥
Returns (some s) P = P s

abbrev pub Next : Session → Session → Type 0
Next s s' = Gate s' × Stays s s'

close-Next : (c : ℕ) (s : Session) → Gate s → Next s (close c s)
unfolding close
close-Next c s g = (ground arith, ground arith)

handle_control_message-Next :
    (m : Message) (s : Session)
    → s.is_handshake_done ≡ true
    → Gate s
    → Next s (handle_control_message m s)
unfolding handle_control_message
handle_control_message-Next (client_setup m) s d g = (g, ground arith)
handle_control_message-Next (server_setup m) s d g = (g, ground arith)
handle_control_message-Next (announce m) s d g = (ground arith, ground arith)
handle_control_message-Next (announce_ok m) s d g = (ground arith, ground arith)
handle_control_message-Next (subscribe m) s d g = (ground arith, ground arith)
handle_control_message-Next (subscribe_ok m) s d g = (ground arith, ground arith)
handle_control_message-Next (unsubscribe m) s d g = (ground arith, ground arith)
handle_control_message-Next (subscribe_done m) s d g = (g, ground arith)

-- A reply that returns a session in the handshake's state.
abbrev Replies : (Session → Option Session) → Type 0
Replies reply =
    (s : Session)
    → s.local_role ≤ 3
    → Returns (reply s) (λ s'.
      (s'.local_role ≡ s.local_role)
      × (s'.remote_role ≡ s.remote_role)
      × (s'.is_handshake_done ≡ s.is_handshake_done)
      × (s'.signals ≡ s.signals)
      × (s'.handled ≡ s.handled))

setup_reply-Replies : Replies (λ s. write_control_message (setup_reply s) s)
unfolding write_control_message message_bytes
setup_reply-Replies s h =
    let setup : ServerSetup = record {
      selected_version = draft_04;
      params = role_params s.local_role;
    } in
    let e = server_setup_bytes-code setup (omega arith, ((refl, refl, omega arith), tt, tt)) in
    ground (arith, e)

Returns-map :
    (o : Option Session) (P Q : Session → Type 0)
    → Returns o P
    → ((s : Session) → P s → Q s)
    → Returns o Q
Returns-map none P Q h f = h
Returns-map (some s) P Q h f = f s h

set_remote_role-compatible :
    (r : ℕ) (s : Session)
    → s.local_role ≤ 3
    → (set_remote_role r s).1 ≡ false
    → compatible s.local_role r ≡ true
unfolding set_remote_role
set_remote_role-compatible r s k h = ground arith

settle-Next :
    (role : Option ℕ) (reply : Session → Option Session) (s : Session)
    → Replies reply
    → s.is_handshake_done ≡ false
    → Gate s
    → Returns (settle role reply s) (Next s)
unfolding settle
settle-Next none reply s rep d g = close-Next _ s g
settle-Next (some r) reply s rep d g = elim (Bool-cases (set_remote_role r s).1) [
  | inl e ↦ rw e (unfold set_remote_role close in (ground arith, ground arith))
  | inr e ↦
      let c = set_remote_role-compatible r s g.known e in
      let s1 : Session = finish (set_remote_role r s).0 in
      let l : s1.local_role ≡ s.local_role = unfold set_remote_role in ground arith in
      let q : s1.remote_role ≡ r = unfold set_remote_role in ground arith in
      let n : s1.signals ≡ s.signals + 1 = unfold set_remote_role in ground arith in
      let h : s1.handled ≡ s.handled = unfold set_remote_role in ground arith in
      rw e (
        Returns-map (reply s1) _ (Next s) (rep s1 (omega arith))
          (λ s' (a, b, f, x, y). (ground arith, ground arith)))
]

agree-Next :
    (m : Parameters) (reply : Session → Option Session) (s : Session)
    → AllTyped m
    → Replies reply
    → s.is_handshake_done ≡ false
    → Gate s
    → Returns (agree m reply s) (Next s)
unfolding agree
agree-Next m reply s typed r d g = elim (Option-cases (get_role_param m)) [
  | inl e ↦ absurd (get_role_param-returns m typed e)
  | inr (role, e) ↦ rw e (settle-Next role reply s r d g)
]

returns-Replies : Replies (λ s. some s)
returns-Replies s h = ground arith

handle_setup_message-Next :
    (m : Message) (s : Session)
    → MessageTyped m
    → s.is_handshake_done ≡ false
    → Gate s
    → Returns (handle_setup_message m s) (Next s)
unfolding handle_setup_message
handle_setup_message-Next (client_setup m) s t d g = ground (
  arith,
  close-Next 1 s g,
  agree-Next m.params (λ s1. write_control_message (setup_reply s1) s1) s t setup_reply-Replies d g,
)
handle_setup_message-Next (server_setup m) s t d g =
    ground (arith, close-Next 1 s g, agree-Next m.params (λ s1. some s1) s t returns-Replies d g)
handle_setup_message-Next (announce m) s t d g = (g, ground arith)
handle_setup_message-Next (announce_ok m) s t d g = (g, ground arith)
handle_setup_message-Next (subscribe m) s t d g = (g, ground arith)
handle_setup_message-Next (subscribe_ok m) s t d g = (g, ground arith)
handle_setup_message-Next (unsubscribe m) s t d g = (g, ground arith)
handle_setup_message-Next (subscribe_done m) s t d g = (g, ground arith)

pub receive-done :
    (m : Message) (s : Session)
    → s.is_handshake_done ≡ true
    → receive m s ≡ some (handle_control_message m s)
unfolding receive
receive-done m s d = ground arith

receive-waiting :
    (m : Message) (s : Session)
    → s.is_handshake_done ≡ false
    → receive m s ≡ handle_setup_message m s
unfolding receive
receive-waiting m s d = ground arith

pub receive-Next :
    (m : Message) (s : Session) → MessageTyped m → Gate s → Returns (receive m s) (Next s)
receive-Next m s t g = elim (Bool-cases s.is_handshake_done) [
  | inl d ↦ rw (receive-done m s d) (handle_control_message-Next m s d g)
  | inr d ↦ rw (receive-waiting m s d) (handle_setup_message-Next m s t d g)
]

pub Stays-trans : (a b c : Session) → Stays a b → Stays b c → Stays a c
Stays-trans a b c h k = ground arith
