-- ===== src/Relay/Quiet.antt =====
-- moq-go/moqt/relayhandler.go: the calls that leave every subscription as it is.
use moq_quic_bbrv3_go.Prelude.{
  ℕ, ◌≡◌, refl, ◌∙◌, inl, inr, arith, Bool, true, false, if◌then◌else◌, Option-cases, List, [], ◌∷◌,
  find,
}
use moq_quic_bbrv3_go.Wire.Params.{Object}
use moq_quic_bbrv3_go.Wire.Messages.{Announce, SubscribeOk, Message}
use moq_quic_bbrv3_go.Relay.State.{Relay, get_sub_id, put_publisher, write}
use moq_quic_bbrv3_go.Relay.Calls.{
  add_session, set_role, announce_to, add_publisher, handle_announce, send_subscribe_ok,
  forward_subscribe_ok, handle_subscribe_ok, cache_object,
}

-- The maps of subscriptions, the subscribers and the allocated streams stay.
pub record Quiet (g g' : Relay) : Type 0 where
  pub maps : (id : ℕ) → (g'.handlers id).subscribed ≡ (g.handlers id).subscribed
  pub members : (r : ℕ) → (g'.streams r).subscribers ≡ (g.streams r).subscribers
  pub sources : (id : ℕ) → (g'.handlers id).incoming ≡ (g.handlers id).incoming
  pub allocated : g'.next ≡ g.next

pub Quiet-refl : (g : Relay) → Quiet g g
Quiet-refl g = record {
  maps = λ id. refl;
  members = λ r. refl;
  sources = λ id. refl;
  allocated = refl;
}

pub Quiet-trans : {a b c : Relay} → Quiet a b → Quiet b c → Quiet a c
Quiet-trans p q = record {
  maps = λ id. q.maps id ∙ p.maps id;
  members = λ r. q.members r ∙ p.members r;
  sources = λ id. q.sources id ∙ p.sources id;
  allocated = q.allocated ∙ p.allocated;
}

Quiet-if : (c : Bool) {g a b : Relay} → Quiet g a → Quiet g b → Quiet g (if c then a else b)
Quiet-if true p q = p
Quiet-if false p q = q

pub write-Quiet : (id : ℕ) (m : Message) (g : Relay) → Quiet g (write id m g)
unfolding write
write-Quiet id m g = record {
  maps = λ j. ground arith;
  members = λ r. refl;
  sources = λ j. ground arith;
  allocated = refl;
}

pub add_session-Quiet : (id : ℕ) (g : Relay) → Quiet g (add_session id g)
unfolding add_session
add_session-Quiet id g = record {
  maps = λ j. refl;
  members = λ r. refl;
  sources = λ j. refl;
  allocated = refl;
}

pub set_role-Quiet : (id role : ℕ) (g : Relay) → Quiet g (set_role id role g)
unfolding set_role
set_role-Quiet id role g = record {
  maps = λ j. ground arith;
  members = λ r. refl;
  sources = λ j. ground arith;
  allocated = refl;
}

announce_to-Quiet : (ns peers : List ℕ) (p : ℕ) (g : Relay) → Quiet g (announce_to ns peers p g)
unfolding announce_to
announce_to-Quiet ns [] p g = Quiet-refl g
announce_to-Quiet ns (x ∷ xs) p g =
    Quiet-trans (Quiet-if _ (write-Quiet x _ g) (Quiet-refl g)) (announce_to-Quiet ns xs p _)

pub cache_object-Quiet : (r : ℕ) (o : Object) (g : Relay) → Quiet g (cache_object r o g)
unfolding cache_object
cache_object-Quiet r o g = record {
  maps = λ j. refl;
  members = λ q. ground arith;
  sources = λ j. refl;
  allocated = refl;
}

send_subscribe_ok-Quiet :
    (id : List ℕ) (m : SubscribeOk) (s : ℕ) (g : Relay) → Quiet g (send_subscribe_ok id m s g)
unfolding send_subscribe_ok
send_subscribe_ok-Quiet id m s g =
    elim (Option-cases (get_sub_id id g.streams (g.handlers s).subscribed)) [
      | inl e ↦ rw (e, send_subscribe_ok) (Quiet-refl g)
      | inr (k, e) ↦ rw (e, send_subscribe_ok) (write-Quiet s _ g)
    ]

forward_subscribe_ok-Quiet :
    (id : List ℕ) (ss : List ℕ) (m : SubscribeOk) (g : Relay)
    → Quiet g (forward_subscribe_ok id ss m g)
unfolding forward_subscribe_ok
forward_subscribe_ok-Quiet id [] m g = Quiet-refl g
forward_subscribe_ok-Quiet id (s ∷ ss) m g =
    Quiet-trans (send_subscribe_ok-Quiet id m s g)
      (forward_subscribe_ok-Quiet id ss m (send_subscribe_ok id m s g))

pub handle_subscribe_ok-Quiet :
    (p : ℕ) (m : SubscribeOk) (g : Relay) → Quiet g (handle_subscribe_ok p m g)
unfolding handle_subscribe_ok
handle_subscribe_ok-Quiet p m g =
    elim (Option-cases (find m.subscribe_id (g.handlers p).incoming)) [
      | inl e ↦ rw (e, handle_subscribe_ok) (Quiet-refl g)
      | inr (r, e) ↦ rw (e, handle_subscribe_ok) (forward_subscribe_ok-Quiet _ _ m g)
    ]

pub handle_announce-Quiet : (p : ℕ) (m : Announce) (g : Relay) → Quiet g (handle_announce p m g)
unfolding handle_announce add_publisher
handle_announce-Quiet p m g =
    let named = record g { namespaces = put_publisher m.track_namespace p g.namespaces } in
    let q : Quiet g named = record {
      maps = λ id. refl;
      members = λ r. refl;
      sources = λ id. refl;
      allocated = refl;
    } in
    Quiet-trans q
      (Quiet-trans (announce_to-Quiet m.track_namespace g.sessions p named) (write-Quiet p _ _))
