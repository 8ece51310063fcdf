-- ===== src/Relay/Refinement.antt =====
-- moq-go/moqt/relayhandler.go: the relay as a relation between sessions and streams. What a sequence of
-- calls leaves of the maps, the references and the lists of subscribers is this relation.
use moq_quic_bbrv3_go.Prelude.{
  ℕ, ◌≡◌, refl, ◌∙◌, inl, inr, arith, ◌==◌, Bool, false, ◌&&◌, if◌then◌else◌, Option-cases, List,
  [], ◌∷◌, none, some, find, has-exclude,
}
use moq_quic_bbrv3_go.Wire.Messages.{Subscribe}
use moq_quic_bbrv3_go.Relay.State.{Relay, get_publisher, remove_subscriber}
use moq_quic_bbrv3_go.Relay.Calls.{
  get_object_stream, handle_subscribe, handle_unsubscribe, leave_streams, handle_close,
  remove_session, Event, opened, greeted, announced, subscribed, accepted, unsubscribed, arrived,
  closed, apply, run_relay,
}
use moq_quic_bbrv3_go.Relay.Quiet.{
  Quiet, Quiet-refl, add_session-Quiet, set_role-Quiet, handle_announce-Quiet,
  handle_subscribe_ok-Quiet, cache_object-Quiet,
}
use moq_quic_bbrv3_go.Relay.Members.{
  joined, leads, Linked, Effect, nothing, joins, leaves, leaves_all, perform, After, Quiet-After,
  Quiet-Linked, nothing-After, join_stream-After, remove_subscriber-After, perform-eq,
  get_object_stream-Found, Found-After,
}

remove_session-Quiet : (id : ℕ) (g : Relay) → Quiet g (remove_session id g)
unfolding remove_session
remove_session-Quiet id g = record {
  maps = λ j. refl;
  members = λ r. refl;
  sources = λ j. refl;
  allocated = refl;
}

-- The streams that the map leads to, and no other, lose the session.
pub joined-leave_streams :
    (id : ℕ) (m : List (ℕ × ℕ)) (g : Relay) (j q : ℕ)
    → joined (leave_streams id m g) j q ≡ (if j == id && leads q m then false else joined g j q)
unfolding leave_streams remove_subscriber
joined-leave_streams id [] g j q = ground arith
joined-leave_streams id ((k, r) ∷ m) g j q =
    joined-leave_streams id m (remove_subscriber id r g) j q
    ∙ ground (arith, has-exclude j id (g.streams r).subscribers)

leave_streams-Linked :
    (id : ℕ) (m : List (ℕ × ℕ)) (g : Relay) → Linked g → Linked (leave_streams id m g)
unfolding leave_streams
leave_streams-Linked id [] g h = h
leave_streams-Linked id ((k, r) ∷ m) g h =
    leave_streams-Linked id m _ (remove_subscriber-After id r g h).valid

handle_close-After : (id : ℕ) (g : Relay) → Linked g → After (leaves_all id) g (handle_close id g)
unfolding handle_close remove_session
handle_close-After id g h = record {
  valid =
      Quiet-Linked (remove_session-Quiet id _)
        (leave_streams-Linked id (g.handlers id).subscribed g h);
  effect = λ j q.
      joined-leave_streams id (g.handlers id).subscribed g j q ∙ ground (arith, h.linked id q);
}

unfoldable pub subscribe_effect : ℕ → Subscribe → ℕ → Relay → Effect
subscribe_effect id m subid g = elim (get_publisher m.track_namespace g.namespaces) [
  | none ↦ nothing
  | some p ↦ let (g1, c, r) = get_object_stream p m subid g in joins id r
]

unfoldable pub unsubscribe_effect : ℕ → ℕ → Relay → Effect
unsubscribe_effect id k g = elim (find k (g.handlers id).subscribed) [
  | none ↦ nothing
  | some r ↦ leaves id r
]

unfoldable pub effect_of : Event → Relay → Effect
effect_of (subscribed id m subid) g = subscribe_effect id m subid g
effect_of (unsubscribed id subid) g = unsubscribe_effect id subid g
effect_of (closed id) g = leaves_all id
effect_of _ g = nothing

handle_unsubscribe-After :
    (id k : ℕ) (g : Relay)
    → Linked g
    → After (unsubscribe_effect id k g) g (handle_unsubscribe id k g)
unfolding handle_unsubscribe unsubscribe_effect
handle_unsubscribe-After id k g h = elim (Option-cases (find k (g.handlers id).subscribed)) [
  | inl e ↦ rw (e, handle_unsubscribe, unsubscribe_effect) (Quiet-After (Quiet-refl g) h)
  | inr (r, e) ↦ rw (e, handle_unsubscribe, unsubscribe_effect) (remove_subscriber-After id r g h)
]

handle_subscribe-After :
    (id : ℕ) (m : Subscribe) (subid : ℕ) (g : Relay)
    → Linked g
    → find m.subscribe_id (g.handlers id).subscribed ≡ none
    → After (subscribe_effect id m subid g) g (handle_subscribe id m subid g)
unfolding handle_subscribe subscribe_effect
handle_subscribe-After id m subid g h new =
    elim (Option-cases (get_publisher m.track_namespace g.namespaces)) [
      | inl e ↦ rw (e, handle_subscribe, subscribe_effect) (Quiet-After (Quiet-refl g) h)
      | inr (p, e) ↦
          rw (e, handle_subscribe, subscribe_effect)
            (let f = get_object_stream-Found p m subid g h in
              nothing-After _ _ _ _ (Found-After f)
                (join_stream-After id m _ _ _ f.valid f.inside (rw (f.maps id) new)))
    ]

-- A session that subscribes takes an identifier that it does not use.
unfoldable pub Fresh : Event → Relay → Type 0
Fresh (subscribed id m subid) g = find m.subscribe_id (g.handlers id).subscribed ≡ none
Fresh _ g = Unit

apply-After : (e : Event) (g : Relay) → Linked g → Fresh e g → After (effect_of e g) g (apply e g)
unfolding apply effect_of Fresh
apply-After (opened id) g h f = Quiet-After (add_session-Quiet id g) h
apply-After (greeted id role) g h f = Quiet-After (set_role-Quiet id role g) h
apply-After (announced id m) g h f = Quiet-After (handle_announce-Quiet id m g) h
apply-After (subscribed id m subid) g h f = handle_subscribe-After id m subid g h f
apply-After (accepted id m) g h f = Quiet-After (handle_subscribe_ok-Quiet id m g) h
apply-After (unsubscribed id subid) g h f = handle_unsubscribe-After id subid g h
apply-After (arrived r o) g h f = Quiet-After (cache_object-Quiet r o g) h
apply-After (closed id) g h f = handle_close-After id g h

unfoldable pub AllFresh : List Event → Relay → Type 0
AllFresh [] g = Unit
AllFresh (e ∷ es) g = Fresh e g × AllFresh es (apply e g)

-- The effects that a sequence of calls has, in their order.
unfoldable pub trace : List Event → Relay → List Effect
trace [] g = []
trace (e ∷ es) g = effect_of e g ∷ trace es (apply e g)

abbrev pub perform_all : List Effect → (ℕ → ℕ → Bool) → ℕ → ℕ → Bool
perform_all [] v = v
perform_all (e ∷ es) v = perform_all es (perform e v)

perform_all-eq :
    (es : List Effect) (v w : ℕ → ℕ → Bool)
    → ((j q : ℕ) → v j q ≡ w j q)
    → (id r : ℕ) → perform_all es v id r ≡ perform_all es w id r
perform_all-eq [] v w f id r = f id r
perform_all-eq (e ∷ es) v w f id r =
    perform_all-eq es (perform e v) (perform e w) (perform-eq e v w f) id r

-- A store whose subscriptions are those of another under effects.
pub record Refines (es : List Effect) (g g' : Relay) : Type 0 where
  pub valid : Linked g'
  pub relation : (id r : ℕ) → joined g' id r ≡ perform_all es (joined g) id r

-- Any sequence of calls in which each SUBSCRIBE of a session takes an identifier that the session does
-- not use, from a store whose maps lead to every subscription, leaves the subscriptions that its
-- effects make of the relation, and a store whose maps lead to every subscription.
pub run_relay-Refines :
    (es : List Event) (g : Relay)
    → Linked g
    → AllFresh es g
    → Refines (trace es g) g (run_relay es g)
unfolding run_relay trace AllFresh
run_relay-Refines [] g h f = record { valid = h; relation = λ id r. refl }
run_relay-Refines (e ∷ es) g h (f, fs) =
    let a = apply-After e g h f in
    let rest = run_relay-Refines es (apply e g) a.valid fs in
    record {
      valid = rest.valid;
      relation =
          λ id r. rest.relation id r ∙ perform_all-eq (trace es (apply e g)) _ _ a.effect id r;
    }
