-- ===== src/Relay/Delivery.antt =====
-- moq-go/moqt/relayhandler.go, relaystream.go and sessionmanager.go: which messages the loops over
-- sessions and over subscribers write, and to whom.
use mathlib.Core.List.{append-nil}
use moq_quic_bbrv3_go.Prelude.{
  ℕ, ◌≡◌, refl, sym, ap, ◌∙◌, inl, inr, arith, ◌==◌, Bool, true, false, ◌&&◌, ◌||◌, not,
  if◌then◌else◌, Option-cases, List, [], ◌∷◌, ◌++◌, Option, none, some, assign, has,
}
use moq_quic_bbrv3_go.Wire.Messages.{
  Announce, Subscribe, SubscribeOk, Message, announce, announce_ok, subscribe_ok,
}
use moq_quic_bbrv3_go.Session.State.{role_relay, role_subscriber}
use moq_quic_bbrv3_go.Relay.State.{
  Relay, get_sub_id, write, put_publisher, add_subscriber, add_subscribed,
}
use moq_quic_bbrv3_go.Relay.Calls.{
  announce_to, add_publisher, handle_announce, send_subscribe_ok, forward_subscribe_ok, join_stream,
  handle_close, remove_session,
}
use moq_quic_bbrv3_go.Relay.Quiet.{write-Quiet}
use moq_quic_bbrv3_go.Relay.Members.{joined, leads}
use moq_quic_bbrv3_go.Relay.Refinement.{joined-leave_streams}

-- No key stands twice.
abbrev pub distinct : List ℕ → Bool
distinct [] = true
distinct (k ∷ s) = if has k s then false else distinct s

abbrev pub written : Relay → ℕ → List Message
written g j = (g.handlers j).written

-- The role has announcements forwarded to it.
abbrev pub interested : ℕ → Bool
interested role = role == role_relay || role == role_subscriber

-- One message, or none.
abbrev pub only_if : Bool → Message → List Message
only_if c m = if c then m ∷ [] else []

abbrev pub announcement : List ℕ → Message
announcement ns = announce (record { track_namespace = ns; params = [] })

abbrev pub wanted : ℕ → ℕ → ℕ → Bool
wanted role j p = interested role && not (j == p)

told-role :
    (x : ℕ) (m : Message) (g : Relay) (c : Bool) (j : ℕ)
    → ((if c then write x m g else g).handlers j).remote_role ≡ (g.handlers j).remote_role
unfolding write
told-role x m g true j = ground arith
told-role x m g false j = refl

write-written :
    (x : ℕ) (m : Message) (g : Relay) (j : ℕ)
    → written (write x m g) j ≡ written g j ++ only_if (x == j) m
unfolding write
write-written x m g j = ground (arith, append-nil (written g j))

-- The step of the loop at one peer.
told-written :
    (x : ℕ) (m : Message) (g : Relay) (c : Bool) (j : ℕ)
    → written (if c then write x m g else g) j ≡ written g j ++ only_if (x == j && c) m
unfolding write
told-written x m g true j = ground (arith, append-nil (written g j))
told-written x m g false j = ground (arith, append-nil (written g j))

only_if-append :
    (a b : Bool) (m : Message) (w : List Message)
    → (a && b) ≡ false
    → (w ++ only_if a m) ++ only_if b m ≡ w ++ only_if (a || b) m
only_if-append true true m w h = cc
only_if-append true false m w h = append-nil _
only_if-append false b m w h = rw (append-nil w) refl

announce_to-written :
    (ns peers : List ℕ) (p : ℕ) (g : Relay) (j : ℕ)
    → distinct peers ≡ true
    → written (announce_to ns peers p g) j
      ≡ written g j
        ++ only_if (has j peers && wanted (g.handlers j).remote_role j p) (announcement ns)
unfolding announce_to
announce_to-written ns [] p g j d = sym (append-nil _)
announce_to-written ns (x ∷ xs) p g j d =
    let c = wanted (g.handlers x).remote_role x p in
    let g1 = if c then write x (announcement ns) g else g in
    announce_to-written ns xs p g1 j (ground arith)
    ∙ ap (λ w. w ++ only_if (has j xs && wanted (g1.handlers j).remote_role j p) (announcement ns))
        (told-written x (announcement ns) g c j)
    ∙ ap
        (λ r.
          (written g j ++ only_if (x == j && c) (announcement ns))
          ++ only_if (has j xs && wanted r j p) (announcement ns))
        (told-role x (announcement ns) g c j)
    ∙ only_if-append (x == j && c) (has j xs && wanted (g.handlers j).remote_role j p)
        (announcement ns) (written g j) (ground arith)
    ∙ ap (λ b. written g j ++ only_if b (announcement ns)) (ground arith)

-- An ANNOUNCE is forwarded, once, to each session whose remote role is the relay's or the subscriber's
-- and which is not the publisher's, is answered to the publisher by ANNOUNCE_OK behind that, and writes
-- nothing else, when no session stands twice in the map of sessions.
pub handle_announce-written :
    (publisher : ℕ) (m : Announce) (g : Relay) (j : ℕ)
    → distinct g.sessions ≡ true
    → written (handle_announce publisher m g) j
      ≡ (written g j
          ++ only_if
              (has j g.sessions && wanted (g.handlers j).remote_role j publisher)
              (announcement m.track_namespace))
        ++ only_if (publisher == j) (announce_ok m.track_namespace)
unfolding handle_announce add_publisher
handle_announce-written p m g j d =
    let named = record g { namespaces = put_publisher m.track_namespace p g.namespaces } in
    let told = announce_to m.track_namespace g.sessions p named in
    write-written p (announce_ok m.track_namespace) told j
    ∙ ap (λ w. w ++ only_if (p == j) (announce_ok m.track_namespace))
        (announce_to-written m.track_namespace g.sessions p named j d)

-- SUBSCRIBE_OK as a subscriber is to get it: under its own identifier of the stream.
abbrev pub ok_under : SubscribeOk → Option ℕ → List Message
ok_under m none = []
ok_under m (some k) = subscribe_ok (record m { subscribe_id = k }) ∷ []

abbrev pub ok_for : List ℕ → SubscribeOk → Relay → ℕ → List Message
ok_for id m g j = ok_under m (get_sub_id id g.streams (g.handlers j).subscribed)

-- A list of messages for each of distinct keys.
once-append :
    (f : ℕ → List Message) (w : List Message) (x j : ℕ) (xs : List ℕ)
    → distinct (x ∷ xs) ≡ true
    → (w ++ (if x == j then f x else [])) ++ (if has j xs then f j else [])
      ≡ w ++ (if has j (x ∷ xs) then f j else [])
once-append f w x j xs d = ground (arith, append-nil w, append-nil (w ++ f x))

send_subscribe_ok-written :
    (id : List ℕ) (m : SubscribeOk) (x : ℕ) (g : Relay) (j : ℕ)
    → written (send_subscribe_ok id m x g) j
      ≡ written g j ++ (if x == j then ok_for id m g x else [])
unfolding send_subscribe_ok write
send_subscribe_ok-written id m x g j =
    elim (Option-cases (get_sub_id id g.streams (g.handlers x).subscribed)) [
      | inl e ↦ rw (e, send_subscribe_ok) (ground (arith, append-nil (written g j)))
      | inr (k, e) ↦ rw (e, send_subscribe_ok) (ground (arith, append-nil (written g j)))
    ]

send_subscribe_ok-ok_for :
    (id : List ℕ) (m : SubscribeOk) (x : ℕ) (g : Relay) (j : ℕ)
    → ok_for id m (send_subscribe_ok id m x g) j ≡ ok_for id m g j
unfolding send_subscribe_ok write
send_subscribe_ok-ok_for id m x g j =
    elim (Option-cases (get_sub_id id g.streams (g.handlers x).subscribed)) [
      | inl e ↦ rw (e, send_subscribe_ok) refl
      | inr (k, e) ↦
          rw (e, send_subscribe_ok)
            (ap (λ v. ok_under m (get_sub_id id g.streams v)) ((write-Quiet x _ g).maps j))
    ]

-- ForwardSubscribeOk writes to each subscriber of the stream one SUBSCRIBE_OK, which carries the
-- identifier under which this subscriber has the stream and is otherwise the publisher's, writes none
-- to a subscriber without such an identifier, and writes nothing to others, when no subscriber stands
-- twice in the stream's map.
pub forward_subscribe_ok-written :
    (id : List ℕ) (ss : List ℕ) (m : SubscribeOk) (g : Relay) (j : ℕ)
    → distinct ss ≡ true
    → written (forward_subscribe_ok id ss m g) j
      ≡ written g j ++ (if has j ss then ok_for id m g j else [])
unfolding forward_subscribe_ok
forward_subscribe_ok-written id [] m g j d = sym (append-nil _)
forward_subscribe_ok-written id (x ∷ xs) m g j d =
    let g1 = send_subscribe_ok id m x g in
    forward_subscribe_ok-written id xs m g1 j (ground arith)
    ∙ ap (λ w. w ++ (if has j xs then ok_for id m g1 j else []))
        (send_subscribe_ok-written id m x g j)
    ∙ ap
        (λ o.
          (written g j ++ (if x == j then ok_for id m g x else [])) ++ (if has j xs then o else []))
        (send_subscribe_ok-ok_for id m x g j)
    ∙ once-append (ok_for id m g) (written g j) x j xs d

leads-assign_self : (k q : ℕ) (m : List (ℕ × ℕ)) → leads q (assign k q m) ≡ true
leads-assign_self k q [] = ground arith
leads-assign_self k q ((i, p) ∷ m) = ground (arith, leads-assign_self k q m)

add-keeps :
    (id k q r : ℕ) (g : Relay)
    → joined g id r ≡ true
    → leads r (assign k q (g.handlers id).subscribed) ≡ false
    → joined (handle_close id (add_subscribed id k q (add_subscriber q id g))) id r ≡ true
unfolding handle_close remove_session add_subscribed add_subscriber
add-keeps id k q r g j l =
    joined-leave_streams id _ _ id r
    ∙ ground (arith, leads-assign_self k q (g.handlers id).subscribed)

-- A session that is subscribed to the stream `r` and takes the identifier of `r` for another stream,
-- when none of its other identifiers leads to `r`, stays in the subscribers of `r` after it closes.
pub join_stream-keeps :
    (id : ℕ) (m : Subscribe) (c : Bool) (q r : ℕ) (g : Relay)
    → joined g id r ≡ true
    → leads r (assign m.subscribe_id q (g.handlers id).subscribed) ≡ false
    → joined (handle_close id (join_stream id m c q g)) id r ≡ true
unfolding join_stream
join_stream-keeps id m true q r g j l =
    let w = write-Quiet id _ g in
    add-keeps id m.subscribe_id q r _ (ap (has id) (w.members r) ∙ j)
      (ap (λ v. leads r (assign m.subscribe_id q v)) (w.maps id) ∙ l)
join_stream-keeps id m false q r g j l = add-keeps id m.subscribe_id q r g j l
