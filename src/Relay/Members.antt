-- ===== src/Relay/Members.antt =====
-- moq-go/moqt/relayhandler.go: who is subscribed to which stream, under every call, as a relation that
-- forgets the maps.
use moq_quic_bbrv3_go.Prelude.{
  ℕ, ◌≤◌, ◌<◌, ◌≡◌, refl, ap, ◌∙◌, ◌⊎◌, arith, ◌==◌, Bool, true, false, ◌&&◌, if◌then◌else◌, List,
  [], ◌∷◌, Option, none, some, find, assign, has, has-include, has-exclude,
}
use moq_quic_bbrv3_go.Wire.Messages.{Subscribe}
use moq_quic_bbrv3_go.Relay.State.{
  RelayStream, Relay, new_relay_stream, get_stream_id, stream_id_get_stream, write, add_subscriber,
  remove_subscriber, add_incoming, add_subscribed,
}
use moq_quic_bbrv3_go.Relay.Calls.{send_subscribe, choose, get_object_stream, join_stream}
use moq_quic_bbrv3_go.Relay.Quiet.{Quiet, write-Quiet}

-- The session is subscribed to the stream.
abbrev pub joined : Relay → ℕ → ℕ → Bool
joined g id r = has id (g.streams r).subscribers

-- Some identifier leads to the stream.
abbrev pub leads : ℕ → List (ℕ × ℕ) → Bool
leads r [] = false
leads r ((k, q) ∷ m) = if q == r then true else leads r m

-- The maps lead to every stream that a session is subscribed to, and only to allocated ones.
pub record Linked (g : Relay) : Type 0 where
  pub linked : (id r : ℕ) → joined g id r ≡ true → leads r (g.handlers id).subscribed ≡ true
  pub bounded : (id r : ℕ) → leads r (g.handlers id).incoming ≡ true → r < g.next
  pub unused : (r : ℕ) → g.next ≤ r → (g.streams r).subscribers ≡ []

pub Quiet-Linked : {g g' : Relay} → Quiet g g' → Linked g → Linked g'
Quiet-Linked {g} {g'} q h = record {
  linked = λ id r j. rw (q.maps id) (h.linked id r (rw (← q.members r) j));
  bounded = λ id r l. rw q.allocated (h.bounded id r (rw (← q.sources id) l));
  unused = λ r n. rw (q.members r) (h.unused r (rw (← q.allocated) n));
}

pub Quiet-joined : {g g' : Relay} → Quiet g g' → (id r : ℕ) → joined g' id r ≡ joined g id r
Quiet-joined q id r = ap (has id) (q.members r)

leads-assign :
    (q k r : ℕ) (m : List (ℕ × ℕ)) → leads q (assign k r m) ≡ true → (r ≡ q) ⊎ (leads q m ≡ true)
leads-assign q k r [] h = ground arith
leads-assign q k r ((j, s) ∷ m) h = ground (arith, leads-assign q k r m)

leads-assign_new :
    (q k r : ℕ) (m : List (ℕ × ℕ))
    → find k m ≡ none
    → leads q (assign k r m) ≡ (if r == q then true else leads q m)
leads-assign_new q k r [] h = ground arith
leads-assign_new q k r ((j, s) ∷ m) h = ground (arith, leads-assign_new q k r m)

leads-find : (k r : ℕ) (m : List (ℕ × ℕ)) → find k m ≡ some r → leads r m ≡ true
leads-find k r [] h = cc
leads-find k r ((j, s) ∷ m) h = ground (arith, leads-find k r m)

leads-stream_id_get_stream :
    (id : List ℕ) (streams : ℕ → RelayStream) (r : ℕ) (m : List (ℕ × ℕ))
    → stream_id_get_stream id streams m ≡ some r
    → leads r m ≡ true
unfolding stream_id_get_stream
leads-stream_id_get_stream id streams r [] h = cc
leads-stream_id_get_stream id streams r ((j, s) ∷ m) h =
    ground (arith, leads-stream_id_get_stream id streams r m)

-- A store in which a stream was found or made: nobody is subscribed to it anew.
pub record Found (g g' : Relay) (r : ℕ) : Type 0 where
  pub valid : Linked g'
  pub maps : (id : ℕ) → (g'.handlers id).subscribed ≡ (g.handlers id).subscribed
  pub members : (q : ℕ) → (g'.streams q).subscribers ≡ (g.streams q).subscribers
  pub inside : r < g'.next

send_subscribe-Found :
    (p : ℕ) (m : Subscribe) (subid : ℕ) (g : Relay)
    → Linked g
    → Found g (send_subscribe p m subid g).0 g.next
unfolding send_subscribe write add_incoming new_relay_stream
send_subscribe-Found p m subid g h = record {
  valid = record {
    linked = λ id r j. ground (arith, h.linked id r);
    bounded = λ id r l.
        ground (arith, h.bounded id r, leads-assign r subid g.next (g.handlers p).incoming);
    unused = λ r n. ground (arith, h.unused r);
  };
  maps = λ id. ground arith;
  members = λ q. ground (arith, h.unused q);
  inside = omega arith;
}

choose-Found :
    (o : Option ℕ) (again : Bool) (made : Relay × ℕ) (g : Relay)
    → Linked g
    → ((r : ℕ) → o ≡ some r → r < g.next)
    → Found g made.0 made.1
    → let (g', c, r) = choose o again made g in Found g g' r
unfolding choose
choose-Found none again made g h f m = m
choose-Found (some r) true made g h f m = m
choose-Found (some r) false made g h f m = record {
  valid = h;
  maps = λ id. refl;
  members = λ q. refl;
  inside = f r refl;
}

pub get_object_stream-Found :
    (p : ℕ) (m : Subscribe) (subid : ℕ) (g : Relay)
    → Linked g
    → let (g', c, r) = get_object_stream p m subid g in Found g g' r
unfolding get_object_stream send_subscribe
get_object_stream-Found p m subid g h =
    choose-Found _ _ (send_subscribe p m subid g) g h
      (λ r e.
        h.bounded p r
          (leads-stream_id_get_stream (get_stream_id m) g.streams r (g.handlers p).incoming e))
      (send_subscribe-Found p m subid g h)

-- What a call does to the subscriptions.
pub data Effect : Type 0 where
  nothing : Effect
  joins leaves : (id stream : ℕ) → Effect
  leaves_all : (id : ℕ) → Effect

abbrev pub perform : Effect → (ℕ → ℕ → Bool) → ℕ → ℕ → Bool
perform nothing v j q = v j q
perform (joins id r) v j q = if j == id && q == r then true else v j q
perform (leaves id r) v j q = if j == id && q == r then false else v j q
perform (leaves_all id) v j q = if j == id then false else v j q

-- A store after a call with an effect.
pub record After (e : Effect) (g g' : Relay) : Type 0 where
  pub valid : Linked g'
  pub effect : (id r : ℕ) → joined g' id r ≡ perform e (joined g) id r

pub Quiet-After : {g g' : Relay} → Quiet g g' → Linked g → After nothing g g'
Quiet-After q h = record { valid = Quiet-Linked q h; effect = λ id r. Quiet-joined q id r }

-- A session joins an allocated stream under a new identifier.
add-After :
    (id k r : ℕ) (g : Relay)
    → Linked g
    → r < g.next
    → find k (g.handlers id).subscribed ≡ none
    → After (joins id r) g (add_subscribed id k r (add_subscriber r id g))
unfolding add_subscribed add_subscriber
add-After id k r g h inside new = record {
  valid = record {
    linked = λ j q l. ground (
      arith,
      h.linked j q,
      has-include j id (g.streams r).subscribers,
      leads-assign_new q k r (g.handlers id).subscribed new,
    );
    bounded = λ j q l. ground (arith, h.bounded j q);
    unused = λ q n. ground (arith, h.unused q);
  };
  effect = λ j q. ground (arith, has-include j id (g.streams r).subscribers);
}

pub Found-After : {g g' : Relay} {r : ℕ} → Found g g' r → After nothing g g'
Found-After f = record { valid = f.valid; effect = λ id q. ap (has id) (f.members q) }

pub perform-eq :
    (e : Effect) (v w : ℕ → ℕ → Bool)
    → ((j q : ℕ) → v j q ≡ w j q)
    → (id r : ℕ) → perform e v id r ≡ perform e w id r
perform-eq nothing v w f id r = f id r
perform-eq (joins x y) v w f id r = rw (f id r)
perform-eq (leaves x y) v w f id r = rw (f id r)
perform-eq (leaves_all x) v w f id r = rw (f id r)

-- A call without an effect on the subscriptions in front of another.
pub nothing-After : (e : Effect) (a b c : Relay) → After nothing a b → After e b c → After e a c
nothing-After e a b c p q = record {
  valid = q.valid;
  effect = λ id r. q.effect id r ∙ perform-eq e (joined b) (joined a) (λ j s. p.effect j s) id r;
}

pub join_stream-After :
    (id : ℕ) (m : Subscribe) (c : Bool) (r : ℕ) (g : Relay)
    → Linked g
    → r < g.next
    → find m.subscribe_id (g.handlers id).subscribed ≡ none
    → After (joins id r) g (join_stream id m c r g)
unfolding join_stream
join_stream-After id m true r g h inside new =
    let q = write-Quiet id _ g in
    nothing-After (joins id r) g _ _ (Quiet-After q h) (
      add-After id m.subscribe_id r _ (Quiet-Linked q h) (rw q.allocated inside)
        (rw (q.maps id) new))
join_stream-After id m false r g h inside new = add-After id m.subscribe_id r g h inside new

pub remove_subscriber-After :
    (id r : ℕ) (g : Relay) → Linked g → After (leaves id r) g (remove_subscriber id r g)
unfolding remove_subscriber
remove_subscriber-After id r g h = record {
  valid = record {
    linked = λ j q l. ground (arith, h.linked j q, has-exclude j id (g.streams r).subscribers);
    bounded = λ j q l. ground (arith, h.bounded j q);
    unused = λ q n. ground (arith, h.unused q);
  };
  effect = λ j q. ground (arith, has-exclude j id (g.streams r).subscribers);
}
