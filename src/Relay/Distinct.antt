-- ===== src/Relay/Distinct.antt =====
-- moq-go/moqt: no key stands twice in the map of sessions or in the subscribers of a stream, over every
-- sequence of calls.
use moq_quic_bbrv3_go.Prelude.{
  ℕ, ◌≡◌, refl, ap, ◌∙◌, inl, inr, arith, Bool, true, false, ◌&&◌, if◌then◌else◌, Option-cases,
  List, [], ◌∷◌, ◌++◌, ◌==◌, find, has, include, exclude, has-exclude,
}
use moq_quic_bbrv3_go.Wire.Messages.{Announce, Subscribe, SubscribeOk, announce_ok}
use moq_quic_bbrv3_go.Relay.State.{
  Relay, get_sub_id, get_publisher, put_publisher, write, add_subscriber, remove_subscriber,
  add_incoming, add_subscribed, new_relay_stream, new_session_manager, new_relay_handler,
}
use moq_quic_bbrv3_go.Relay.Calls.{
  add_session, set_role, remove_session, announce_to, add_publisher, handle_announce,
  send_subscribe, choose, get_object_stream, join_stream, handle_subscribe, send_subscribe_ok,
  forward_subscribe_ok, handle_subscribe_ok, handle_unsubscribe, leave_streams, handle_close,
  cache_object, Event, opened, greeted, announced, subscribed, accepted, unsubscribed, arrived,
  closed, apply, run_relay,
}
use moq_quic_bbrv3_go.Relay.Quiet.{
  Quiet, handle_announce-Quiet, handle_subscribe_ok-Quiet, cache_object-Quiet,
}
use moq_quic_bbrv3_go.Relay.Delivery.{
  distinct, written, only_if, wanted, announcement, ok_for, handle_announce-written,
  forward_subscribe_ok-written,
}

distinct-include : (k : ℕ) (s : List ℕ) → distinct s ≡ true → distinct (include k s) ≡ true
distinct-include k s d = ground arith

distinct-exclude : (k : ℕ) (s : List ℕ) → distinct s ≡ true → distinct (exclude k s) ≡ true
distinct-exclude k [] d = refl
distinct-exclude k (j ∷ s) d = ground (arith, distinct-exclude k s, has-exclude j k s)

pub record Single (g : Relay) : Type 0 where
  pub sessions : distinct g.sessions ≡ true
  pub members : (r : ℕ) → distinct (g.streams r).subscribers ≡ true

Quiet-Single : {g g' : Relay} → Quiet g g' → g'.sessions ≡ g.sessions → Single g → Single g'
Quiet-Single q e h = record {
  sessions = ap distinct e ∙ h.sessions;
  members = λ r. ap distinct (q.members r) ∙ h.members r;
}

announce_to-sessions :
    (ns peers : List ℕ) (p : ℕ) (g : Relay) → (announce_to ns peers p g).sessions ≡ g.sessions
unfolding announce_to write
announce_to-sessions ns [] p g = refl
announce_to-sessions ns (x ∷ xs) p g = announce_to-sessions ns xs p _ ∙ ground arith

handle_announce-sessions :
    (p : ℕ) (m : Announce) (g : Relay) → (handle_announce p m g).sessions ≡ g.sessions
unfolding handle_announce add_publisher write
handle_announce-sessions p m g =
    announce_to-sessions m.track_namespace g.sessions p
      (record g { namespaces = put_publisher m.track_namespace p g.namespaces })

send_subscribe_ok-sessions :
    (id : List ℕ) (m : SubscribeOk) (s : ℕ) (g : Relay)
    → (send_subscribe_ok id m s g).sessions ≡ g.sessions
unfolding send_subscribe_ok write
send_subscribe_ok-sessions id m s g =
    elim (Option-cases (get_sub_id id g.streams (g.handlers s).subscribed)) [
      | inl e ↦ rw (e, send_subscribe_ok) refl
      | inr (k, e) ↦ rw (e, send_subscribe_ok) refl
    ]

forward_subscribe_ok-sessions :
    (id ss : List ℕ) (m : SubscribeOk) (g : Relay)
    → (forward_subscribe_ok id ss m g).sessions ≡ g.sessions
unfolding forward_subscribe_ok
forward_subscribe_ok-sessions id [] m g = refl
forward_subscribe_ok-sessions id (x ∷ xs) m g =
    forward_subscribe_ok-sessions id xs m _ ∙ send_subscribe_ok-sessions id m x g

handle_subscribe_ok-sessions :
    (p : ℕ) (m : SubscribeOk) (g : Relay) → (handle_subscribe_ok p m g).sessions ≡ g.sessions
unfolding handle_subscribe_ok
handle_subscribe_ok-sessions p m g =
    elim (Option-cases (find m.subscribe_id (g.handlers p).incoming)) [
      | inl e ↦ rw (e, handle_subscribe_ok) refl
      | inr (r, e) ↦ rw (e, handle_subscribe_ok) (forward_subscribe_ok-sessions _ _ m g)
    ]

join_stream-Single :
    (s : ℕ) (m : Subscribe) (c : Bool) (r : ℕ) (g : Relay)
    → Single g
    → Single (join_stream s m c r g)
unfolding join_stream write add_subscriber add_subscribed
join_stream-Single s m true r g h = record {
  sessions = h.sessions;
  members = λ q. ground (arith, h.members q, distinct-include s (g.streams r).subscribers);
}
join_stream-Single s m false r g h = record {
  sessions = h.sessions;
  members = λ q. ground (arith, h.members q, distinct-include s (g.streams r).subscribers);
}

send_subscribe-Single :
    (p : ℕ) (m : Subscribe) (subid : ℕ) (g : Relay)
    → Single g
    → Single (send_subscribe p m subid g).0
unfolding send_subscribe write add_incoming new_relay_stream
send_subscribe-Single p m subid g h = record {
  sessions = h.sessions;
  members = λ q. ground (arith, h.members q);
}

get_object_stream-Single :
    (p : ℕ) (m : Subscribe) (subid : ℕ) (g : Relay)
    → Single g
    → Single (get_object_stream p m subid g).0
unfolding get_object_stream choose
get_object_stream-Single p m subid g h = ground (arith, send_subscribe-Single p m subid g h, h)

handle_subscribe-Single :
    (s : ℕ) (m : Subscribe) (subid : ℕ) (g : Relay)
    → Single g
    → Single (handle_subscribe s m subid g)
unfolding handle_subscribe
handle_subscribe-Single s m subid g h =
    elim (Option-cases (get_publisher m.track_namespace g.namespaces)) [
      | inl e ↦ rw (e, handle_subscribe) h
      | inr (p, e) ↦
          rw (e, handle_subscribe)
            (join_stream-Single s m _ _ _ (get_object_stream-Single p m subid g h))
    ]

remove_subscriber-Single : (id r : ℕ) (g : Relay) → Single g → Single (remove_subscriber id r g)
unfolding remove_subscriber
remove_subscriber-Single id r g h = record {
  sessions = h.sessions;
  members = λ q. ground (arith, h.members q, distinct-exclude id (g.streams r).subscribers);
}

handle_unsubscribe-Single :
    (s subid : ℕ) (g : Relay) → Single g → Single (handle_unsubscribe s subid g)
unfolding handle_unsubscribe
handle_unsubscribe-Single s subid g h = elim (Option-cases (find subid (g.handlers s).subscribed)) [
  | inl e ↦ rw (e, handle_unsubscribe) h
  | inr (r, e) ↦ rw (e, handle_unsubscribe) (remove_subscriber-Single s r g h)
]

leave_streams-Single :
    (id : ℕ) (m : List (ℕ × ℕ)) (g : Relay) → Single g → Single (leave_streams id m g)
unfolding leave_streams
leave_streams-Single id [] g h = h
leave_streams-Single id ((k, r) ∷ m) g h =
    leave_streams-Single id m _ (remove_subscriber-Single id r g h)

apply-Single : (e : Event) (g : Relay) → Single g → Single (apply e g)
unfolding apply add_session set_role handle_close remove_session cache_object
apply-Single (opened id) g h = record {
  sessions = distinct-include id g.sessions h.sessions;
  members = h.members;
}
apply-Single (greeted id role) g h = record { sessions = h.sessions; members = h.members }
apply-Single (announced id m) g h =
    Quiet-Single (handle_announce-Quiet id m g) (handle_announce-sessions id m g) h
apply-Single (subscribed id m subid) g h = handle_subscribe-Single id m subid g h
apply-Single (accepted id m) g h =
    Quiet-Single (handle_subscribe_ok-Quiet id m g) (handle_subscribe_ok-sessions id m g) h
apply-Single (unsubscribed id subid) g h = handle_unsubscribe-Single id subid g h
apply-Single (arrived r o) g h = Quiet-Single (cache_object-Quiet r o g) refl h
apply-Single (closed id) g h =
    let l = leave_streams-Single id (g.handlers id).subscribed g h in
    record { sessions = distinct-exclude id _ l.sessions; members = l.members }

run_relay-keeps_Single : (es : List Event) (g : Relay) → Single g → Single (run_relay es g)
unfolding run_relay
run_relay-keeps_Single [] g h = h
run_relay-keeps_Single (e ∷ es) g h = run_relay-keeps_Single es (apply e g) (apply-Single e g h)

run_relay-Single : (es : List Event) → Single (run_relay es new_session_manager)
unfolding new_session_manager new_relay_handler new_relay_stream
run_relay-Single es =
    run_relay-keeps_Single es new_session_manager (record { sessions = refl; members = λ r. refl })

-- After any sequence of calls on a new session manager, an ANNOUNCE is forwarded, once, to each session
-- whose remote role is the relay's or the subscriber's and which is not the publisher's, is answered to
-- the publisher by ANNOUNCE_OK behind that, and writes nothing else.
pub handle_announce-run_relay :
    (es : List Event) (publisher : ℕ) (m : Announce) (j : ℕ)
    → let g = run_relay es new_session_manager in
      written (handle_announce publisher m g) j
      ≡ (written g j
          ++ only_if
              (has j g.sessions && wanted (g.handlers j).remote_role j publisher)
              (announcement m.track_namespace))
        ++ only_if (publisher == j) (announce_ok m.track_namespace)
handle_announce-run_relay es publisher m j =
    handle_announce-written publisher m _ j (run_relay-Single es).sessions

-- After any sequence of calls on a new session manager, forwarding a SUBSCRIBE_OK along a stream writes
-- to each subscriber of the stream one SUBSCRIBE_OK, which carries the identifier under which this
-- subscriber has the stream and is otherwise the publisher's, writes none to a subscriber without such
-- an identifier, and writes nothing to others.
pub forward_subscribe_ok-run_relay :
    (es : List Event) (r : ℕ) (m : SubscribeOk) (j : ℕ)
    → let g = run_relay es new_session_manager in
      let s = g.streams r in
      written (forward_subscribe_ok s.stream_id s.subscribers m g) j
      ≡ written g j ++ (if has j s.subscribers then ok_for s.stream_id m g j else [])
forward_subscribe_ok-run_relay es r m j =
    let g = run_relay es new_session_manager in
    forward_subscribe_ok-written (g.streams r).stream_id (g.streams r).subscribers m g j
      ((run_relay-Single es).members r)
