-- ===== src/Relay/Answer.antt =====
-- moq-go/moqt/relayhandler.go: a SUBSCRIBE and its answer, through the relay and back.
use moq_quic_bbrv3_go.Prelude.{
  ℕ, ◌≡◌, ◌≢◌, refl, ap, ◌∙◌, arith, true, false, if◌then◌else◌, List, [], ◌∷◌, ◌++◌, none, some,
  find, assign, find-assign, has,
}
use moq_quic_bbrv3_go.Wire.Messages.{Subscribe, SubscribeOk, subscribe, subscribe_ok}
use moq_quic_bbrv3_go.Relay.State.{
  RelayStream, Relay, same, get_stream_id, get_sub_id, stream_id_get_stream, get_publisher, write,
  new_relay_stream, add_subscriber, add_subscribed, add_incoming,
}
use moq_quic_bbrv3_go.Relay.Calls.{
  send_subscribe, choose, get_object_stream, join_stream, handle_subscribe, handle_subscribe_ok,
}
use moq_quic_bbrv3_go.Relay.Members.{leads}
use moq_quic_bbrv3_go.Relay.Delivery.{written, ok_for, ok_under, forward_subscribe_ok-written}

same_refl : (s : List ℕ) → same s s ≡ true
same_refl [] = refl
same_refl (a ∷ s) = ground (arith, same_refl s)

-- A new identifier is found for a stream that no other leads to.
get_sub_id-assign :
    (id : List ℕ) (a b : ℕ → RelayStream) (k r : ℕ) (m : List (ℕ × ℕ))
    → same (b r).stream_id id ≡ true
    → ((q : ℕ) → q ≢ r → (b q).stream_id ≡ (a q).stream_id)
    → find k m ≡ none
    → leads r m ≡ false
    → get_sub_id id a m ≡ none
    → get_sub_id id b (assign k r m) ≡ some k
unfolding get_sub_id
get_sub_id-assign id a b k r [] e f n l g = rw e refl
get_sub_id-assign id a b k r ((j, q) ∷ m) e f n l g =
    ground (arith, get_sub_id-assign id a b k r m e f, f q)

-- The store behind a SUBSCRIBE that no stream of the publisher serves.
abbrev pub subscribed_anew : ℕ → ℕ → Subscribe → ℕ → Relay → Relay
subscribed_anew publisher subscriber m subid g =
    join_stream subscriber m false g.next (send_subscribe publisher m subid g).0

handle_subscribe-anew :
    (publisher subscriber : ℕ) (m : Subscribe) (subid : ℕ) (g : Relay)
    → get_publisher m.track_namespace g.namespaces ≡ some publisher
    → stream_id_get_stream (get_stream_id m) g.streams (g.handlers publisher).incoming ≡ none
    → handle_subscribe subscriber m subid g ≡ subscribed_anew publisher subscriber m subid g
unfolding handle_subscribe get_object_stream choose send_subscribe
handle_subscribe-anew p s m subid g e n = rw (e, handle_subscribe, n) refl

has-once : {A : Type 0} (s : ℕ) (x : List A) → (if has s (s ∷ []) then x else []) ≡ x
has-once s x = ground arith

module _ (p s : ℕ) (m : Subscribe) (subid : ℕ) (g : Relay) where
  after : Relay
  after = subscribed_anew p s m subid g

  after-source : find subid (after.handlers p).incoming ≡ some g.next
  unfolding after join_stream send_subscribe write add_incoming add_subscriber add_subscribed
  after-source = ground (arith, find-assign subid subid g.next (g.handlers p).incoming)

  after-stream : (after.streams g.next).stream_id ≡ get_stream_id m
  unfolding after join_stream send_subscribe write add_incoming add_subscriber add_subscribed
      new_relay_stream
  after-stream = ground arith

  after-others : (q : ℕ) → q ≢ g.next → (after.streams q).stream_id ≡ (g.streams q).stream_id
  unfolding after join_stream send_subscribe write add_incoming add_subscriber add_subscribed
      new_relay_stream
  after-others q d = ground arith

  after-members : (after.streams g.next).subscribers ≡ s ∷ []
  unfolding after join_stream send_subscribe write add_incoming add_subscriber add_subscribed
      new_relay_stream
  after-members = ground arith

  after-map : (after.handlers s).subscribed ≡ assign m.subscribe_id g.next (g.handlers s).subscribed
  unfolding after join_stream send_subscribe write add_incoming add_subscriber add_subscribed
  after-map = ground arith

  after-asked :
      written after p ≡ written g p ++ (subscribe (record m { subscribe_id = subid }) ∷ [])
  unfolding after join_stream send_subscribe write add_incoming add_subscriber add_subscribed
  after-asked = ground arith

  after-silent : s ≢ p → written after s ≡ written g s
  unfolding after join_stream send_subscribe write add_incoming add_subscriber add_subscribed
  after-silent d = ground arith

  after-found :
      find m.subscribe_id (g.handlers s).subscribed ≡ none
      → leads g.next (g.handlers s).subscribed ≡ false
      → get_sub_id (get_stream_id m) g.streams (g.handlers s).subscribed ≡ none
      → get_sub_id (after.streams g.next).stream_id after.streams (after.handlers s).subscribed
        ≡ some m.subscribe_id
  after-found new free other =
      ap (λ id. get_sub_id id after.streams (after.handlers s).subscribed) after-stream
      ∙ ap (λ v. get_sub_id (get_stream_id m) after.streams v) after-map
      ∙ get_sub_id-assign (get_stream_id m) g.streams after.streams m.subscribe_id g.next
          (g.handlers s).subscribed
          (ap (λ id. same id (get_stream_id m)) after-stream ∙ same_refl (get_stream_id m))
          after-others new free other

  answer-after :
      (ok : SubscribeOk)
      → s ≢ p
      → get_sub_id (after.streams g.next).stream_id after.streams (after.handlers s).subscribed
        ≡ some m.subscribe_id
      → written (handle_subscribe_ok p (record ok { subscribe_id = subid }) after) s
        ≡ written g s ++ (subscribe_ok (record ok { subscribe_id = m.subscribe_id }) ∷ [])
  unfolding handle_subscribe_ok
  answer-after ok d found =
      let okm = record ok { subscribe_id = subid } in
      let stream = after.streams g.next in
      let once = λ (ss : List ℕ). if has s ss then ok_for stream.stream_id okm after s else [] in
      rw (after-source, handle_subscribe_ok)
        (forward_subscribe_ok-written stream.stream_id stream.subscribers okm after s
            (rw after-members refl)
          ∙ ap (λ ss. written after s ++ once ss) after-members
          ∙ ap (λ w. w ++ once (s ∷ [])) (after-silent d)
          ∙ ap (λ o. written g s ++ o) (has-once s (ok_for stream.stream_id okm after s))
          ∙ ap (λ o. written g s ++ ok_under okm o) found)

-- A SUBSCRIBE for an announced namespace which no stream of its publisher serves is written to the
-- publisher under the drawn identifier. The publisher's SUBSCRIBE_OK under that identifier is then
-- written to the subscriber under the identifier that the subscriber chose, and is otherwise the
-- publisher's. The subscriber is not the publisher, uses neither the identifier nor the new stream yet,
-- and has no other stream of the same name.
pub handle_subscribe-answered :
    (p s : ℕ) (m : Subscribe) (subid : ℕ) (ok : SubscribeOk) (g : Relay)
    → s ≢ p
    → get_publisher m.track_namespace g.namespaces ≡ some p
    → stream_id_get_stream (get_stream_id m) g.streams (g.handlers p).incoming ≡ none
    → find m.subscribe_id (g.handlers s).subscribed ≡ none
    → leads g.next (g.handlers s).subscribed ≡ false
    → get_sub_id (get_stream_id m) g.streams (g.handlers s).subscribed ≡ none
    → let asked = handle_subscribe s m subid g in
      let answered = handle_subscribe_ok p (record ok { subscribe_id = subid }) asked in
      (written asked p ≡ written g p ++ (subscribe (record m { subscribe_id = subid }) ∷ []))
      × (written answered s
          ≡ written g s ++ (subscribe_ok (record ok { subscribe_id = m.subscribe_id }) ∷ []))
unfolding after
handle_subscribe-answered p s m subid ok g d e n new free other =
    rw (handle_subscribe-anew p s m subid g e n) (
      after-asked p s m subid g,
      answer-after p s m subid g ok d (after-found p s m subid g new free other),
    )

-- After such a SUBSCRIBE the drawn identifier leads to the new stream, whose one subscriber is the
-- sender, and the stream's name leads to the identifier that the sender chose.
pub handle_subscribe-leads :
    (p s : ℕ) (m : Subscribe) (subid : ℕ) (g : Relay)
    → get_publisher m.track_namespace g.namespaces ≡ some p
    → stream_id_get_stream (get_stream_id m) g.streams (g.handlers p).incoming ≡ none
    → find m.subscribe_id (g.handlers s).subscribed ≡ none
    → leads g.next (g.handlers s).subscribed ≡ false
    → get_sub_id (get_stream_id m) g.streams (g.handlers s).subscribed ≡ none
    → let asked = handle_subscribe s m subid g in
      (find subid (asked.handlers p).incoming ≡ some g.next)
      × ((asked.streams g.next).subscribers ≡ s ∷ [])
      × (get_sub_id (asked.streams g.next).stream_id asked.streams (asked.handlers s).subscribed
          ≡ some m.subscribe_id)
unfolding after
handle_subscribe-leads p s m subid g e n new free other =
    rw (handle_subscribe-anew p s m subid g e n) (
      after-source p s m subid g,
      after-members p s m subid g,
      after-found p s m subid g new free other,
    )
