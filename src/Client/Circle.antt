-- ===== src/Client/Circle.antt =====
-- moq-go/moqt: a subscription from the subscriber through the relay to the publisher, and its
-- answer back.
use moq_quic_bbrv3_go.Prelude.{
  ℕ, ◌≡◌, ◌≢◌, refl, ◌∙◌, arith, false, List, [], ◌∷◌, ◌++◌, none, some, find, assign, find-assign,
}
use moq_quic_bbrv3_go.Wire.Messages.{Subscribe, SubscribeOk, subscribe, subscribe_ok}
use moq_quic_bbrv3_go.Relay.State.{
  Relay, get_stream_id, get_sub_id, stream_id_get_stream, get_publisher,
}
use moq_quic_bbrv3_go.Relay.Calls.{handle_subscribe, handle_subscribe_ok}
use moq_quic_bbrv3_go.Relay.Members.{leads}
use moq_quic_bbrv3_go.Relay.Delivery.{written}
use moq_quic_bbrv3_go.Relay.Answer.{handle_subscribe-answered}
use moq_quic_bbrv3_go.Client.State.{
  PubStream, PubHandler, new_pub_stream, find_announced, add_offered, add_found, offer_stream,
  pub_handle_subscribe, accept_message, SubStream, SubHandler, subscribe_message, new_sub_stream,
  sub_subscribe, offer_found, sub_handle_subscribe_ok,
}

pub_handle_subscribe-open :
    (m : Subscribe) (streams : List (ℕ × PubStream)) (h : PubHandler)
    → find_announced m.track_namespace h.announced ≡ some streams
    → h.is_closed ≡ false
    → pub_handle_subscribe m h ≡ some (add_offered m streams h)
unfolding pub_handle_subscribe offer_stream
pub_handle_subscribe-open m streams h e c = rw (e, c) refl

sub_handle_subscribe_ok-open :
    (m : SubscribeOk) (a : SubStream) (h : SubHandler)
    → find m.subscribe_id h.subscribed ≡ some a
    → h.is_closed ≡ false
    → sub_handle_subscribe_ok m h ≡ some (add_found a h)
unfolding sub_handle_subscribe_ok offer_found
sub_handle_subscribe_ok-open m a h e c = rw (e, c) refl

pub find_assigned :
    (k : ℕ) (a : SubStream) (m : List (ℕ × SubStream)) → find k (assign k a m) ≡ some a
find_assigned k a m = find-assign k k a m ∙ ground arith

-- One subscription: what the subscriber's message is at the relay, what the relay asks of the publisher,
-- what the publisher accepts, and what the subscriber is answered.
pub record Completes (m : Subscribe) (p s subid : ℕ) (g : Relay) (pub' : PubHandler)
    (sub : SubHandler) : Type 0 where
  -- The publisher is asked under the drawn identifier, and offers the track.
  pub asked :
      written (handle_subscribe s m subid g) p
      ≡ written g p ++ (subscribe (record m { subscribe_id = subid }) ∷ [])
  pub publisher : PubHandler
  pub offers : pub_handle_subscribe (record m { subscribe_id = subid }) pub' ≡ some publisher
  pub track : PubStream
  pub offered : publisher.offered ≡ pub'.offered ++ (track ∷ [])
  pub track_name : track.stream_id ≡ get_stream_id m
  -- The answer of `Accept` comes to the subscriber under its own identifier.
  pub answered :
      written (handle_subscribe_ok p (accept_message track) (handle_subscribe s m subid g)) s
      ≡ written g s
        ++ (subscribe_ok (record (accept_message track) { subscribe_id = m.subscribe_id }) ∷ [])
  pub subscriber : SubHandler
  pub found :
      sub_handle_subscribe_ok
        (record (accept_message track) { subscribe_id = m.subscribe_id })
        (sub_subscribe m.track_namespace m.track_name m.track_alias m.subscribe_id sub)
      ≡ some subscriber
  pub stream : SubStream
  pub delivered : subscriber.offered ≡ sub.offered ++ (stream ∷ [])
  pub stream_name : stream.stream_id ≡ get_stream_id m

-- A subscriber's SUBSCRIBE for a namespace that the publisher has announced, which the relay does not
-- serve yet, makes the publisher offer the track to its program, and the publisher's acceptance makes
-- the subscriber offer the stream of the same track to its program, under the identifier that it chose.
-- Both have their channels open; the subscriber at the relay is not the publisher, uses neither the
-- identifier nor the new stream yet, and has no other stream of the same name.
pub sub_subscribe-Completes :
    (ns name : List ℕ) (alias k subid p s : ℕ) (g : Relay) (pub' : PubHandler) (sub : SubHandler)
    (streams : List (ℕ × PubStream))
    → let m = subscribe_message ns name alias k in
      s ≢ p
      → get_publisher ns g.namespaces ≡ some p
      → stream_id_get_stream (get_stream_id m) g.streams (g.handlers p).incoming ≡ none
      → find k (g.handlers s).subscribed ≡ none
      → leads g.next (g.handlers s).subscribed ≡ false
      → get_sub_id (get_stream_id m) g.streams (g.handlers s).subscribed ≡ none
      → find_announced ns pub'.announced ≡ some streams
      → pub'.is_closed ≡ false
      → sub.is_closed ≡ false
      → Completes m p s subid g pub' sub
unfolding sub_subscribe new_sub_stream new_pub_stream get_stream_id add_offered add_found
sub_subscribe-Completes ns name alias k subid p s g pub' sub streams d e n new free other a pc sc =
    let m = subscribe_message ns name alias k in
    let asked = record m { subscribe_id = subid } in
    let track = new_pub_stream asked in
    let stream = new_sub_stream (get_stream_id m) k in
    let asking = sub_subscribe ns name alias k sub in
    let r = handle_subscribe-answered p s m subid (accept_message track) g d e n new free other in
    record {
      asked = r.0;
      publisher = add_offered asked streams pub';
      offers = pub_handle_subscribe-open asked streams pub' a pc;
      track = track;
      offered = refl;
      track_name = refl;
      answered = r.1;
      subscriber = add_found stream asking;
      found =
          sub_handle_subscribe_ok-open (record (accept_message track) { subscribe_id = k }) stream
            asking (find_assigned k stream sub.subscribed) sc;
      stream = stream;
      delivered = refl;
      stream_name = refl;
    }
