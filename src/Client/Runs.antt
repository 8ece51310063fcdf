-- ===== src/Client/Runs.antt =====
-- moq-go/moqt: the theorems on a publisher and a subscriber of one track.
use moq_quic_bbrv3_go.Prelude.{refl, arith, false, List, [], ◌∷◌, ◌≡◌, some}
use moq_quic_bbrv3_go.Wire.Params.{Object}
use moq_quic_bbrv3_go.Wire.Messages.{Subscribe}
use moq_quic_bbrv3_go.Wire.Piping.{
  Piping, opened, wait, write_object, close_stream, collect, send, start, writes, closes, follows,
  waits, collects, sends,
}
use moq_quic_bbrv3_go.Relay.State.{
  Relay, get_publisher, stream_id_get_stream, get_sub_id, get_stream_id,
}
use moq_quic_bbrv3_go.Relay.Calls.{handle_subscribe}
use moq_quic_bbrv3_go.Relay.Forward.{forward_stream}
use moq_quic_bbrv3_go.Client.Track.{Travels, Follows, sub_subscribe-Travels}
use moq_quic_bbrv3_go.Client.State.{
  PubHandler, SubHandler, subscribe_message, sub_subscribe, new_sub_stream, new_track,
  new_pub_stream,
}
use moq_quic_bbrv3_go.Client.Circle.{Completes, sub_subscribe-Completes}

-- Session 1 has announced "a".
abbrev relay : Relay
relay = record {
  handlers = λ _. record { remote_role = 1; incoming = []; subscribed = []; written = [] };
  streams = λ _. record { sub_id = 0; stream_id = []; subscribers = []; object_cache = [] };
  next = 0;
  sessions = 2 ∷ 1 ∷ [];
  namespaces = (97 ∷ [], 1) ∷ [];
}

abbrev publisher : PubHandler
publisher = record {
  announced = (97 ∷ [], []) ∷ [];
  offered = [];
  is_closed = false;
  closed = [];
  written = [];
}

abbrev subscriber : SubHandler
subscriber = record {
  subscribed = [];
  offered = [];
  announces = [];
  is_closed = false;
  written = [];
}

sub_subscribe-Completes_example :
    Completes (subscribe_message (97 ∷ []) (98 ∷ []) 3 8) 1 2 77 relay publisher subscriber
unfolding get_publisher stream_id_get_stream get_sub_id
sub_subscribe-Completes_example =
    sub_subscribe-Completes (97 ∷ []) (98 ∷ []) 3 8 77 1 2 relay publisher subscriber []
      (omega arith) refl refl refl refl refl refl refl refl

-- Two objects of the track, which the subscriber asked for under the identifier 8.
abbrev first_object : Object
first_object = record { group_id = 1; id = 0; payload = 104 ∷ 105 ∷ [] }

abbrev second_object : Object
second_object = record { group_id = 1; id = 1; payload = [] }

abbrev objects : List Object
objects = first_object ∷ second_object ∷ []

abbrev asking : Subscribe
asking = subscribe_message (97 ∷ []) (98 ∷ []) 3 8

abbrev asked : Relay
asked = handle_subscribe 2 asking 77 relay

-- A follower that waits, is woken once both objects are there and the stream is closed, and writes them.
abbrev filled : Piping
filled = close_stream (write_object second_object (write_object first_object (wait opened)))

abbrev follower : Piping
follower = send objects (collect filled)

follower-Follows : Follows objects follower
unfolding wait write_object close_stream collect send
follower-Follows =
    let r = closes (writes second_object (writes first_object (follows start (waits refl)))) in
    record {
      reached = follows (follows r (collects refl)) (sends objects refl);
      followed = refl;
      over = refl;
    }

sub_subscribe-Travels_example :
    (t : Travels 3 1 2 0
      (new_track (new_pub_stream (record asking { subscribe_id = 77 })))
      follower
      follower
      (asked.streams 0).stream_id
      asked
      (sub_subscribe (97 ∷ []) (98 ∷ []) 3 8 subscriber)
      (new_sub_stream (get_stream_id asking) 8))
    × (forward_stream 0 t.relayed (λ _. follower) asked ≡ (2, some t.downstream) ∷ [])
unfolding get_publisher stream_id_get_stream get_sub_id wait write_object close_stream collect send
sub_subscribe-Travels_example =
    sub_subscribe-Travels 3 8 77 1 2 3 (97 ∷ []) (98 ∷ []) objects follower (λ _. follower) relay
      subscriber
      ((omega arith, omega arith, omega arith), ((omega arith, omega arith, omega arith), tt))
      follower-Follows follower-Follows (omega arith) (omega arith) (omega arith) refl refl refl
      refl refl
