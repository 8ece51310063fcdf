-- ===== src/Relay/Runs.antt =====
-- moq-go/moqt: the theorems on a relay with a publisher and two subscribers.
use moq_quic_bbrv3_go.Prelude.{ℕ, ◌≡◌, refl, List, [], ◌∷◌, ◌++◌, if◌then◌else◌, has}
use moq_quic_bbrv3_go.Wire.Messages.{Announce, Subscribe, SubscribeOk}
use moq_quic_bbrv3_go.Relay.State.{
  get_publisher, write, put_publisher, get_stream_id, stream_id_get_stream, add_subscribed,
  add_subscriber, add_incoming, RelayHandler, new_session_manager, new_relay_handler,
  new_relay_stream,
}
use moq_quic_bbrv3_go.Relay.Calls.{
  add_session, set_role, add_publisher, announce_to, handle_subscribe, get_object_stream, choose,
  send_subscribe, Event, opened, greeted, announced, subscribed, accepted, closed, apply, run_relay,
  handle_announce, forward_subscribe_ok, join_stream,
}
use moq_quic_bbrv3_go.Relay.Members.{Linked}
use moq_quic_bbrv3_go.Relay.Refinement.{Refines, AllFresh, trace, Fresh, run_relay-Refines}
use moq_quic_bbrv3_go.Relay.State.{RelayStream}
use moq_quic_bbrv3_go.Relay.Distinct.{forward_subscribe_ok-run_relay}
use moq_quic_bbrv3_go.Relay.Delivery.{written, ok_for}

new_session_manager-Linked : Linked new_session_manager
unfolding new_session_manager new_relay_handler new_relay_stream
new_session_manager-Linked = record {
  linked = λ id r j. cc;
  bounded = λ id r l. cc;
  unused = λ r n. refl;
}

abbrev named : Announce
named = record { track_namespace = 97 ∷ []; params = [] }

abbrev wish : ℕ → Subscribe
wish k = record {
  subscribe_id = k;
  track_alias = 0;
  track_namespace = 97 ∷ [];
  track_name = 98 ∷ [];
  filter_type = 1;
  start_group = 0;
  start_object = 0;
  end_group = 0;
  end_object = 0;
  params = [];
}

abbrev answer : SubscribeOk
answer = record {
  subscribe_id = 77;
  expires = 5;
  content_exists = 0;
  largest_group_id = 0;
  largest_object_id = 0;
}

-- Session 1 publishes, 2 and 3 subscribe, and 2 closes.
abbrev calls : List Event
calls =
    opened 1
    ∷ greeted 1 1
    ∷ opened 2
    ∷ greeted 2 2
    ∷ opened 3
    ∷ greeted 3 2
    ∷ announced 1 named
    ∷ subscribed 2 (wish 8) 77
    ∷ subscribed 3 (wish 9) 78
    ∷ accepted 1 answer
    ∷ closed 2
    ∷ []

calls-AllFresh : AllFresh calls new_session_manager
unfolding AllFresh Fresh apply new_session_manager new_relay_handler new_relay_stream add_session
    set_role handle_announce add_publisher announce_to write put_publisher handle_subscribe
    get_publisher get_object_stream choose send_subscribe stream_id_get_stream join_stream
    add_subscribed add_subscriber add_incoming get_stream_id
calls-AllFresh = (tt, (tt, (tt, (tt, (tt, (tt, (tt, (refl, (refl, (tt, (tt, tt)))))))))))

run_relay-Refines_example :
    Refines
      (trace calls new_session_manager)
      new_session_manager
      (run_relay calls new_session_manager)
run_relay-Refines_example =
    run_relay-Refines calls new_session_manager new_session_manager-Linked calls-AllFresh

abbrev handler : ℕ → List (ℕ × ℕ) → RelayHandler
handler role m = record { remote_role = role; incoming = []; subscribed = m; written = [] }

-- The calls up to the second SUBSCRIBE.
abbrev six : List Event
six =
    opened 1
    ∷ opened 2
    ∷ greeted 2 2
    ∷ announced 1 named
    ∷ subscribed 2 (wish 8) 77
    ∷ subscribed 3 (wish 9) 78
    ∷ []

abbrev shared : RelayStream
shared = (run_relay six new_session_manager).streams 0

forward_subscribe_ok-run_relay_example :
    written
      (forward_subscribe_ok shared.stream_id shared.subscribers answer
        (run_relay six new_session_manager))
      2
    ≡ written (run_relay six new_session_manager) 2
      ++ (if has 2 shared.subscribers
          then ok_for shared.stream_id answer (run_relay six new_session_manager) 2
          else [])
forward_subscribe_ok-run_relay_example = forward_subscribe_ok-run_relay six 0 answer 2
