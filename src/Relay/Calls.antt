-- ===== src/Relay/Calls.antt =====
-- moq-go/moqt: relayhandler.go, the handlers of messages, and sequences of their calls. The identifier
-- that `SendSubscribe` draws at random is an argument. A message that is written by a goroutine is
-- written at once.
use moq_quic_bbrv3_go.Prelude.{
  ℕ, ◌+◌, ◌==◌, Bool, true, false, ◌&&◌, ◌||◌, not, if◌then◌else◌, List, [], ◌∷◌, ◌++◌, Option,
  none, some, find, include, exclude,
}
use moq_quic_bbrv3_go.Wire.Params.{Object}
use moq_quic_bbrv3_go.Wire.Messages.{
  Announce, Subscribe, SubscribeOk, announce, announce_ok, subscribe, subscribe_ok,
}
use moq_quic_bbrv3_go.Session.State.{role_relay, role_subscriber}
use moq_quic_bbrv3_go.Relay.State.{
  Relay, new_relay_stream, contains, get_stream_id, get_sub_id, stream_id_get_stream, get_publisher,
  put_publisher, on_handler, on_stream, write, add_subscriber, remove_subscriber, add_incoming,
  add_subscribed,
}

unfoldable pub add_session : ℕ → Relay → Relay
add_session id g = record g { sessions = include id g.sessions }

-- The role that the handshake has found.
unfoldable pub set_role : ℕ → ℕ → Relay → Relay
set_role id role g = on_handler id (λ h. record h { remote_role = role }) g

unfoldable pub remove_session : ℕ → Relay → Relay
remove_session id g = record g { sessions = exclude id g.sessions }

-- The loop of `addPublisher` over the sessions.
unfoldable pub announce_to : List ℕ → List ℕ → ℕ → Relay → Relay
announce_to ns [] publisher g = g
announce_to ns (peer ∷ peers) publisher g =
    let role = (g.handlers peer).remote_role in
    let told = write peer (announce (record { track_namespace = ns; params = [] })) g in
    announce_to ns peers publisher (
      if (role == role_relay || role == role_subscriber) && not (peer == publisher)
      then told
      else g)

unfoldable pub add_publisher : List ℕ → ℕ → Relay → Relay
add_publisher ns publisher g =
    announce_to ns g.sessions publisher
      (record g { namespaces = put_publisher ns publisher g.namespaces })

unfoldable pub handle_announce : ℕ → Announce → Relay → Relay
handle_announce publisher m g =
    write publisher (announce_ok m.track_namespace) (add_publisher m.track_namespace publisher g)

-- The new stream, and the store.
unfoldable pub send_subscribe : ℕ → Subscribe → ℕ → Relay → Relay × ℕ
send_subscribe publisher m subid g =
    let made = record (on_stream g.next (λ _. new_relay_stream subid (get_stream_id m)) g) {
      next = g.next + 1;
    } in
    (
      write publisher (subscribe (record m { subscribe_id = subid }))
          (add_incoming publisher subid g.next made),
      g.next,
    )

-- ".catalog" and ".mp4"
abbrev pub dot_catalog : List ℕ
dot_catalog = 46 ∷ 99 ∷ 97 ∷ 116 ∷ 97 ∷ 108 ∷ 111 ∷ 103 ∷ []

abbrev pub dot_mp4 : List ℕ
dot_mp4 = 46 ∷ 109 ∷ 112 ∷ 52 ∷ []

-- A stream that was found is taken unless fresh copies are wanted; otherwise the made one is.
unfoldable pub choose : Option ℕ → Bool → Relay × ℕ → Relay → Relay × Bool × ℕ
choose none again made g = (made.0, false, made.1)
choose (some r) true made g = (made.0, false, made.1)
choose (some r) false made g = (g, true, r)

-- The store, whether the stream was there, and the stream.
unfoldable pub get_object_stream : ℕ → Subscribe → ℕ → Relay → Relay × Bool × ℕ
get_object_stream publisher m subid g =
    choose (stream_id_get_stream (get_stream_id m) g.streams (g.handlers publisher).incoming)
      (contains dot_catalog m.track_name || contains dot_mp4 m.track_name)
      (send_subscribe publisher m subid g) g

-- The part of `HandleSubscribe` behind the stream.
unfoldable pub join_stream : ℕ → Subscribe → Bool → ℕ → Relay → Relay
join_stream subscriber m is_cached r g =
    let answered =
      write subscriber
        (subscribe_ok (record {
          subscribe_id = m.subscribe_id;
          expires = 1024;
          content_exists = 0;
          largest_group_id = 0;
          largest_object_id = 0;
        }))
        g in
    add_subscribed subscriber m.subscribe_id r
      (add_subscriber r subscriber (if is_cached then answered else g))

unfoldable pub handle_subscribe : ℕ → Subscribe → ℕ → Relay → Relay
handle_subscribe subscriber m subid g = elim (get_publisher m.track_namespace g.namespaces) [
  | none ↦ g
  | some publisher ↦
      let (g1, is_cached, r) = get_object_stream publisher m subid g in
      join_stream subscriber m is_cached r g1
]

unfoldable pub send_subscribe_ok : List ℕ → SubscribeOk → ℕ → Relay → Relay
send_subscribe_ok id m subscriber g =
    elim (get_sub_id id g.streams (g.handlers subscriber).subscribed) [
      | none ↦ g
      | some subid ↦ write subscriber (subscribe_ok (record m { subscribe_id = subid })) g
    ]

-- The loop of `ForwardSubscribeOk`.
unfoldable pub forward_subscribe_ok : List ℕ → List ℕ → SubscribeOk → Relay → Relay
forward_subscribe_ok id [] m g = g
forward_subscribe_ok id (s ∷ ss) m g = forward_subscribe_ok id ss m (send_subscribe_ok id m s g)

unfoldable pub handle_subscribe_ok : ℕ → SubscribeOk → Relay → Relay
handle_subscribe_ok publisher m g = elim (find m.subscribe_id (g.handlers publisher).incoming) [
  | none ↦ g
  | some r ↦ forward_subscribe_ok (g.streams r).stream_id (g.streams r).subscribers m g
]

unfoldable pub handle_unsubscribe : ℕ → ℕ → Relay → Relay
handle_unsubscribe subscriber subid g = elim (find subid (g.handlers subscriber).subscribed) [
  | none ↦ g
  | some r ↦ remove_subscriber subscriber r g
]

-- The loop of `HandleClose` over the subscribed streams.
unfoldable pub leave_streams : ℕ → List (ℕ × ℕ) → Relay → Relay
leave_streams id [] g = g
leave_streams id ((k, r) ∷ m) g = leave_streams id m (remove_subscriber id r g)

-- `MOQTSession.Close` of a relay's session. No entry of `namespaces` is removed.
unfoldable pub handle_close : ℕ → Relay → Relay
handle_close id g = remove_session id (leave_streams id (g.handlers id).subscribed g)

-- An object that `ProcessObjects` has read.
unfoldable pub cache_object : ℕ → Object → Relay → Relay
cache_object r o g = on_stream r (λ s. record s { object_cache = s.object_cache ++ (o ∷ []) }) g

pub data Event : Type 0 where
  opened : (id : ℕ) → Event
  greeted : (id role : ℕ) → Event
  announced : (id : ℕ) → Announce → Event
  subscribed : (id : ℕ) → Subscribe → (subid : ℕ) → Event
  accepted : (id : ℕ) → SubscribeOk → Event
  unsubscribed : (id subid : ℕ) → Event
  arrived : (stream : ℕ) → Object → Event
  closed : (id : ℕ) → Event

unfoldable pub apply : Event → Relay → Relay
apply (opened id) g = add_session id g
apply (greeted id role) g = set_role id role g
apply (announced id m) g = handle_announce id m g
apply (subscribed id m subid) g = handle_subscribe id m subid g
apply (accepted id m) g = handle_subscribe_ok id m g
apply (unsubscribed id subid) g = handle_unsubscribe id subid g
apply (arrived r o) g = cache_object r o g
apply (closed id) g = handle_close id g

unfoldable pub run_relay : List Event → Relay → Relay
run_relay [] g = g
run_relay (e ∷ es) g = run_relay es (apply e g)
