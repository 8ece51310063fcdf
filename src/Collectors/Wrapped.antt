-- ===== src/Collectors/Wrapped.antt =====
-- quic-go-bbr/internal/congestion/stats_wrapper.go: a congestion controller of any kind, with a
-- collector that listens in. The controller is the interface SendAlgorithmWithDebugInfos.
use Prim.Native.String.{String}
use text.Mathlib.Text.{◌==◌ as str_eq}
use moq_quic_bbrv3_go.Prelude.{ℕ, Bool, List, [], ◌∷◌, if◌then◌else◌}
use moq_quic_bbrv3_go.Collectors.Calls.{cwnd, bytes_sent, bytes_lost, retransmit, state, inflight}
use moq_quic_bbrv3_go.Collectors.Atomic.{
  StatsCollector, CollectorConfig, new_stats_collector, collect, should_log,
}

-- The interface. A call that changes the controller returns it; the others only read it.
pub record SendAlgorithm (S : Type 0) : Type 0 where
  pub time_until_send : ℕ → S → ℕ
  pub has_pacing_budget : ℕ → S → S × Bool
  pub on_packet_sent : (sent_time in_flight number bytes : ℕ) → Bool → S → S
  pub can_send : ℕ → S → Bool
  pub maybe_exit_slow_start : S → S
  pub on_packet_acked : (number acked prior_in_flight event_time : ℕ) → S → S
  pub on_congestion_event : (number lost prior_in_flight : ℕ) → S → S
  pub on_retransmission_timeout : Bool → S → S
  pub set_max_datagram_size : ℕ → S → S
  pub in_slow_start : S → Bool
  pub in_recovery : S → Bool
  pub get_congestion_window : S → ℕ

-- algorithmWithStats
pub record AlgorithmWithStats (S V : Type 0) : Type 0 where
  pub inner : S
  pub stats : StatsCollector V
  pub algorithm : String

-- A call of the interface; the clock that ShouldLog reads is `wall`.
pub data AlgorithmEvent : Type 0 where
  asked_time : (in_flight : ℕ) → AlgorithmEvent
  asked_budget : (now : ℕ) → AlgorithmEvent
  sent : (sent_time in_flight number bytes : ℕ) → Bool → AlgorithmEvent
  asked_send : (in_flight : ℕ) → AlgorithmEvent
  exit_slow_start : AlgorithmEvent
  acked : (wall number bytes prior_in_flight event_time : ℕ) → AlgorithmEvent
  congested : (number lost prior_in_flight : ℕ) → AlgorithmEvent
  timed_out : Bool → AlgorithmEvent
  resized : ℕ → AlgorithmEvent
  asked_window : AlgorithmEvent

-- What a call answers.
pub data Answer : Type 0 where
  nothing : Answer
  number : ℕ → Answer
  verdict : Bool → Answer

module _ {S : Type 0} (alg : SendAlgorithm S) where
  unfoldable pub get_cubic_state : S → String
  get_cubic_state s =
      if alg.in_slow_start s
      then "SlowStart"
      else if alg.in_recovery s
      then "Recovery"
      else "CongestionAvoidance"

  unfoldable pub get_bbr_state : S → String
  get_bbr_state s =
      if alg.in_slow_start s then "Startup" else if alg.in_recovery s then "Recovery" else "ProbeBW"

unfoldable pub wrap_with_stats : {S V : Type 0} → S → CollectorConfig → ℕ → AlgorithmWithStats S V
wrap_with_stats inner config wall =
    let name = if str_eq config.algorithm "" then "CUBIC" else config.algorithm in
    record {
      inner = inner;
      stats = new_stats_collector (record config { algorithm = name }) wall;
      algorithm = name;
    }

module _ {S V : Type 0} (alg : SendAlgorithm S) where
  unfoldable pub on_packet_sent :
      ℕ → ℕ → ℕ → ℕ → Bool → AlgorithmWithStats S V → AlgorithmWithStats S V
  on_packet_sent t f n k r a = record a {
    stats = if r then collect (bytes_sent k) a.stats else a.stats;
    inner = alg.on_packet_sent t f n k r a.inner;
  }

  -- Log hands a snapshot on and changes nothing.
  unfoldable pub on_packet_acked :
      ℕ → ℕ → ℕ → ℕ → ℕ → AlgorithmWithStats S V → AlgorithmWithStats S V
  unfolding get_cubic_state get_bbr_state
  on_packet_acked wall n k p t a =
      let inner = alg.on_packet_acked n k p t a.inner in
      let stats1 =
        collect (inflight p) (collect (cwnd (alg.get_congestion_window inner)) a.stats) in
      let name =
        if str_eq a.algorithm "CUBIC" then get_cubic_state alg inner else get_bbr_state alg inner in
      record a { inner = inner; stats = (should_log wall (collect (state name) stats1)).1 }

  unfoldable pub on_congestion_event : ℕ → ℕ → ℕ → AlgorithmWithStats S V → AlgorithmWithStats S V
  on_congestion_event n k p a = record a {
    stats = collect retransmit (collect (bytes_lost k) a.stats);
    inner = alg.on_congestion_event n k p a.inner;
  }

  unfoldable pub get_congestion_window : AlgorithmWithStats S V → AlgorithmWithStats S V × ℕ
  get_congestion_window a =
      let w = alg.get_congestion_window a.inner in
      (record a { stats = collect (cwnd w) a.stats }, w)

  unfoldable pub wrapped_step :
      AlgorithmEvent → AlgorithmWithStats S V → AlgorithmWithStats S V × Answer
  unfolding on_packet_sent on_packet_acked on_congestion_event get_congestion_window
  wrapped_step (asked_time f) a = (a, number (alg.time_until_send f a.inner))
  wrapped_step (asked_budget t) a =
      let (inner, b) = alg.has_pacing_budget t a.inner in (record a { inner = inner }, verdict b)
  wrapped_step (sent t f n k r) a = (on_packet_sent t f n k r a, nothing)
  wrapped_step (asked_send f) a = (a, verdict (alg.can_send f a.inner))
  wrapped_step exit_slow_start a = (record a { inner = alg.maybe_exit_slow_start a.inner }, nothing)
  wrapped_step (acked wall n k p t) a = (on_packet_acked wall n k p t a, nothing)
  wrapped_step (congested n k p) a = (on_congestion_event n k p a, nothing)
  wrapped_step (timed_out r) a =
      (record a { inner = alg.on_retransmission_timeout r a.inner }, nothing)
  wrapped_step (resized k) a = (record a { inner = alg.set_max_datagram_size k a.inner }, nothing)
  wrapped_step asked_window a = let (a', w) = get_congestion_window a in (a', number w)

  -- The calls of a connection, and what they answer.
  unfoldable pub wrapped_run :
      List AlgorithmEvent → AlgorithmWithStats S V → AlgorithmWithStats S V × List Answer
  wrapped_run [] a = (a, [])
  wrapped_run (e ∷ es) a =
      let (a1, x) = wrapped_step e a in let (a2, xs) = wrapped_run es a1 in (a2, x ∷ xs)
