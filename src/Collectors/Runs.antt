-- ===== src/Collectors/Runs.antt =====
-- quic-go-bbr/internal/congestion: the theorems on the collectors at concrete inputs, and tests.
use moq_quic_bbrv3_go.Prelude.{
  ℕ, ◌==◌, ◌&&◌, ◌+◌, ◌*◌, ◌≤◌, ◌≡◌, refl, true, false, List, [], ◌∷◌, none, some, length, wrap64,
  arith,
}
use moq_quic_bbrv3_go.Bbr3.Stats.{StatsConfig}
use moq_quic_bbrv3_go.Bbr3.Float.{fixed}
use moq_quic_bbrv3_go.Bbr3.State.{Sender}
use moq_quic_bbrv3_go.Bbr3.Events as Bbr
use moq_quic_bbrv3_go.Collectors.Calls.{Call, cwnd, bytes_sent, rtt, state, each}
use moq_quic_bbrv3_go.Collectors.Names.{known}
use moq_quic_bbrv3_go.Collectors.Atomic.{CollectorConfig, or_nil}
use moq_quic_bbrv3_go.Collectors.StatsV2
use moq_quic_bbrv3_go.Collectors.StatsV2.{StatsConfigV2, StatsV2}
use moq_quic_bbrv3_go.Collectors.StatsOptimized
use moq_quic_bbrv3_go.Collectors.StatsOptimized.{
  StatsConfigOptimized, StatsOptimized, QueuedEvent, call, entering, sending, working, noticing,
  draining, switched, queued_run, new_stats_optimized,
}
use moq_quic_bbrv3_go.Collectors.Agree.{
  reference, get_stats_snapshot-number, get_stats_snapshot-gather,
}
use moq_quic_bbrv3_go.Collectors.Racing.{schedule, pick, move_at, move, begin_at, begin, new_system}
use moq_quic_bbrv3_go.Collectors.Owed.{samples, total}
use moq_quic_bbrv3_go.Collectors.Quiescent.{least, schedule-exact}
use moq_quic_bbrv3_go.Collectors.Overtaking.{overtaken}
use moq_quic_bbrv3_go.Collectors.Logging.{
  log_pick, log_move_at, log_move, LogPick, log_moves, log_schedule, new_log_system, latest, Spaced,
  log_schedule-Spaced,
}
use moq_quic_bbrv3_go.Collectors.Wrapped.{
  SendAlgorithm, AlgorithmWithStats, AlgorithmEvent, sent, acked, congested, asked_window,
  asked_send, wrapped_run, wrap_with_stats,
}
use moq_quic_bbrv3_go.Collectors.Transparent.{bare_run, wrap_with_stats-bare}

-- Two round-trip times, a state that has a number and one that has none.
abbrev busy : List Call
busy = rtt 5_000 ∷ bytes_sent 1200 ∷ state "Drain" ∷ rtt 3_000 ∷ cwnd 12_000 ∷ state "Idle" ∷ []

abbrev locked_config : StatsConfig
locked_config = record { enabled = true; log_interval = 0; conn_id = "a" }

abbrev numbered_config : StatsConfigV2
numbered_config = record { enabled = true; log_interval = 7 }

abbrev queued_config : StatsConfigOptimized
queued_config = record { enabled = true; log_interval = 7; conn_id = some "b" }

get_stats_snapshot-number_example :
    StatsV2.get_stats_snapshot (each StatsV2.number busy (StatsV2.new_stats_v2 numbered_config 5))
    ≡ record (reference locked_config 9 busy) {
      state = known (reference locked_config 9 busy).state;
    }
get_stats_snapshot-number_example =
    get_stats_snapshot-number numbered_config locked_config 5 9 busy (omega arith)

get_stats_snapshot-gather_example :
    StatsOptimized.get_stats_snapshot
      (each StatsOptimized.gather busy (new_stats_optimized queued_config 5))
    ≡ record (reference locked_config 9 busy) { min_rtt = 0; conn_id = or_nil "" (some "b") }
get_stats_snapshot-gather_example =
    get_stats_snapshot-gather queued_config locked_config 5 9 busy (omega arith)

-- Two snapshots, one of them logged before the collector is switched off.
abbrev logged_twice : List QueuedEvent
logged_twice = call (rtt 5) ∷ entering ∷ sending ∷ working ∷ call (rtt 3) ∷ entering ∷ sending ∷ []

abbrev halfway : StatsOptimized
halfway = elim (queued_run logged_twice (new_stats_optimized queued_config 5)) [
  | none ↦ new_stats_optimized queued_config 0
  | some s ↦ s
]

abbrev emptied : List QueuedEvent
emptied = entering ∷ sending ∷ noticing ∷ draining ∷ draining ∷ []

abbrev finished : StatsOptimized
finished = elim (queued_run (switched false ∷ emptied) halfway) [ none ↦ halfway | some s ↦ s ]

abbrev going_off : StatsOptimized
going_off = elim (queued_run (switched false ∷ []) halfway) [ none ↦ halfway | some s ↦ s ]

-- A snapshot that Log sends after the collector was switched off, its test passed before, is not logged.
abbrev late : List QueuedEvent
late = entering ∷ switched false ∷ noticing ∷ draining ∷ sending ∷ []

late_test :
    elim (queued_run late (new_stats_optimized queued_config 5)) [
      | none ↦ false
      | some s ↦ length s.log_chan == 1 && s.workers + s.drainers == 0
    ]
    ≡ true
unfolding queued_run StatsOptimized.queued_step StatsOptimized.log_enters StatsOptimized.log_sends
    StatsOptimized.notice_stop StatsOptimized.drain StatsOptimized.drain_on
    StatsOptimized.set_enabled StatsOptimized.stop new_stats_optimized StatsOptimized.start
late_test = refl

-- One goroutine overtakes the other.
schedule-exact_example :
    let m = (schedule (overtaken 5 7) (new_system 2)).cells in
    let seen = samples (overtaken 5 7) (new_system 2) in
    (m.min_rtt ≡ least seen)
    × (m.rtt_sum ≡ wrap64 (total seen))
    × (m.rtt_count ≡ wrap64 (length seen))
unfolding schedule pick move_at move begin_at begin new_system
schedule-exact_example = schedule-exact 2 (overtaken 5 7) refl

-- Both goroutines read the old time; only one swaps it.
abbrev race : List LogPick
race =
    log_moves 0 0
    ∷ log_moves 0 0
    ∷ log_moves 1 0
    ∷ log_moves 1 0
    ∷ log_moves 0 115
    ∷ log_moves 1 116
    ∷ log_moves 0 0
    ∷ log_moves 1 0
    ∷ log_moves 0 0
    ∷ log_moves 1 0
    ∷ []

one_granted : (log_schedule 10 race (new_log_system 2 100 true)).cells.granted ≡ 115 ∷ []
unfolding log_schedule log_pick log_move_at log_move new_log_system
one_granted = refl

log_schedule-Spaced_example :
    let times = (log_schedule 10 race (new_log_system 2 100 true)).cells.granted in
    Spaced 10 100 times × (100 + length times * 10 ≤ latest 100 times)
log_schedule-Spaced_example = log_schedule-Spaced 10 100 2 true race

-- BBRv3 as the interface, with the clocks that its own methods read stopped at 9.
abbrev bbr3 : SendAlgorithm (Sender ℕ)
bbr3 = record {
  time_until_send = λ f b. Bbr.time_until_send f b;
  has_pacing_budget = λ t b. Bbr.has_pacing_budget fixed t b;
  on_packet_sent = λ t f n k r b. Bbr.on_packet_sent fixed t n k r b;
  can_send = λ f b. Bbr.can_send f b;
  maybe_exit_slow_start = λ b. b;
  on_packet_acked = λ n k p t b. Bbr.on_packet_acked fixed 9 9 n k p t b;
  on_congestion_event = λ n k p b. Bbr.on_congestion_event 9 k b 1;
  on_retransmission_timeout = λ r b. Bbr.on_retransmission_timeout fixed 9 9 r b;
  set_max_datagram_size = λ k b. Bbr.set_max_datagram_size k b;
  in_slow_start = λ b. Bbr.in_slow_start b;
  in_recovery = λ b. Bbr.in_recovery b;
  get_congestion_window = λ b. Bbr.get_congestion_window b;
}

abbrev wrapped_config : CollectorConfig
wrapped_config = record { enabled = true; log_interval = 0; conn_id = "a"; algorithm = "BBRv3" }

abbrev wrapped : AlgorithmWithStats (Sender ℕ) ℕ
wrapped = wrap_with_stats (Bbr.new_sender fixed 0 0 1200) wrapped_config 0

abbrev connection : List AlgorithmEvent
connection =
    sent 0 0 1 1200 true
    ∷ acked 9 1 1200 1200 9
    ∷ congested 2 100 1200
    ∷ asked_window
    ∷ asked_send 0
    ∷ []

wrap_with_stats-bare_example :
    let (a, answers) = wrapped_run bbr3 connection wrapped in
    (a.inner ≡ (bare_run bbr3 connection wrapped.inner).0)
    × (answers ≡ (bare_run bbr3 connection wrapped.inner).1)
    × (a.stats.bytes_sent ≡ 1200)
    × (a.stats.bytes_lost ≡ 100)
    × (a.stats.retransmit_count ≡ 1)
unfolding wrap_with_stats Bbr.new_sender
wrap_with_stats-bare_example =
    wrap_with_stats-bare ℕ bbr3 (Bbr.new_sender fixed 0 0 1200) wrapped_config 0 connection
