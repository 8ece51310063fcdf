-- ===== src/Bbr3/Events.antt =====
-- quic-go-bbr/internal/congestion/bbrv3.go: the constructor and the methods of `SendAlgorithm`, and
-- sequences of their calls. A call that reads a clock takes the reading as an argument: `mono` for
-- `monotime.Now()`, `wall` for the statistics' `time.Now()`.
mod Calls
mod Build
mod Acks
use Prim.Native.String.{String}
use moq_quic_bbrv3_go.Prelude.{
  ℕ, ◌+◌, ◌-◌, ◌*◌, Bool, true, false, ◌&&◌, ◌||◌, not, ltb, leb, ◌==◌, if◌then◌else◌, List, [],
  ◌∷◌, ◌++◌, Option, none, some, length, drop, wrap64, max_u64,
}
use moq_quic_bbrv3_go.Bbr3.Float.{Float}
use moq_quic_bbrv3_go.Bbr3.Stats
use moq_quic_bbrv3_go.Bbr3.Stats.{StatsConfig}
use moq_quic_bbrv3_go.Bbr3.Filters.{new_simple_max_filter, new_min_max_filter}
use moq_quic_bbrv3_go.Bbr3.State.{
  State, startup, drain, probe_bw_down, probe_bw_cruise, probe_bw_refill, probe_bw_up, probe_rtt,
  phase_init, AckInfo, Config, Sender, insert_time, delete_time,
}
use moq_quic_bbrv3_go.Bbr3.Signals.{
  is_startup, is_probe_rtt, init_round_counting, update_round, init_full_pipe,
  reset_congestion_signals, reset_lower_bounds, enter_recovery, exit_recovery, update_max_bw_filter,
}
use moq_quic_bbrv3_go.Bbr3.Estimate.{
  update_gains, enter_startup, init_pacing_rate, check_startup_done, check_drain_acked,
  update_control_parameters, set_cwnd,
}
use moq_quic_bbrv3_go.Bbr3.Cycle.{exit_probe_rtt_from_above, update_model_and_state}
unfoldable pub use moq_quic_bbrv3_go.Bbr3.Events.Calls.{
  ten_seconds, state_name, total_acked, last_16, with_stats, enable_stats, disable_stats,
  update_and_log_stats, record_rtt, record_delivery, can_send, time_until_send, on_congestion_event,
  set_max_datagram_size, get_congestion_window, in_recovery, in_slow_start,
}
unfoldable pub use moq_quic_bbrv3_go.Bbr3.Events.Build.{
  new_config, init_sender, blank_sender, new_sender, on_retransmission_timeout,
}
unfoldable pub use moq_quic_bbrv3_go.Bbr3.Events.Acks.{
  maybe_exit_probe_rtt, has_pacing_budget, on_packet_sent, delivery_rate_from,
  calculate_delivery_rate, update_bandwidth, force_probe_rtt, process_round, process_ack,
  register_ack, on_packet_acked,
}

-- A call of the interface that can change the sender.
pub data Event : Type 0 where
  packet_sent : (sent_time packet_number bytes : ℕ) → Bool → Event
  packet_acked : (mono wall number acked_bytes prior_in_flight now : ℕ) → Event
  congestion : (mono lost_bytes : ℕ) → Event
  retransmission_timeout : (mono mono' : ℕ) → Bool → Event
  datagram_size : (size : ℕ) → Event
  pacing_budget : (now : ℕ) → Event
  stats_on : StatsConfig → (wall : ℕ) → Event
  stats_off : Event

module _ {F : Type 0} (fl : Float F) where
  open fl use {lit}

  unfoldable pub step : Event → Sender F → Sender F
  step (packet_sent t n k r) b = on_packet_sent fl t n k r b
  step (packet_acked m w n k p t) b = on_packet_acked fl m w n k p t b
  step (congestion m k) b = on_congestion_event m k b (lit 1 1)
  step (retransmission_timeout m m' r) b = on_retransmission_timeout fl m m' r b
  step (datagram_size k) b = set_max_datagram_size k b
  step (pacing_budget t) b = (has_pacing_budget fl t b).0
  step (stats_on c w) b = enable_stats c w b
  step stats_off b = disable_stats b

  -- The calls of a connection, in order.
  unfoldable pub run : List Event → Sender F → Sender F
  run [] b = b
  run (e ∷ es) b = run es (step e b)
