-- ===== src/Bbr3/Signals.antt =====
-- quic-go-bbr/internal/congestion/bbrv3.go: round counting, the full-pipe estimator, congestion
-- signals, the lower and upper bounds, recovery, and the phases of ProbeBW that need no gain.
mod Counting
mod Phases
mod Recovery
unfoldable pub use moq_quic_bbrv3_go.Bbr3.Signals.Counting.{
  is_startup, is_drain, is_cruise, is_up, is_probe_rtt, is_in_probe_bw, is_starting, is_stopping,
  max_delivered, init_round_counting, start_round, update_round, init_full_pipe,
  reset_congestion_signals, reset_lower_bounds, init_lower_bounds, bound_bw_for_model,
  target_inflight, is_filled_pipe, is_in_probe_bw_state,
}
unfoldable pub use moq_quic_bbrv3_go.Bbr3.Signals.Phases.{
  pick_probe_wait, start_probe_bw_down, start_probe_bw_cruise, start_probe_bw_refill,
  raise_inflight_hi_slope, start_probe_bw_up, has_elapsed_in_phase, is_reno_coexistence_probe_time,
  check_time_to_probe_bw, probe_inflight_hi_upward, advance_max_bw_filter, check_inflight_too_high,
  adapt_ack_phase, adapt_upper_bounds,
}
unfoldable pub use moq_quic_bbrv3_go.Bbr3.Signals.Recovery.{
  update_min_rtt, save_cwnd, restore_cwnd, enter_recovery, exit_recovery, set_send_quantum,
  modulate_cwnd_for_recovery, update_max_bw_filter,
}
