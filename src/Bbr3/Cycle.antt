-- ===== src/Bbr3/Cycle.antt =====
-- quic-go-bbr/internal/congestion/bbrv3.go: the ProbeBW cycle, ProbeRTT, and the model update that
-- an acknowledgement runs.
use moq_quic_bbrv3_go.Prelude.{ℕ, ◌+◌, true, false, ◌&&◌, not, ltb, leb, if◌then◌else◌}
use moq_quic_bbrv3_go.Bbr3.Float.{Float}
use moq_quic_bbrv3_go.Bbr3.State.{
  State, probe_bw_down, probe_bw_cruise, probe_bw_refill, probe_bw_up, phase_stopping, Sender,
}
use moq_quic_bbrv3_go.Bbr3.Signals.{
  is_probe_rtt, is_filled_pipe, start_round, reset_lower_bounds, bound_bw_for_model,
  start_probe_bw_down, start_probe_bw_cruise, start_probe_bw_up, has_elapsed_in_phase,
  check_time_to_probe_bw, adapt_upper_bounds, update_min_rtt, save_cwnd, restore_cwnd,
}
use moq_quic_bbrv3_go.Bbr3.Estimate.{
  enter_startup, enter_probe_rtt, inflight, check_startup_done, check_drain, check_time_to_cruise,
  probe_rtt_cwnd,
}

module _ {F : Type 0} (fl : Float F) where
  open fl use {lit}

  -- The cases of the switch in `updateProbeBwCyclePhase`.
  unfoldable pub cycle_down : ℕ → ℕ → Sender F → Sender F
  cycle_down now bytes_in_flight b =
      let (b1, probing) = check_time_to_probe_bw now b in
      let (b2, cruising) = check_time_to_cruise fl bytes_in_flight b1 in
      if probing then b1 else if cruising then start_probe_bw_cruise b2 else b2

  unfoldable pub cycle_refill : ℕ → Sender F → Sender F
  cycle_refill now b =
      if b.round.is_round_start
      then start_probe_bw_up now (record b { bw_probe_samples = true })
      else b

  unfoldable pub cycle_up : ℕ → ℕ → Sender F → Sender F
  cycle_up now bytes_in_flight b =
      let (b1, room) = inflight fl b.pacing_gain b in
      if has_elapsed_in_phase now b.min_rtt b
      then if ltb room bytes_in_flight then start_probe_bw_down now b1 else b1
      else b

  -- A state outside ProbeBW is left as it is, by the early return and by the switch.
  unfoldable pub cycle_phase : State → ℕ → ℕ → Sender F → Sender F
  cycle_phase probe_bw_down now n b = cycle_down now n b
  cycle_phase probe_bw_cruise now n b = (check_time_to_probe_bw now b).0
  cycle_phase probe_bw_refill now n b = cycle_refill now b
  cycle_phase probe_bw_up now n b = cycle_up now n b
  cycle_phase _ now n b = b

  unfoldable pub update_probe_bw_cycle_phase : ℕ → ℕ → Sender F → Sender F
  update_probe_bw_cycle_phase now bytes_in_flight b =
      let b1 = adapt_upper_bounds b in
      if is_filled_pipe b then cycle_phase b1.state now bytes_in_flight b1 else b

  -- `exitProbeRTTFromAbove`
  unfoldable pub exit_probe_rtt_from_above : ℕ → Sender F → Sender F
  exit_probe_rtt_from_above now b =
      if is_filled_pipe b
      then start_probe_bw_cruise (start_probe_bw_down now b)
      else enter_startup fl b

  unfoldable pub exit_probe_rtt : ℕ → Sender F → Sender F
  exit_probe_rtt now b = exit_probe_rtt_from_above now (reset_lower_bounds b)

  unfoldable pub check_probe_rtt_done : ℕ → Sender F → Sender F
  check_probe_rtt_done now b =
      if ltb 0 b.probe_rtt_done_stamp && leb b.probe_rtt_done_stamp now
      then exit_probe_rtt now (restore_cwnd (record b { probe_rtt_min_stamp = now }))
      else b

  -- The first branch of `handleProbeRtt`.
  unfoldable pub await_probe_rtt_done : ℕ → Sender F → Sender F
  await_probe_rtt_done now b =
      let b1 = if b.round.is_round_start then record b { probe_rtt_round_done = true } else b in
      if b1.probe_rtt_round_done then check_probe_rtt_done now b1 else b1

  unfoldable pub handle_probe_rtt : ℕ → ℕ → Sender F → Sender F
  handle_probe_rtt now bytes_in_flight b =
      let (b1, limit) = probe_rtt_cwnd fl b in
      if ltb 0 b.probe_rtt_done_stamp
      then await_probe_rtt_done now b
      else if leb bytes_in_flight limit
      then start_round (record b1 {
        probe_rtt_done_stamp = now + b1.config.probe_rtt_duration;
        probe_rtt_round_done = false;
      })
      else b1

  -- The first half of `checkProbeRtt`: the entry into ProbeRTT.
  unfoldable pub try_enter_probe_rtt : Sender F → Sender F
  try_enter_probe_rtt b =
      if not (is_probe_rtt b.state) && b.probe_rtt_expired && not b.idle_restart
      then start_round (record (save_cwnd (enter_probe_rtt fl b)) {
        probe_rtt_done_stamp = 0;
        ack_phase = phase_stopping;
      })
      else b

  unfoldable pub check_probe_rtt : ℕ → ℕ → Sender F → Sender F
  check_probe_rtt now bytes_in_flight b =
      let b1 = try_enter_probe_rtt b in
      if is_probe_rtt b1.state then handle_probe_rtt now bytes_in_flight b1 else b1

  -- `updateLatestDeliverySignals` clears `lossRoundStart`, `updateAckAggregation` clears
  -- `extraAcked`; `updateMaxBw` and `advanceLatestDeliverySignals` are empty in the source.
  unfoldable pub update_model_and_state : ℕ → ℕ → ℕ → Sender F → Sender F
  update_model_and_state mono now bytes_in_flight b =
      let b1 = record b { loss_round_start = false; extra_acked = 0 } in
      let b2 = check_drain fl mono bytes_in_flight (check_startup_done fl b1) in
      let b3 = update_probe_bw_cycle_phase now bytes_in_flight b2 in
      bound_bw_for_model (check_probe_rtt now bytes_in_flight (update_min_rtt now b3))
