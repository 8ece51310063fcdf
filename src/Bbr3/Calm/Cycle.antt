-- ===== src/Bbr3/Calm/Cycle.antt =====
-- bbrv3.go: the ProbeBW cycle, ProbeRTT and the whole model update leave the configuration, the
-- delivered bytes, the round's start and the window's limit alone.
use moq_quic_bbrv3_go.Prelude.{ℕ, ◌+◌, arith, true, false}
use moq_quic_bbrv3_go.Bbr3.Float.{Float}
use moq_quic_bbrv3_go.Bbr3.State.{
  State, probe_bw_down, probe_bw_cruise, probe_bw_refill, probe_bw_up, Sender,
}
use moq_quic_bbrv3_go.Bbr3.Signals.{
  start_round, reset_lower_bounds, start_probe_bw_down, check_time_to_probe_bw, adapt_upper_bounds,
  save_cwnd, restore_cwnd,
}
use moq_quic_bbrv3_go.Bbr3.Estimate.{
  enter_probe_rtt, inflight, check_time_to_cruise, probe_rtt_cwnd,
}
use moq_quic_bbrv3_go.Bbr3.Cycle.{
  cycle_down, cycle_refill, cycle_up, cycle_phase, update_probe_bw_cycle_phase,
  exit_probe_rtt_from_above, exit_probe_rtt, check_probe_rtt_done, await_probe_rtt_done,
  handle_probe_rtt, try_enter_probe_rtt, check_probe_rtt, update_model_and_state,
}
use moq_quic_bbrv3_go.Bbr3.Calm.{
  Calm, Calm-refl, Calm-trans, start_round-Calm, start_probe_bw_down-Calm, restore_cwnd-Calm,
  reset_lower_bounds-Calm, bound_bw_for_model-Calm, start_probe_bw_cruise-Calm,
  start_probe_bw_up-Calm, check_time_to_probe_bw-Calm, adapt_upper_bounds-Calm, update_min_rtt-Calm,
}
use moq_quic_bbrv3_go.Bbr3.Calm.Estimate.{
  enter_startup-Calm, bdp-Calm, inflight-Calm, check_startup_done-Calm, check_drain-Calm,
  check_time_to_cruise-Calm,
}

module _ {F : Type 0} (fl : Float F) where
  cycle_down-Calm : (now n : ℕ) (b : Sender F) → Calm b (cycle_down fl now n b)
  unfolding cycle_down
  cycle_down-Calm now n b =
      let p = check_time_to_probe_bw-Calm now b in
      let q = Calm-trans p (check_time_to_cruise-Calm fl n (check_time_to_probe_bw now b).0) in
      let r = Calm-trans q (
        start_probe_bw_cruise-Calm
          (check_time_to_cruise fl n (check_time_to_probe_bw now b).0).0) in
      ground (arith, p, q, r)

  cycle_refill-Calm : (now : ℕ) (b : Sender F) → Calm b (cycle_refill fl now b)
  unfolding cycle_refill
  cycle_refill-Calm now b =
      let b1 : Sender F = record b { bw_probe_samples = true } in
      let p : Calm b b1 = ground arith in
      ground (arith, Calm-trans p (start_probe_bw_up-Calm now b1), Calm-refl b)

  cycle_up-Calm : (now n : ℕ) (b : Sender F) → Calm b (cycle_up fl now n b)
  unfolding cycle_up
  cycle_up-Calm now n b =
      let p = inflight-Calm fl b.pacing_gain b in
      let q = Calm-trans p (start_probe_bw_down-Calm now (inflight fl b.pacing_gain b).0) in
      ground (arith, p, q, Calm-refl b)

  cycle_phase-Calm : (s : State) (now n : ℕ) (b : Sender F) → Calm b (cycle_phase fl s now n b)
  unfolding cycle_phase
  cycle_phase-Calm probe_bw_down now n b = cycle_down-Calm now n b
  cycle_phase-Calm probe_bw_cruise now n b = check_time_to_probe_bw-Calm now b
  cycle_phase-Calm probe_bw_refill now n b = cycle_refill-Calm now b
  cycle_phase-Calm probe_bw_up now n b = cycle_up-Calm now n b
  cycle_phase-Calm _ now n b = Calm-refl b

  update_probe_bw_cycle_phase-Calm :
      (now n : ℕ) (b : Sender F) → Calm b (update_probe_bw_cycle_phase fl now n b)
  unfolding update_probe_bw_cycle_phase
  update_probe_bw_cycle_phase-Calm now n b =
      let b1 = adapt_upper_bounds b in
      let p = Calm-trans (adapt_upper_bounds-Calm b) (cycle_phase-Calm b1.state now n b1) in
      ground (arith, p, Calm-refl b)

  pub exit_probe_rtt_from_above-Calm :
      (now : ℕ) (b : Sender F) → Calm b (exit_probe_rtt_from_above fl now b)
  unfolding exit_probe_rtt_from_above
  exit_probe_rtt_from_above-Calm now b =
      let p = start_probe_bw_down-Calm now b in
      let q = Calm-trans p (start_probe_bw_cruise-Calm (start_probe_bw_down now b)) in
      ground (arith, q, enter_startup-Calm fl b)

  check_probe_rtt_done-Calm : (now : ℕ) (b : Sender F) → Calm b (check_probe_rtt_done fl now b)
  unfolding check_probe_rtt_done exit_probe_rtt
  check_probe_rtt_done-Calm now b =
      let b1 : Sender F = record b { probe_rtt_min_stamp = now } in
      let p : Calm b b1 = ground arith in
      let q = Calm-trans p (restore_cwnd-Calm b1) in
      let r = Calm-trans q (reset_lower_bounds-Calm (restore_cwnd b1)) in
      let s =
        Calm-trans r (exit_probe_rtt_from_above-Calm now (reset_lower_bounds (restore_cwnd b1))) in
      ground (arith, s, Calm-refl b)

  await_probe_rtt_done-Calm : (now : ℕ) (b : Sender F) → Calm b (await_probe_rtt_done fl now b)
  unfolding await_probe_rtt_done
  await_probe_rtt_done-Calm now b =
      let b1 : Sender F = record b { probe_rtt_round_done = true } in
      let p : Calm b b1 = ground arith in
      ground (
        arith,
        Calm-trans p (check_probe_rtt_done-Calm now b1),
        check_probe_rtt_done-Calm now b,
        p,
        Calm-refl b,
      )

  handle_probe_rtt-Calm : (now n : ℕ) (b : Sender F) → Calm b (handle_probe_rtt fl now n b)
  unfolding handle_probe_rtt probe_rtt_cwnd
  handle_probe_rtt-Calm now n b =
      let b1 = (probe_rtt_cwnd fl b).0 in
      let p : Calm b b1 = bdp-Calm fl b.bw b.cwnd_gain b in
      let b2 : Sender F = record b1 {
        probe_rtt_done_stamp = ◌+◌ now b1.config.probe_rtt_duration;
        probe_rtt_round_done = false;
      } in
      let q : Calm b1 b2 = ground arith in
      let r = Calm-trans (Calm-trans p q) (start_round-Calm b2) in
      ground (arith, await_probe_rtt_done-Calm now b, p, r)

  try_enter_probe_rtt-Calm : (b : Sender F) → Calm b (try_enter_probe_rtt fl b)
  unfolding try_enter_probe_rtt start_round save_cwnd enter_probe_rtt
  try_enter_probe_rtt-Calm b = ground arith

  check_probe_rtt-Calm : (now n : ℕ) (b : Sender F) → Calm b (check_probe_rtt fl now n b)
  unfolding check_probe_rtt
  check_probe_rtt-Calm now n b =
      let p = try_enter_probe_rtt-Calm b in
      ground (arith, p, Calm-trans p (handle_probe_rtt-Calm now n (try_enter_probe_rtt fl b)))

  pub update_model_and_state-Calm :
      (mono now n : ℕ) (b : Sender F) → Calm b (update_model_and_state fl mono now n b)
  unfolding update_model_and_state
  update_model_and_state-Calm mono now n b =
      let b1 : Sender F = record b { loss_round_start = false; extra_acked = 0 } in
      let p : Calm b b1 = ground arith in
      let q = Calm-trans p (check_startup_done-Calm fl b1) in
      let r = Calm-trans q (check_drain-Calm fl mono n _) in
      let s = Calm-trans r (update_probe_bw_cycle_phase-Calm now n _) in
      let t = Calm-trans s (update_min_rtt-Calm now _) in
      Calm-trans (Calm-trans t (check_probe_rtt-Calm now n _)) (bound_bw_for_model-Calm _)
