-- ===== src/Bbr3/Signals/Phases.antt =====
-- bbrv3.go: the phases of ProbeBW and the upper bounds that they adapt.
use moq_quic_bbrv3_go.Prelude.{
  ℕ, ◌+◌, ◌*◌, ◌/◌, ◌%◌, ◌^◌, Bool, true, false, ◌&&◌, ◌||◌, not, ltb, leb, ◌==◌, if◌then◌else◌,
  wrap64, max_u64,
}
use moq_quic_bbrv3_go.Bbr3.State.{
  probe_bw_down, probe_bw_cruise, probe_bw_refill, probe_bw_up, phase_init, phase_stopping,
  phase_refilling, phase_starting, phase_feedback, Sender,
}
use moq_quic_bbrv3_go.Bbr3.Signals.Counting.{
  is_up, is_starting, is_stopping, start_round, reset_congestion_signals, reset_lower_bounds,
  target_inflight, is_in_probe_bw_state,
}

module _ {F : Type 0} where
  unfoldable pub pick_probe_wait : Sender F → Sender F
  pick_probe_wait b = record b { rounds_since_bw_probe = 0; bw_probe_wait = 2_500_000_000 }

  unfoldable pub start_probe_bw_down : ℕ → Sender F → Sender F
  unfolding reset_congestion_signals pick_probe_wait start_round
  start_probe_bw_down now b =
      let b1 = record (reset_congestion_signals b) { bw_probe_up_cnt = max_u64 } in
      let b2 = record (pick_probe_wait b1) { cycle_stamp = now; ack_phase = phase_stopping } in
      record (start_round b2) { state = probe_bw_down }

  unfoldable pub start_probe_bw_cruise : Sender F → Sender F
  start_probe_bw_cruise b = record b { state = probe_bw_cruise }

  unfoldable pub start_probe_bw_refill : Sender F → Sender F
  unfolding reset_lower_bounds start_round
  start_probe_bw_refill b =
      let b1 = record (reset_lower_bounds b) {
        bw_probe_up_rounds = 0;
        bw_probe_up_acks = 0;
        ack_phase = phase_refilling;
      } in
      record (start_round b1) { state = probe_bw_refill }

  -- `uint64(1) << bwProbeUpRounds` is 0 when the shift passes 63.
  unfoldable pub raise_inflight_hi_slope : Sender F → Sender F
  raise_inflight_hi_slope b =
      let growth = wrap64 (2 ^ b.bw_probe_up_rounds) in
      let b1 = record b {
        bw_probe_up_rounds =
            if ltb b.bw_probe_up_rounds 30 then b.bw_probe_up_rounds + 1 else b.bw_probe_up_rounds;
      } in
      if ltb 0 growth
      then record b1 { bw_probe_up_cnt = if ltb (b.cwnd / growth) 1 then 1 else b.cwnd / growth }
      else b1

  unfoldable pub start_probe_bw_up : ℕ → Sender F → Sender F
  unfolding start_round
  start_probe_bw_up now b =
      let b1 = start_round (record b { ack_phase = phase_starting }) in
      raise_inflight_hi_slope (record b1 {
        full_pipe = record b1.full_pipe { full_bw = b1.max_bw };
        cycle_stamp = now;
        state = probe_bw_up;
      })

  unfoldable pub has_elapsed_in_phase : ℕ → ℕ → Sender F → Bool
  has_elapsed_in_phase now interval b = leb (b.cycle_stamp + interval) now

  unfoldable pub is_reno_coexistence_probe_time : Sender F → Bool
  is_reno_coexistence_probe_time b =
      let rounds = if ltb 63 (target_inflight b) then 63 else target_inflight b in
      leb rounds b.rounds_since_bw_probe

  -- Go's result and the new state.
  unfoldable pub check_time_to_probe_bw : ℕ → Sender F → Sender F × Bool
  check_time_to_probe_bw now b =
      if has_elapsed_in_phase now b.bw_probe_wait b || is_reno_coexistence_probe_time b
      then (start_probe_bw_refill b, true)
      else (b, false)

  unfoldable pub probe_inflight_hi_upward : Bool → Sender F → Sender F
  probe_inflight_hi_upward is_cwnd_limited b =
      if not is_cwnd_limited || ltb b.cwnd b.inflight_hi
      then b
      else (let acks = wrap64 (b.bw_probe_up_acks + b.config.max_datagram_size) in
          let b1 =
            if leb b.bw_probe_up_cnt acks
            then record b {
              bw_probe_up_acks = acks % b.bw_probe_up_cnt;
              inflight_hi =
                  wrap64 (b.inflight_hi + acks / b.bw_probe_up_cnt * b.config.max_datagram_size);
            }
            else record b { bw_probe_up_acks = acks } in
          if b.round.is_round_start then raise_inflight_hi_slope b1 else b1)

  unfoldable pub advance_max_bw_filter : Sender F → Sender F
  advance_max_bw_filter b =
      let b1 = record b { cycle_count = wrap64 (b.cycle_count + 1) } in
      if b.max_bw_filter.bw1 == 0
      then b1
      else record b1 { max_bw_filter = record { bw0 = b.max_bw_filter.bw1; bw1 = 0 } }

  -- `checkInflightTooHigh` always answers false.
  abbrev pub check_inflight_too_high : Sender F → Bool
  check_inflight_too_high b = false

  -- The two phase changes at the head of `adaptUpperBounds`.
  unfoldable pub adapt_ack_phase : Sender F → Sender F
  adapt_ack_phase b =
      let b1 =
        if is_starting b.ack_phase && b.round.is_round_start
        then record b { ack_phase = phase_feedback }
        else b in
      if is_stopping b1.ack_phase && b1.round.is_round_start
      then (let b2 = record b1 { bw_probe_samples = false; ack_phase = phase_init } in
          if is_in_probe_bw_state b2 && ltb 0 b2.max_bw then advance_max_bw_filter b2 else b2)
      else b1

  unfoldable pub adapt_upper_bounds : Sender F → Sender F
  adapt_upper_bounds b =
      let b1 = adapt_ack_phase b in
      if not (check_inflight_too_high b1) && (b1.inflight_hi == max_u64)
      then b1
      else if is_up b1.state
      then probe_inflight_hi_upward true b1
      else b1
