-- ===== src/Bbr3/Transitions.antt =====
-- bbrv3.go: which state changes one acknowledgement can make, and the stamp that decides when the
-- next ProbeRTT is due.
use moq_quic_bbrv3_go.Prelude.{ℕ, ◌≡◌, refl, ap, inl, inr, arith, Bool, true, false, Bool-cases}
use moq_quic_bbrv3_go.Bbr3.Float.{Float}
use moq_quic_bbrv3_go.Bbr3.State.{
  State, startup, drain, probe_bw_down, probe_bw_cruise, probe_bw_refill, probe_bw_up, probe_rtt,
  Sender,
}
use moq_quic_bbrv3_go.Bbr3.Signals.{
  update_round, start_probe_bw_down, start_probe_bw_cruise, start_probe_bw_refill,
  raise_inflight_hi_slope, start_probe_bw_up, check_time_to_probe_bw, probe_inflight_hi_upward,
  advance_max_bw_filter, adapt_ack_phase, adapt_upper_bounds, update_min_rtt, restore_cwnd,
  exit_recovery, set_send_quantum, modulate_cwnd_for_recovery, update_max_bw_filter,
}
use moq_quic_bbrv3_go.Bbr3.Estimate.{
  enter_drain, enter_probe_bw, bdp, quantization_budget, inflight, check_startup_full_bandwidth,
  check_startup_done, check_drain, check_drain_acked, check_time_to_cruise,
}
use moq_quic_bbrv3_go.Bbr3.Cycle.{
  cycle_down, cycle_refill, cycle_up, cycle_phase, update_probe_bw_cycle_phase,
}

-- Startup and Drain pass on to the next state, perhaps both at once.
abbrev pub early : State → State → Bool
early startup startup = true
early startup drain = true
early startup probe_bw_down = true
early drain drain = true
early drain probe_bw_down = true
early probe_bw_down probe_bw_down = true
early probe_bw_cruise probe_bw_cruise = true
early probe_bw_refill probe_bw_refill = true
early probe_bw_up probe_bw_up = true
early probe_rtt probe_rtt = true
early _ _ = false

-- One turn of the ProbeBW cycle.
abbrev pub turn : State → State → Bool
turn startup startup = true
turn drain drain = true
turn probe_bw_down probe_bw_down = true
turn probe_bw_down probe_bw_cruise = true
turn probe_bw_down probe_bw_refill = true
turn probe_bw_cruise probe_bw_cruise = true
turn probe_bw_cruise probe_bw_refill = true
turn probe_bw_refill probe_bw_refill = true
turn probe_bw_refill probe_bw_up = true
turn probe_bw_up probe_bw_up = true
turn probe_bw_up probe_bw_down = true
turn probe_rtt probe_rtt = true
turn _ _ = false

-- What one acknowledgement can do outside ProbeRTT.
abbrev pub follows : State → State → Bool
follows startup probe_bw_up = false
follows startup _ = true
follows drain startup = false
follows drain probe_bw_up = false
follows drain _ = true
follows _ probe_rtt = true
follows s t = turn s t

module _ {F : Type 0} where
  -- The state and the stamp stay.
  abbrev pub Same : Sender F → Sender F → Type 0
  Same b b' = (b'.state ≡ b.state) × (b'.probe_rtt_min_stamp ≡ b.probe_rtt_min_stamp)

  pub raise_inflight_hi_slope-Same : (b : Sender F) → Same b (raise_inflight_hi_slope b)
  unfolding raise_inflight_hi_slope
  raise_inflight_hi_slope-Same b = ground arith

  pub probe_inflight_hi_upward-Same :
      (c : Bool) (b : Sender F) → Same b (probe_inflight_hi_upward c b)
  unfolding probe_inflight_hi_upward raise_inflight_hi_slope
  probe_inflight_hi_upward-Same c b = ground arith

  pub adapt_ack_phase-Same : (b : Sender F) → Same b (adapt_ack_phase b)
  unfolding adapt_ack_phase advance_max_bw_filter
  adapt_ack_phase-Same b = ground arith

  pub adapt_upper_bounds-Same : (b : Sender F) → Same b (adapt_upper_bounds b)
  unfolding adapt_upper_bounds
  adapt_upper_bounds-Same b =
      ground (arith, adapt_ack_phase-Same b, probe_inflight_hi_upward-Same true (adapt_ack_phase b))

  pub update_min_rtt-Same : (now : ℕ) (b : Sender F) → Same b (update_min_rtt now b)
  unfolding update_min_rtt
  update_min_rtt-Same now b = ground arith

  pub exit_recovery-Same : (b : Sender F) → Same b (exit_recovery b)
  unfolding exit_recovery restore_cwnd
  exit_recovery-Same b = ground arith

  pub update_round-Same : (b : Sender F) → Same b (update_round b)
  unfolding update_round
  update_round-Same b = ground arith

  pub update_max_bw_filter-Same : (b : Sender F) → Same b (update_max_bw_filter b)
  unfolding update_max_bw_filter
  update_max_bw_filter-Same b = ground arith

  pub set_send_quantum-Same : (b : Sender F) → Same b (set_send_quantum b)
  unfolding set_send_quantum
  set_send_quantum-Same b = ground arith

  pub modulate_cwnd_for_recovery-Same :
      (n : ℕ) (b : Sender F) → Same b (modulate_cwnd_for_recovery n b)
  unfolding modulate_cwnd_for_recovery
  modulate_cwnd_for_recovery-Same n b = ground arith

  -- The state moves by a table, and the stamp stays.
  abbrev pub By : (State → State → Bool) → Sender F → Sender F → Type 0
  By table b b' = (table b.state b'.state ≡ true) × (b'.probe_rtt_min_stamp ≡ b.probe_rtt_min_stamp)

  check_time_to_probe_bw-state :
      (now : ℕ) (b : Sender F)
      → ((check_time_to_probe_bw now b).1 ≡ false → (check_time_to_probe_bw now b).0 ≡ b)
        × ((check_time_to_probe_bw now b).1 ≡ true
            → (check_time_to_probe_bw now b).0.state ≡ probe_bw_refill)
        × ((check_time_to_probe_bw now b).0.probe_rtt_min_stamp ≡ b.probe_rtt_min_stamp)
  unfolding check_time_to_probe_bw start_probe_bw_refill
  check_time_to_probe_bw-state now b = (λ e. ground arith, λ e. ground arith, ground arith)

module _ {F : Type 0} (fl : Float F) where
  pub inflight-Same : (gain : F) (b : Sender F) → Same b (inflight fl gain b).0
  unfolding inflight bdp quantization_budget
  inflight-Same gain b = ground arith

  pub check_startup_done-By : (b : Sender F) → By early b (check_startup_done fl b)
  unfolding check_startup_done check_startup_full_bandwidth enter_drain
  check_startup_done-By b = ground arith

  pub check_drain-By : (mono n : ℕ) (b : Sender F) → By early b (check_drain fl mono n b)
  unfolding check_drain enter_probe_bw
  check_drain-By mono n b = ground (arith, inflight-Same (fl.lit 1 1) b)

  pub check_drain_acked-By :
      (mono n : ℕ) (b : Sender F) → By early b (check_drain_acked fl mono n b)
  unfolding check_drain_acked enter_probe_bw
  check_drain_acked-By mono n b = ground (arith, inflight-Same (fl.lit 1 1) b)

  pub check_time_to_cruise-Same : (n : ℕ) (b : Sender F) → Same b (check_time_to_cruise fl n b).0
  unfolding check_time_to_cruise
  check_time_to_cruise-Same n b = ground (arith, inflight-Same (fl.lit 1 1) b)

  pub cycle_down-By :
      (now n : ℕ) (b : Sender F) → b.state ≡ probe_bw_down → By turn b (cycle_down fl now n b)
  unfolding cycle_down start_probe_bw_cruise
  cycle_down-By now n b h =
      let (keep, go, stamp) = check_time_to_probe_bw-state now b in
      let (s, t) = check_time_to_cruise-Same n (check_time_to_probe_bw now b).0 in
      elim (Bool-cases (check_time_to_probe_bw now b).1) [
        | inl yes' ↦ let e = go yes' in ground arith
        | inr no' ↦ let e = ap (λ (c : Sender F). c.state) (keep no') in ground arith
      ]

  pub cycle_refill-By :
      (now : ℕ) (b : Sender F) → b.state ≡ probe_bw_refill → By turn b (cycle_refill fl now b)
  unfolding cycle_refill start_probe_bw_up raise_inflight_hi_slope
  cycle_refill-By now b h = ground arith

  pub cycle_up-By :
      (now n : ℕ) (b : Sender F) → b.state ≡ probe_bw_up → By turn b (cycle_up fl now n b)
  unfolding cycle_up start_probe_bw_down
  cycle_up-By now n b h = ground (arith, inflight-Same b.pacing_gain b)

  pub cycle_cruise-By :
      (now : ℕ) (b : Sender F)
      → b.state ≡ probe_bw_cruise
      → By turn b (check_time_to_probe_bw now b).0
  unfolding check_time_to_probe_bw start_probe_bw_refill
  cycle_cruise-By now b h = ground arith

  pub cycle_phase-By :
      (s : State) (now n : ℕ) (b : Sender F) → b.state ≡ s → By turn b (cycle_phase fl s now n b)
  unfolding cycle_phase
  cycle_phase-By probe_bw_down now n b h = cycle_down-By now n b h
  cycle_phase-By probe_bw_cruise now n b h = cycle_cruise-By now b h
  cycle_phase-By probe_bw_refill now n b h = cycle_refill-By now b h
  cycle_phase-By probe_bw_up now n b h = cycle_up-By now n b h
  cycle_phase-By s now n b h = ground arith

  -- The ProbeBW cycle stays in its phase or moves along one edge: Down to Cruise or Refill,
  -- Cruise to Refill, Refill to Up, Up to Down. Outside ProbeBW it stays in the state, and the
  -- stamp of the last ProbeRTT stays everywhere.
  pub update_probe_bw_cycle_phase-By :
      (now n : ℕ) (b : Sender F) → By turn b (update_probe_bw_cycle_phase fl now n b)
  unfolding update_probe_bw_cycle_phase
  update_probe_bw_cycle_phase-By now n b =
      let b1 = adapt_upper_bounds b in
      let (s, t) = adapt_upper_bounds-Same b in
      let (u, v) = cycle_phase-By b1.state now n b1 refl in ground arith
