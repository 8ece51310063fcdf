-- ===== src/Bbr3/Calm/Estimate.antt =====
-- bbrv3.go: the gains, the pacing rate, the startup and drain checks, and the congestion window
-- leave the rest of the sender alone.
use moq_quic_bbrv3_go.Prelude.{ℕ, ◌≡◌, arith, false}
use moq_quic_bbrv3_go.Bbr3.Float.{Float}
use moq_quic_bbrv3_go.Bbr3.Filters.{get}
use moq_quic_bbrv3_go.Bbr3.State.{Sender}
use moq_quic_bbrv3_go.Bbr3.Signals.{modulate_cwnd_for_recovery}
use moq_quic_bbrv3_go.Bbr3.Estimate.{
  update_gains, enter_startup, enter_drain, enter_probe_rtt, enter_probe_bw, bdp,
  quantization_budget, inflight, check_startup_full_bandwidth, check_startup_done, check_drain,
  check_drain_acked, check_time_to_cruise, set_pacing_rate_with_gain, update_control_parameters,
  probe_rtt_cwnd, update_max_inflight, raise_to_min_cwnd, bound_cwnd_for_probe_rtt,
  bound_cwnd_for_model, set_cwnd,
}
use moq_quic_bbrv3_go.Bbr3.Calm.{
  Calm, Calm-refl, Calm-trans, start_probe_bw_down-Calm, set_send_quantum-Calm,
}

module _ {F : Type 0} (fl : Float F) where
  pub update_gains-Calm : (b : Sender F) → Calm b (update_gains fl b)
  unfolding update_gains
  update_gains-Calm b = ground arith

  pub enter_startup-Calm : (b : Sender F) → Calm b (enter_startup fl b)
  unfolding enter_startup
  enter_startup-Calm b = ground arith

  pub enter_drain-Calm : (b : Sender F) → Calm b (enter_drain fl b)
  unfolding enter_drain
  enter_drain-Calm b = ground arith

  pub enter_probe_rtt-Calm : (b : Sender F) → Calm b (enter_probe_rtt fl b)
  unfolding enter_probe_rtt
  enter_probe_rtt-Calm b = ground arith

  pub bdp-Calm : (bw : ℕ) (gain : F) (b : Sender F) → Calm b (bdp fl bw gain b).0
  unfolding bdp
  bdp-Calm bw gain b = ground arith

  pub quantization_budget-Calm : (n : ℕ) (b : Sender F) → Calm b (quantization_budget fl n b).0
  unfolding quantization_budget
  quantization_budget-Calm n b = ground arith

  pub inflight-Calm : (gain : F) (b : Sender F) → Calm b (inflight fl gain b).0
  unfolding inflight
  inflight-Calm gain b =
      Calm-trans (bdp-Calm b.max_bw gain b) (quantization_budget-Calm _ (bdp fl b.max_bw gain b).0)

  check_startup_full_bandwidth-Calm : (b : Sender F) → Calm b (check_startup_full_bandwidth fl b)
  unfolding check_startup_full_bandwidth
  check_startup_full_bandwidth-Calm b = ground arith

  pub check_startup_done-Calm : (b : Sender F) → Calm b (check_startup_done fl b)
  unfolding check_startup_done
  check_startup_done-Calm b =
      let p = check_startup_full_bandwidth-Calm b in
      let q = Calm-trans p (enter_drain-Calm (check_startup_full_bandwidth fl b)) in
      ground (arith, p, q)

  pub check_drain-Calm : (mono n : ℕ) (b : Sender F) → Calm b (check_drain fl mono n b)
  unfolding check_drain enter_probe_bw
  check_drain-Calm mono n b =
      let p = inflight-Calm (fl.lit 1 1) b in
      let q = Calm-trans p (start_probe_bw_down-Calm mono (inflight fl (fl.lit 1 1) b).0) in
      ground (arith, p, q, Calm-refl b)

  pub check_drain_acked-Calm : (mono n : ℕ) (b : Sender F) → Calm b (check_drain_acked fl mono n b)
  unfolding check_drain_acked enter_probe_bw
  check_drain_acked-Calm mono n b =
      let p = inflight-Calm (fl.lit 1 1) b in
      let q = Calm-trans p (start_probe_bw_down-Calm mono (inflight fl (fl.lit 1 1) b).0) in
      ground (arith, p, q, Calm-refl b)

  pub check_time_to_cruise-Calm : (n : ℕ) (b : Sender F) → Calm b (check_time_to_cruise fl n b).0
  unfolding check_time_to_cruise
  check_time_to_cruise-Calm n b = ground (arith, inflight-Calm (fl.lit 1 1) b, Calm-refl b)

  pub update_control_parameters-Calm : (b : Sender F) → Calm b (update_control_parameters fl b)
  unfolding update_control_parameters
  update_control_parameters-Calm b = Calm-trans paced (set_send_quantum-Calm _)
    where
      paced : Calm b (set_pacing_rate_with_gain fl b.pacing_gain b)
      paced = unfold set_pacing_rate_with_gain in ground arith

  update_max_inflight-Calm : (b : Sender F) → Calm b (update_max_inflight fl b)
  unfolding update_max_inflight bdp quantization_budget get
  update_max_inflight-Calm b = ground arith

  raise_to_min_cwnd-Calm : (b : Sender F) → Calm b (raise_to_min_cwnd fl b)
  unfolding raise_to_min_cwnd
  raise_to_min_cwnd-Calm b = ground arith

  bound_cwnd_for_probe_rtt-Calm : (b : Sender F) → Calm b (bound_cwnd_for_probe_rtt fl b)
  unfolding bound_cwnd_for_probe_rtt probe_rtt_cwnd bdp
  bound_cwnd_for_probe_rtt-Calm b = ground arith

  bound_cwnd_for_model-Calm : (b : Sender F) → Calm b (bound_cwnd_for_model fl b)
  unfolding bound_cwnd_for_model
  bound_cwnd_for_model-Calm b = ground arith

  -- Packet conservation alone adds to the window.
  modulate_cwnd_for_recovery-Calm :
      (n : ℕ) (b : Sender F)
      → b.packet_conservation ≡ false
      → Calm b (modulate_cwnd_for_recovery n b)
  unfolding modulate_cwnd_for_recovery
  modulate_cwnd_for_recovery-Calm n b h = ground arith

  pub set_cwnd-Calm :
      (n : ℕ) (b : Sender F) → b.packet_conservation ≡ false → Calm b (set_cwnd fl n b)
  unfolding set_cwnd
  set_cwnd-Calm n b h =
      let p = update_max_inflight-Calm b in
      let q = Calm-trans p (modulate_cwnd_for_recovery-Calm n _ (p.conservation h)) in
      let r = Calm-trans q (raise_to_min_cwnd-Calm _) in
      let s = Calm-trans r (bound_cwnd_for_probe_rtt-Calm _) in
      Calm-trans s (bound_cwnd_for_model-Calm _)
