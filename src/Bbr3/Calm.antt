-- ===== src/Bbr3/Calm.antt =====
-- What the parts of a model update leave alone, for bbrv3.go: a relation between the sender before
-- and after, which composes.
pub mod Estimate
pub mod Cycle
use Prim.Native.Nat.{max}
use moq_quic_bbrv3_go.Prelude.{
  ℕ, ◌≤◌, ◌<◌, ◌≡◌, refl, ap, ◌∙◌, arith, Bool, true, false, ◌&&◌, ◌||◌, not, if◌then◌else◌,
}
use moq_quic_bbrv3_go.Bbr3.State.{Config, Sender}
use moq_quic_bbrv3_go.Bbr3.Signals.{
  start_round, reset_lower_bounds, bound_bw_for_model, start_probe_bw_down, start_probe_bw_cruise,
  start_probe_bw_refill, raise_inflight_hi_slope, start_probe_bw_up, check_time_to_probe_bw,
  probe_inflight_hi_upward, advance_max_bw_filter, adapt_ack_phase, adapt_upper_bounds,
  update_min_rtt, save_cwnd, restore_cwnd, exit_recovery, set_send_quantum, update_max_bw_filter,
}

-- The configuration, the delivered bytes, the packets in flight and the round's start stay. The
-- window stays within the largest of itself, the saved window and the least window, and so does the
-- saved window.
pub record Calm {F : Type 0} (b b' : Sender F) : Type 0 where
  pub config_eq : b'.config ≡ b.config
  pub size_eq : b'.max_datagram_size ≡ b.max_datagram_size
  pub delivered_eq : b'.delivered ≡ b.delivered
  pub times_eq : b'.sent_times ≡ b.sent_times
  pub next_le :
      b.round.next_round_delivered ≤ b.delivered → b'.round.next_round_delivered ≤ b'.delivered
  pub round_eq : b'.round.is_round_start ≡ b.round.is_round_start
  pub count_eq : b'.round.round_count ≡ b.round.round_count
  pub conservation : b.packet_conservation ≡ false → b'.packet_conservation ≡ false
  pub cwnd_le : b'.cwnd ≤ max (max b.cwnd b.prior_cwnd) b.config.min_cwnd
  pub prior_le : b'.prior_cwnd ≤ max (max b.cwnd b.prior_cwnd) b.config.min_cwnd
  pub divisor_pos : 0 < b.bw_probe_up_cnt → 0 < b'.bw_probe_up_cnt

module _ {F : Type 0} where
  pub Calm-refl : (b : Sender F) → Calm b b
  Calm-refl b = ground arith

  pub Calm-trans : {a b c : Sender F} → Calm a b → Calm b c → Calm a c
  Calm-trans p q = record {
    config_eq = q.config_eq ∙ p.config_eq;
    size_eq = q.size_eq ∙ p.size_eq;
    delivered_eq = q.delivered_eq ∙ p.delivered_eq;
    times_eq = q.times_eq ∙ p.times_eq;
    next_le = λ h. q.next_le (p.next_le h);
    round_eq = q.round_eq ∙ p.round_eq;
    count_eq = q.count_eq ∙ p.count_eq;
    conservation = λ h. q.conservation (p.conservation h);
    cwnd_le =
        omega
          (arith, ap (λ (c : Config F). c.min_cwnd) p.config_eq, p.cwnd_le, p.prior_le, q.cwnd_le);
    prior_le =
        omega
          (arith, ap (λ (c : Config F). c.min_cwnd) p.config_eq, p.cwnd_le, p.prior_le, q.prior_le);
    divisor_pos = λ h. q.divisor_pos (p.divisor_pos h);
  }

  pub start_round-Calm : (b : Sender F) → Calm b (start_round b)
  unfolding start_round
  start_round-Calm b = ground arith

  pub start_probe_bw_down-Calm : (now : ℕ) (b : Sender F) → Calm b (start_probe_bw_down now b)
  unfolding start_probe_bw_down
  start_probe_bw_down-Calm now b = ground arith

  pub raise_inflight_hi_slope-Calm : (b : Sender F) → Calm b (raise_inflight_hi_slope b)
  unfolding raise_inflight_hi_slope
  raise_inflight_hi_slope-Calm b = ground arith

  pub restore_cwnd-Calm : (b : Sender F) → Calm b (restore_cwnd b)
  unfolding restore_cwnd
  restore_cwnd-Calm b = ground arith

  pub save_cwnd-Calm : (b : Sender F) → Calm b (save_cwnd b)
  unfolding save_cwnd
  save_cwnd-Calm b = ground arith

  pub reset_lower_bounds-Calm : (b : Sender F) → Calm b (reset_lower_bounds b)
  unfolding reset_lower_bounds
  reset_lower_bounds-Calm b = ground arith

  pub bound_bw_for_model-Calm : (b : Sender F) → Calm b (bound_bw_for_model b)
  unfolding bound_bw_for_model
  bound_bw_for_model-Calm b = ground arith

  pub start_probe_bw_cruise-Calm : (b : Sender F) → Calm b (start_probe_bw_cruise b)
  unfolding start_probe_bw_cruise
  start_probe_bw_cruise-Calm b = ground arith

  pub start_probe_bw_refill-Calm : (b : Sender F) → Calm b (start_probe_bw_refill b)
  unfolding start_probe_bw_refill
  start_probe_bw_refill-Calm b = ground arith

  pub start_probe_bw_up-Calm : (now : ℕ) (b : Sender F) → Calm b (start_probe_bw_up now b)
  unfolding start_probe_bw_up raise_inflight_hi_slope
  start_probe_bw_up-Calm now b = ground arith

  pub check_time_to_probe_bw-Calm :
      (now : ℕ) (b : Sender F) → Calm b (check_time_to_probe_bw now b).0
  unfolding check_time_to_probe_bw
  check_time_to_probe_bw-Calm now b = ground (arith, start_probe_bw_refill-Calm b, Calm-refl b)

  pub probe_inflight_hi_upward-Calm :
      (c : Bool) (b : Sender F) → Calm b (probe_inflight_hi_upward c b)
  unfolding probe_inflight_hi_upward raise_inflight_hi_slope
  probe_inflight_hi_upward-Calm c b = ground arith

  pub adapt_ack_phase-Calm : (b : Sender F) → Calm b (adapt_ack_phase b)
  unfolding adapt_ack_phase advance_max_bw_filter
  adapt_ack_phase-Calm b = ground arith

  pub adapt_upper_bounds-Calm : (b : Sender F) → Calm b (adapt_upper_bounds b)
  unfolding adapt_upper_bounds
  adapt_upper_bounds-Calm b =
      let p = adapt_ack_phase-Calm b in
      let q = Calm-trans p (probe_inflight_hi_upward-Calm true (adapt_ack_phase b)) in
      ground (arith, p, q)

  pub update_min_rtt-Calm : (now : ℕ) (b : Sender F) → Calm b (update_min_rtt now b)
  unfolding update_min_rtt
  update_min_rtt-Calm now b = ground arith

  pub exit_recovery-Calm : (b : Sender F) → Calm b (exit_recovery b)
  unfolding exit_recovery restore_cwnd
  exit_recovery-Calm b = ground arith

  pub set_send_quantum-Calm : (b : Sender F) → Calm b (set_send_quantum b)
  unfolding set_send_quantum
  set_send_quantum-Calm b = ground arith

  pub update_max_bw_filter-Calm : (b : Sender F) → Calm b (update_max_bw_filter b)
  unfolding update_max_bw_filter
  update_max_bw_filter-Calm b = ground arith
