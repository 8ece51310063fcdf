-- ===== src/Bbr3/Rounds.antt =====
-- bbrv3.go: what `OnPacketAcked` does to the round counter and to the congestion window.
use moq_quic_bbrv3_go.Prelude.{
  ℕ, ◌+◌, ◌-◌, ◌≤◌, ◌≡◌, refl, inl, inr, arith, true, false, ltb, if◌then◌else◌, Bool-cases, List,
  [], ◌∷◌, ◌++◌, length, drop, length-append, drop-append_le, wrap64, le→leb,
}
use moq_quic_bbrv3_go.Bbr3.Float.{Float}
use moq_quic_bbrv3_go.Bbr3.State.{AckInfo, Sender}
use moq_quic_bbrv3_go.Bbr3.Signals.{max_delivered, update_round, exit_recovery}
use moq_quic_bbrv3_go.Bbr3.Cycle.{exit_probe_rtt_from_above}
use moq_quic_bbrv3_go.Bbr3.Estimate.{enter_startup}
use moq_quic_bbrv3_go.Bbr3.Signals.{start_probe_bw_down, start_probe_bw_cruise}
use moq_quic_bbrv3_go.Bbr3.Events.{
  last_16, update_and_log_stats, record_rtt, record_delivery, maybe_exit_probe_rtt,
  update_bandwidth, force_probe_rtt, process_round, process_ack,
}
use moq_quic_bbrv3_go.Bbr3.Calm.{
  Calm, Calm-refl, Calm-trans, exit_recovery-Calm, update_max_bw_filter-Calm,
}
use moq_quic_bbrv3_go.Bbr3.Calm.Estimate.{
  update_gains-Calm, check_startup_done-Calm, check_drain_acked-Calm,
  update_control_parameters-Calm, set_cwnd-Calm,
}
use moq_quic_bbrv3_go.Bbr3.Calm.Cycle.{exit_probe_rtt_from_above-Calm, update_model_and_state-Calm}

max_delivered-ge : (acc : ℕ) (infos : List AckInfo) → acc ≤ max_delivered acc infos
max_delivered-ge acc [] = omega arith
max_delivered-ge acc (info ∷ infos) =
    ground (arith, max_delivered-ge info.delivered infos, max_delivered-ge acc infos)

max_delivered-last :
    (acc : ℕ) (infos : List AckInfo) (x : AckInfo)
    → x.delivered ≤ max_delivered acc (infos ++ (x ∷ []))
max_delivered-last acc [] x = ground arith
max_delivered-last acc (info ∷ infos) x =
    ground (arith, max_delivered-last info.delivered infos x, max_delivered-last acc infos x)

-- Trimming to 16 entries keeps the newest.
last_16-append :
    (infos : List AckInfo) (x : AckInfo)
    → (front : List AckInfo) × (last_16 (infos ++ (x ∷ [])) ≡ front ++ (x ∷ []))
unfolding last_16
last_16-append infos x = elim (Bool-cases (ltb 16 (length (infos ++ (x ∷ []))))) [
  | inl long ↦ (drop n infos, rw long (drop-append_le n infos (x ∷ []) n_le))
  | inr short ↦ (infos, rw short)
]
  where
    n : ℕ
    n = length (infos ++ (x ∷ [])) - 16

    n_le : n ≤ length infos
    n_le = omega (arith, length-append infos (x ∷ []))

-- The invariant between calls, and the state in which `updateRound` runs.
abbrev pub NextWithin : {F : Type 0} → Sender F → Type 0
NextWithin b = b.round.next_round_delivered ≤ b.delivered

abbrev pub NewestSeen : {F : Type 0} → Sender F → Type 0
NewestSeen b = b.delivered ≤ max_delivered 0 b.ackinfo

module _ {F : Type 0} where
  pub record_delivery-NewestSeen : (k now : ℕ) (b : Sender F) → NewestSeen (record_delivery k now b)
  unfolding record_delivery
  record_delivery-NewestSeen k now b =
      let x : AckInfo = record {
        acked_bytes = k;
        record_time = now;
        delivered = wrap64 (b.delivered + k);
      } in
      let (front, e) = last_16-append b.ackinfo x in rw e (max_delivered-last 0 front x)

  record_rtt-Calm : (rtt now : ℕ) (b : Sender F) → Calm b (record_rtt rtt now b)
  unfolding record_rtt
  record_rtt-Calm rtt now b = ground arith

  pub update_and_log_stats-Calm : (wall : ℕ) (b : Sender F) → Calm b (update_and_log_stats wall b)
  unfolding update_and_log_stats
  update_and_log_stats-Calm wall b = ground arith

  -- The round starts, and its count and the end of packet conservation are written.
  abbrev pub round_started : Sender F → Sender F
  round_started b = record b {
    round = record {
      round_count = wrap64 (b.round.round_count + 1);
      is_round_start = true;
      next_round_delivered = b.delivered;
    };
    rounds_since_bw_probe = wrap64 (b.rounds_since_bw_probe + 1);
    packet_conservation = false;
  }

  update_round-starts :
      (b : Sender F) → NextWithin b → NewestSeen b → update_round b ≡ round_started b
  unfolding update_round
  update_round-starts b p q =
      let r : b.round.next_round_delivered ≤ max_delivered 0 b.ackinfo = omega arith in
      rw (le→leb _ _ r)

module _ {F : Type 0} (fl : Float F) where
  update_bandwidth-Calm : (now : ℕ) (b : Sender F) → Calm b (update_bandwidth fl now b)
  unfolding update_bandwidth
  update_bandwidth-Calm now b = ground arith

  force_probe_rtt-Calm : (now : ℕ) (b : Sender F) → Calm b (force_probe_rtt fl now b)
  unfolding force_probe_rtt
  force_probe_rtt-Calm now b = ground arith

  pub maybe_exit_probe_rtt-Calm : (now : ℕ) (b : Sender F) → Calm b (maybe_exit_probe_rtt fl now b)
  unfolding maybe_exit_probe_rtt
  maybe_exit_probe_rtt-Calm now b =
      ground (arith, exit_probe_rtt_from_above-Calm fl now b, Calm-refl b)

  pub maybe_exit_probe_rtt-ackinfo :
      (now : ℕ) (b : Sender F) → (maybe_exit_probe_rtt fl now b).ackinfo ≡ b.ackinfo
  unfolding maybe_exit_probe_rtt exit_probe_rtt_from_above start_probe_bw_down start_probe_bw_cruise
      enter_startup
  maybe_exit_probe_rtt-ackinfo now b = ground arith

  process_round-Calm :
      (mono now n : ℕ) (b : Sender F)
      → b.packet_conservation ≡ false
      → Calm b (process_round fl mono now n b)
  unfolding process_round
  process_round-Calm mono now n b h =
      let p : Calm b (if b.in_recovery_mode then exit_recovery b else b) =
        ground (arith, exit_recovery-Calm b, Calm-refl b) in
      let q = Calm-trans p (update_model_and_state-Calm fl mono now n _) in
      let r = Calm-trans q (update_gains-Calm fl _) in
      let s = Calm-trans r (update_control_parameters-Calm fl _) in
      let t = Calm-trans s (set_cwnd-Calm fl n _ (s.conservation h)) in
      let u = Calm-trans t (check_startup_done-Calm fl _) in
      let v = Calm-trans u (check_drain_acked-Calm fl mono n _) in
      Calm-trans (Calm-trans v (update_max_bw_filter-Calm _)) (force_probe_rtt-Calm now _)

  -- After the round has been counted, the rest of the acknowledgement is calm.
  pub process_ack-Calm :
      (mono now n : ℕ) (b : Sender F)
      → NextWithin b
      → NewestSeen b
      → Calm (round_started b) (process_ack fl mono now n b)
  unfolding process_ack
  process_ack-Calm mono now n b p q =
      let b0 : Sender F = round_started b in
      let c = update_bandwidth-Calm now b0 in
      let d = Calm-trans c (process_round-Calm mono now n _ (c.conservation refl)) in
      rw (update_round-starts b p q) (ground (arith, c, d))
