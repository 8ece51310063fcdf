-- ===== src/Bbr3/Events/Acks.antt =====
-- bbrv3.go: `OnPacketSent`, `HasPacingBudget` and `OnPacketAcked`.
use moq_quic_bbrv3_go.Prelude.{
  ℕ, ◌+◌, ◌-◌, Bool, true, ◌&&◌, ◌||◌, ltb, leb, ◌==◌, if◌then◌else◌, List, [], ◌∷◌, none, some,
  wrap64,
}
use moq_quic_bbrv3_go.Bbr3.Float.{Float}
use moq_quic_bbrv3_go.Bbr3.Stats
use moq_quic_bbrv3_go.Bbr3.Stats.{StatsConfig}
use moq_quic_bbrv3_go.Bbr3.State.{probe_rtt, AckInfo, Sender, insert_time, delete_time}
use moq_quic_bbrv3_go.Bbr3.Signals.{is_probe_rtt, update_round, exit_recovery, update_max_bw_filter}
use moq_quic_bbrv3_go.Bbr3.Estimate.{
  update_gains, check_startup_done, check_drain_acked, update_control_parameters, set_cwnd,
}
use moq_quic_bbrv3_go.Bbr3.Cycle.{exit_probe_rtt_from_above, update_model_and_state}
use moq_quic_bbrv3_go.Bbr3.Events.Calls.{
  ten_seconds, total_acked, with_stats, update_and_log_stats, record_rtt, record_delivery,
}

module _ {F : Type 0} (fl : Float F) where
  open fl use {of_u64, to_u64, lit, mul, div, seconds}

  unfoldable pub maybe_exit_probe_rtt : ℕ → Sender F → Sender F
  maybe_exit_probe_rtt now b =
      if is_probe_rtt b.state
        && ltb 0 b.probe_rtt_done_stamp
        && leb (b.probe_rtt_done_stamp + b.config.probe_rtt_duration) now
      then exit_probe_rtt_from_above fl now b
      else b

  -- `HasPacingBudget` answers true in each of its three returns.
  unfoldable pub has_pacing_budget : ℕ → Sender F → Sender F × Bool
  has_pacing_budget now b = (maybe_exit_probe_rtt now b, true)

  -- The time that the packet takes at the pacing rate, as `time.Duration` of a float.
  unfoldable pub on_packet_sent : ℕ → ℕ → ℕ → Bool → Sender F → Sender F
  on_packet_sent sent_time packet_number bytes is_retransmittable b =
      let b1 = record b { sent_times = insert_time packet_number sent_time b.sent_times } in
      let b2 =
        if is_retransmittable
        then record b1 {
          total_bytes_sent = wrap64 (b1.total_bytes_sent + bytes);
          stats = with_stats (Stats.add_bytes_sent bytes) b1.stats;
        }
        else b1 in
      let time_per_byte = div (lit 1_000_000_000 1) (mul (of_u64 b2.pacing_rate) b2.pacing_gain) in
      if ltb 0 b2.pacing_rate
      then record b2 { next_send_time = sent_time + to_u64 (mul (of_u64 bytes) time_per_byte) }
      else b2

  -- The interval from the oldest entry on; 0 stands for one that is not positive.
  unfoldable pub delivery_rate_from : List AckInfo → ℕ → ℕ
  delivery_rate_from [] now = 0
  delivery_rate_from (oldest ∷ rest) now =
      if now - oldest.record_time == 0
      then 0
      else to_u64 (div (of_u64 (total_acked (oldest ∷ rest))) (seconds (now - oldest.record_time)))

  unfoldable pub calculate_delivery_rate : ℕ → Sender F → ℕ
  calculate_delivery_rate now b = delivery_rate_from b.ackinfo now

  unfoldable pub update_bandwidth : ℕ → Sender F → Sender F
  update_bandwidth now b =
      let rate = calculate_delivery_rate now b in
      if ltb b.max_bw rate || (ltb 0 b.bw && ltb 0 rate)
      then record b { max_bw = rate; max_bw_filter = record b.max_bw_filter { bw1 = rate } }
      else b

  -- The last `if` of the round's body: ProbeRTT by the old clock of bbrv1.
  unfoldable pub force_probe_rtt : ℕ → Sender F → Sender F
  force_probe_rtt now b =
      if leb (b.min_rtt_stamp + ten_seconds) now && leb (b.probe_rtt_done_stamp + ten_seconds) now
      then record b {
        state = probe_rtt;
        pacing_gain = lit 1 1;
        cwnd_gain = lit 1 1;
        min_rtt = ten_seconds;
        probe_rtt_done_stamp = now;
      }
      else b

  -- The body of the branch that a passed round trip takes.
  unfoldable pub process_round : ℕ → ℕ → ℕ → Sender F → Sender F
  process_round mono now prior_in_flight b =
      let b1 = if b.in_recovery_mode then exit_recovery b else b in
      let b2 = update_gains fl (update_model_and_state fl mono now prior_in_flight b1) in
      let b3 = set_cwnd fl prior_in_flight (update_control_parameters fl b2) in
      let b4 = check_drain_acked fl mono prior_in_flight (check_startup_done fl b3) in
      force_probe_rtt now (update_max_bw_filter b4)

  -- From `updateRound` on, once the sender is known not to be in ProbeRTT.
  unfoldable pub process_ack : ℕ → ℕ → ℕ → Sender F → Sender F
  process_ack mono now prior_in_flight b =
      let b1 = update_bandwidth now (update_round b) in
      if leb (b1.min_rtt_stamp + b1.min_rtt) now || b1.round.is_round_start
      then process_round mono now prior_in_flight b1
      else b1

  -- What `OnPacketAcked` does up to the test for ProbeRTT.
  unfoldable pub register_ack : ℕ → ℕ → ℕ → ℕ → Sender F → Sender F
  register_ack sent_time number acked_bytes now b =
      let b1 = record b { sent_times = delete_time number b.sent_times } in
      let b2 = record_delivery acked_bytes now (record_rtt (now - sent_time) now b1) in
      maybe_exit_probe_rtt now b2

  unfoldable pub on_packet_acked : ℕ → ℕ → ℕ → ℕ → ℕ → ℕ → Sender F → Sender F
  on_packet_acked mono wall number acked_bytes prior_in_flight now b = elim (b.sent_times number) [
    | none ↦ b
    | some sent_time ↦
        let b1 = register_ack sent_time number acked_bytes now b in
        update_and_log_stats wall
          (if is_probe_rtt b1.state then b1 else process_ack mono now prior_in_flight b1)
  ]
