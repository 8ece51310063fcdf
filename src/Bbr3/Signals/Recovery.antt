-- ===== src/Bbr3/Signals/Recovery.antt =====
-- bbrv3.go: the minimal round-trip time, the saved window, recovery, and the send quantum.
use moq_quic_bbrv3_go.Prelude.{
  ℕ, ◌+◌, ◌*◌, ◌/◌, true, false, ◌&&◌, ◌||◌, not, ltb, ◌==◌, if◌then◌else◌, wrap64,
}
use moq_quic_bbrv3_go.Bbr3.Filters.{SimpleMaxFilter, filter_max_bw}
use moq_quic_bbrv3_go.Bbr3.State.{Sender}
use moq_quic_bbrv3_go.Bbr3.Signals.Counting.{is_probe_rtt, start_round}

module _ {F : Type 0} where
  unfoldable pub update_min_rtt : ℕ → Sender F → Sender F
  update_min_rtt now b =
      let expired = ltb (b.probe_rtt_min_stamp + b.config.probe_rtt_interval) now in
      let b1 = record b { probe_rtt_expired = expired } in
      if b1.min_rtt == 0 || expired
      then record b1 { min_rtt = b1.config.initial_rtt; min_rtt_stamp = now }
      else b1

  unfoldable pub save_cwnd : Sender F → Sender F
  save_cwnd b =
      if not b.in_recovery_mode && not (is_probe_rtt b.state)
      then record b { prior_cwnd = b.cwnd }
      else if ltb b.prior_cwnd b.cwnd
      then record b { prior_cwnd = b.cwnd }
      else b

  unfoldable pub restore_cwnd : Sender F → Sender F
  restore_cwnd b = if ltb b.cwnd b.prior_cwnd then record b { cwnd = b.prior_cwnd } else b

  unfoldable pub enter_recovery : ℕ → Sender F → Sender F
  enter_recovery now b =
      let b1 = save_cwnd b in
      start_round (record b1 {
        recovery_epoch_start = now;
        cwnd = wrap64 (b1.config.min_cwnd + b1.config.max_datagram_size);
        packet_conservation = true;
        in_recovery_mode = true;
      })

  unfoldable pub exit_recovery : Sender F → Sender F
  exit_recovery b =
      restore_cwnd (record b {
        recovery_epoch_start = 0;
        packet_conservation = false;
        in_recovery_mode = false;
      })

  unfoldable pub set_send_quantum : Sender F → Sender F
  set_send_quantum b =
      let floor =
        if ltb b.pacing_rate 150_000
        then b.config.max_datagram_size
        else wrap64 (2 * b.config.max_datagram_size) in
      let quantum = if ltb (b.pacing_rate / 1000) floor then floor else b.pacing_rate / 1000 in
      record b { send_quantum = if ltb 65536 quantum then 65536 else quantum }

  unfoldable pub modulate_cwnd_for_recovery : ℕ → Sender F → Sender F
  modulate_cwnd_for_recovery bytes_in_flight b =
      let target = wrap64 (bytes_in_flight + b.config.max_datagram_size) in
      if b.packet_conservation && ltb b.cwnd target then record b { cwnd = target } else b

  unfoldable pub update_max_bw_filter : Sender F → Sender F
  update_max_bw_filter b =
      if b.max_bw_filter.bw1 == 0
      then b
      else (let f : SimpleMaxFilter = record { bw0 = b.max_bw_filter.bw1; bw1 = 0 } in
          record b { max_bw_filter = f; max_bw = filter_max_bw f })
