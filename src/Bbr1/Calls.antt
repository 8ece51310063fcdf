-- ===== src/Bbr1/Calls.antt =====
-- quic-go-bbr/internal/congestion/bbrv1.go: the calls of a sender, and sequences of them.
use moq_quic_bbrv3_go.Prelude.{
  ℕ, ◌+◌, ◌-◌, ◌%◌, max, Bool, true, ◌&&◌, ◌||◌, not, ltb, leb, if◌then◌else◌, List, [], ◌∷◌, ◌++◌,
  drop, Option, none, some, set,
}
use moq_quic_bbrv3_go.Bbr1.Float.{Float}
use moq_quic_bbrv3_go.Bbr1.State.{
  drain, probe_rtt, is_startup, is_drain, is_probe_bw, is_probe_rtt, Sender, second, ten_seconds,
  bw_win, expired, cycle_gain, rtt_seconds, min_maxbandwidth, new_sender, bdp, entry_probe_bw,
  may_exit_probe_rtt, update_maxbandwidth_filter, exit_recover,
}

-- `b.sentTimes[number]`: 0 for a packet that is not there.
abbrev pub sent_time : ℕ → (ℕ → Option ℕ) → ℕ
sent_time number m = elim (m number) [ none ↦ 0 | some t ↦ t ]

module _ {F : Type 0} (fl : Float F) where
  open fl use {of_int, to_int, lit, mul, div, sub, lt, ge}

  unfoldable pub on_packet_sent : (time number bytes : ℕ) → Sender F → Sender F
  on_packet_sent time number bytes b = record b {
    sent_times = set number (some time) b.sent_times;
    next_send_time =
        time
        + to_int
            (div (mul (of_int bytes) (of_int second)) (mul b.pacing_gain (of_int b.max_bandwidth)));
  }

  -- The sender, and the rate of delivery.
  unfoldable pub update_lastbandwidth_filter : ℕ → Sender F → Sender F × ℕ
  update_lastbandwidth_filter now b =
      let (start, sum) = expired now b.last_new_min_rtt 0 0 0 b.ackinfo in
      let b1 = record b { ackinfo = drop start b.ackinfo; delivered = b.delivered - sum } in
      (b1, to_int (div (of_int b1.delivered) (rtt_seconds fl b)))

  unfoldable pub has_pacing_budget : ℕ → Sender F → Sender F × Bool
  has_pacing_budget now b =
      let b1 = may_exit_probe_rtt fl now b in
      let (b2, rate) = update_lastbandwidth_filter now b1 in
      if is_probe_rtt b1.state
      then (b1, true)
      else (b2, lt (of_int rate) (mul (of_int b2.max_bandwidth) b2.pacing_gain))

  -- `OnPacketAcked`, up to the return in PROBE_RTT.
  unfoldable pub record_ack : (number acked_bytes now : ℕ) → Sender F → Sender F
  record_ack number acked_bytes now b =
      let rtt = now - sent_time number b.sent_times in
      let b1 = may_exit_probe_rtt fl now (record b { sent_times = set number none b.sent_times }) in
      let smaller = ltb rtt b1.last_new_min_rtt && ltb 0 rtt in
      record b1 {
        last_new_min_rtt = if smaller then rtt else b1.last_new_min_rtt;
        last_new_min_rtt_time = if smaller then now else b1.last_new_min_rtt_time;
        delivered = b1.delivered + acked_bytes;
        ackinfo = b1.ackinfo ++ (record { acked_bytes = acked_bytes; record_time = now } ∷ []);
      }

  -- The growth that counts in STARTUP.
  unfoldable pub has_grown : Sender F → Bool
  has_grown b =
      ltb b.startup_last_bw b.max_bandwidth
      && ge
          (div (sub (of_int b.max_bandwidth) (of_int b.startup_last_bw)) (of_int b.startup_last_bw))
          (lit 1 4)

  unfoldable pub note_growth : Sender F → Sender F
  note_growth b =
      if is_startup b.state && has_grown b
      then record b { startup_last_bw = b.max_bandwidth; startup_last_bw_grow25_round = b.round }
      else b

  unfoldable pub check_startup_done : Sender F → Sender F
  check_startup_done b =
      if is_startup b.state && leb 3 (b.round - b.startup_last_bw_grow25_round)
      then record b { state = drain; pacing_gain = lit 345 1000; cwnd_gain = lit 1 1 }
      else b

  -- A round ends.
  unfoldable pub next_round : (rate now : ℕ) → Sender F → Sender F
  next_round rate now b =
      let b1 = if b.in_recovery then exit_recover fl b else b in
      let b2 = record b1 {
        lately_bandwidth = set (b1.round % bw_win) rate b1.lately_bandwidth;
        round = b1.round + 1;
        pacing_gain = if is_probe_bw b1.state then cycle_gain fl (b1.round + 1) else b1.pacing_gain;
        round_start_time = now;
      } in
      check_startup_done (note_growth (update_maxbandwidth_filter fl b2))

  unfoldable pub check_drain_done : ℕ → Sender F → Sender F
  check_drain_done prior_in_flight b =
      if is_drain b.state && ltb prior_in_flight (to_int (bdp fl b)) then entry_probe_bw fl b else b

  unfoldable pub raise_bandwidth : (prior_in_flight rate : ℕ) → Sender F → Sender F
  raise_bandwidth prior_in_flight rate b =
      let app_limited = ltb prior_in_flight (to_int (bdp fl b)) in
      if (ltb b.max_bandwidth rate || (not app_limited && ltb 0 rate))
        && not (is_drain b.state)
        && not b.in_recovery
      then record b { max_bandwidth = max rate (min_maxbandwidth fl b) }
      else b

  unfoldable pub check_probe_rtt : ℕ → Sender F → Sender F
  check_probe_rtt now b =
      if leb ten_seconds (now - b.last_new_min_rtt_time)
        && leb ten_seconds (now - b.last_probe_rtt_start)
      then record b {
        state = probe_rtt;
        pacing_gain = lit 1 1;
        cwnd_gain = lit 1 1;
        last_new_min_rtt = ten_seconds;
        last_probe_rtt_start = now;
      }
      else b

  -- `OnPacketAcked`, from the return in PROBE_RTT on.
  unfoldable pub process_ack : (prior_in_flight now : ℕ) → Sender F → Sender F
  process_ack prior_in_flight now b =
      let (b1, rate) = update_lastbandwidth_filter now b in
      let b2 =
        if leb b1.last_new_min_rtt (now - b1.round_start_time)
        then next_round rate now b1
        else b1 in
      check_probe_rtt now
        (raise_bandwidth prior_in_flight rate (check_drain_done prior_in_flight b2))

  unfoldable pub on_packet_acked :
      (number acked_bytes prior_in_flight now : ℕ) → Sender F → Sender F
  on_packet_acked number acked_bytes prior_in_flight now b =
      let b1 = record_ack number acked_bytes now b in
      if is_probe_rtt b1.state then b1 else process_ack prior_in_flight now b1

  -- All statements of `OnCongestionEvent` are comments.
  unfoldable pub on_congestion_event : (number lost_bytes prior_in_flight : ℕ) → Sender F → Sender F
  on_congestion_event number lost_bytes prior_in_flight b = b

  unfoldable pub on_retransmission_timeout : (now now' : ℕ) → Bool → Sender F → Sender F
  on_retransmission_timeout now now' retransmitted b =
      if retransmitted
      then record (new_sender fl now now' b.max_datagram_size) {
        last_new_min_rtt = b.last_new_min_rtt;
        last_new_min_rtt_time = b.last_new_min_rtt_time;
        last_probe_rtt_start = b.last_probe_rtt_start;
      }
      else b

  unfoldable pub set_max_datagram_size : ℕ → Sender F → Sender F
  set_max_datagram_size size b = record b { max_datagram_size = size }

pub data Event : Type 0 where
  packet_sent : (time number bytes : ℕ) → Event
  packet_acked : (number acked_bytes prior_in_flight now : ℕ) → Event
  congestion : (number lost_bytes prior_in_flight : ℕ) → Event
  retransmission_timeout : (now now' : ℕ) → Bool → Event
  datagram_size : (size : ℕ) → Event
  pacing_budget : (now : ℕ) → Event

module _ {F : Type 0} (fl : Float F) where
  unfoldable pub step : Event → Sender F → Sender F
  step (packet_sent t n k) b = on_packet_sent fl t n k b
  step (packet_acked n k p t) b = on_packet_acked fl n k p t b
  step (congestion n k p) b = on_congestion_event fl n k p b
  step (retransmission_timeout t t' r) b = on_retransmission_timeout fl t t' r b
  step (datagram_size s) b = set_max_datagram_size fl s b
  step (pacing_budget t) b = (has_pacing_budget fl t b).0

  unfoldable pub run : List Event → Sender F → Sender F
  run [] b = b
  run (e ∷ es) b = run es (step e b)
