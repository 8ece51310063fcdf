-- ===== src/Bbr1/Delivered.antt =====
-- quic-go-bbr/internal/congestion/bbrv1.go: the sum of the bytes that a sender keeps, over its calls.
use moq_quic_bbrv3_go.Prelude.{
  ℕ, ◌-◌, ◌≤◌, ◌≡◌, refl, ap, sym, ◌∙◌, arith, true, false, leb, List, [], ◌∷◌, none, set,
}
use moq_quic_bbrv3_go.Bbr1.Float.{Float}
use moq_quic_bbrv3_go.Bbr1.State.{
  Sender, is_probe_rtt, new_sender, entry_probe_bw, may_exit_probe_rtt, update_maxbandwidth_filter,
  exit_recover,
}
use moq_quic_bbrv3_go.Bbr1.Calls.{
  on_packet_sent, update_lastbandwidth_filter, has_pacing_budget, record_ack, note_growth,
  check_startup_done, next_round, check_drain_done, raise_bandwidth, check_probe_rtt, process_ack,
  on_packet_acked, on_congestion_event, on_retransmission_timeout, set_max_datagram_size, Event,
  packet_sent, packet_acked, congestion, retransmission_timeout, datagram_size, pacing_budget, step,
  run,
}
use moq_quic_bbrv3_go.Bbr1.Recent.{
  total, Summed, Before-weaken, append-Sorted, append-Before, total-append, Summed-if,
  update_lastbandwidth_filter-Summed,
}

-- The time of the last acknowledgement, the one before at `t`.
abbrev pub time_of : ℕ → Event → ℕ
time_of t (packet_acked n k p now) = now
time_of t _ = t

abbrev pub last_time : ℕ → List Event → ℕ
last_time t [] = t
last_time t (e ∷ es) = last_time (time_of t e) es

abbrev pub Chronological : ℕ → List Event → Type 0
Chronological t [] = Unit
Chronological t (e ∷ es) = (t ≤ time_of t e) × Chronological (time_of t e) es

-- The same acknowledgements, and their sum.
record Same {F : Type 0} (a b : Sender F) : Type 0 where
  count : b.delivered ≡ a.delivered
  infos : b.ackinfo ≡ a.ackinfo

Same-Summed : {F : Type 0} (t : ℕ) (a b : Sender F) → Same a b → Summed t a → Summed t b
Same-Summed t a b q h = record {
  sum = q.count ∙ h.sum ∙ sym (ap total q.infos);
  sorted = rw q.infos h.sorted;
  past = rw q.infos h.past;
}

module _ {F : Type 0} (fl : Float F) where
  may_exit_probe_rtt-Same : (now : ℕ) (b : Sender F) → Same b (may_exit_probe_rtt fl now b)
  unfolding may_exit_probe_rtt entry_probe_bw
  may_exit_probe_rtt-Same now b = ground arith

  next_round-Same : (rate now : ℕ) (b : Sender F) → Same b (next_round fl rate now b)
  unfolding next_round exit_recover check_startup_done note_growth update_maxbandwidth_filter
  next_round-Same rate now b = ground arith

  finish-Same :
      (p rate now : ℕ) (b : Sender F)
      → Same b (check_probe_rtt fl now (raise_bandwidth fl p rate (check_drain_done fl p b)))
  unfolding check_probe_rtt raise_bandwidth check_drain_done entry_probe_bw
  finish-Same p rate now b = ground arith

  record_ack-Summed :
      (number k now t : ℕ) (b : Sender F)
      → t ≤ now
      → Summed t b
      → Summed now (record_ack fl number k now b)
  unfolding record_ack
  record_ack-Summed number k now t b l h =
      let q =
        may_exit_probe_rtt-Same now (record b { sent_times = set number none b.sent_times }) in
      let w = Before-weaken t now b.ackinfo l h.past in
      record {
        sum = rw (q.infos, q.count, h.sum) (sym (total-append k now b.ackinfo));
        sorted = rw q.infos (append-Sorted 0 k now b.ackinfo (omega arith) w h.sorted);
        past = rw q.infos (append-Before k now b.ackinfo w);
      }

  process_ack-Summed : (p now t : ℕ) (b : Sender F) → Summed t b → Summed t (process_ack fl p now b)
  unfolding process_ack
  process_ack-Summed p now t b h =
      let u = update_lastbandwidth_filter fl now b in
      let v = update_lastbandwidth_filter-Summed fl now t b h in
      let w =
        Summed-if t (leb u.0.last_new_min_rtt (now - u.0.round_start_time))
          (Same-Summed t _ _ (next_round-Same u.1 now u.0) v) v in
      Same-Summed t _ _ (finish-Same p u.1 now _) w

  step-Summed :
      (e : Event) (t : ℕ) (b : Sender F)
      → t ≤ time_of t e
      → Summed t b
      → Summed (time_of t e) (step fl e b)
  unfolding step on_packet_sent on_packet_acked on_congestion_event on_retransmission_timeout
      set_max_datagram_size has_pacing_budget new_sender
  step-Summed (packet_sent s n k) t b l h =
      Same-Summed t b _ (record { count = refl; infos = refl }) h
  step-Summed (packet_acked n k p now) t b l h =
      let r = record_ack-Summed n k now t b l h in
      Summed-if now (is_probe_rtt (record_ack fl n k now b).state) r
        (process_ack-Summed p now now _ r)
  step-Summed (congestion n k p) t b l h = h
  step-Summed (retransmission_timeout s s' true) t b l h = record {
    sum = refl;
    sorted = tt;
    past = tt;
  }
  step-Summed (retransmission_timeout s s' false) t b l h = h
  step-Summed (datagram_size s) t b l h =
      Same-Summed t b _ (record { count = refl; infos = refl }) h
  step-Summed (pacing_budget now) t b l h =
      let m = Same-Summed t b _ (may_exit_probe_rtt-Same now b) h in
      ground (arith, update_lastbandwidth_filter-Summed fl now t _ m)

  run-keeps_Summed :
      (es : List Event) (t : ℕ) (b : Sender F)
      → Chronological t es
      → Summed t b
      → Summed (last_time t es) (run fl es b)
  unfolding run
  run-keeps_Summed [] t b c h = h
  run-keeps_Summed (e ∷ es) t b (l, c) h =
      run-keeps_Summed es (time_of t e) _ c (step-Summed e t b l h)

  -- After any sequence of calls on a new sender in which no acknowledgement comes before an earlier one,
  -- `delivered` is the sum of the bytes of the acknowledgements that the sender keeps, which stand in
  -- the order of their times; losses, timeouts and queries may come at any time.
  pub run-Summed :
      (es : List Event) (now now' size : ℕ)
      → Chronological 0 es
      → Summed (last_time 0 es) (run fl es (new_sender fl now now' size))
  unfolding new_sender
  run-Summed es now now' size c =
      run-keeps_Summed es 0 _ c (record { sum = refl; sorted = tt; past = tt })
