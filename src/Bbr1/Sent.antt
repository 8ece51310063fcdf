-- ===== src/Bbr1/Sent.antt =====
-- quic-go-bbr/internal/congestion/bbrv1.go: the times of sent packets, which only acknowledgements
-- remove.
use moq_quic_bbrv3_go.Prelude.{
  ℕ, ◌-◌, ◌≡◌, refl, ap, ◌∙◌, inl, inr, arith, All, ◌≢◌, false, leb, List, [], ◌∷◌, Bool-cases,
}
use moq_quic_bbrv3_go.Bbr1.Float.{Float}
use moq_quic_bbrv3_go.Bbr1.State.{
  Sender, is_probe_rtt, entry_probe_bw, may_exit_probe_rtt, update_maxbandwidth_filter,
  exit_recover,
}
use moq_quic_bbrv3_go.Bbr1.Calls.{
  on_packet_sent, update_lastbandwidth_filter, has_pacing_budget, record_ack, note_growth,
  check_startup_done, next_round, check_drain_done, raise_bandwidth, check_probe_rtt, process_ack,
  on_packet_acked, on_congestion_event, on_retransmission_timeout, set_max_datagram_size, Event,
  packet_sent, packet_acked, retransmission_timeout, pacing_budget, step, run,
}

-- A call that is not about the packet's number, but for its loss, and that does not rebuild the sender.
abbrev pub Elsewhere : ℕ → Event → Type 0
Elsewhere n (packet_sent t k bytes) = k ≢ n
Elsewhere n (packet_acked k bytes p now) = k ≢ n
Elsewhere n (retransmission_timeout now now' r) = r ≡ false
Elsewhere n _ = Unit

module _ {F : Type 0} (fl : Float F) where
  next_round-sent :
      (rate now : ℕ) (b : Sender F) → (next_round fl rate now b).sent_times ≡ b.sent_times
  unfolding next_round exit_recover check_startup_done note_growth update_maxbandwidth_filter
  next_round-sent rate now b = ground arith

  finish-sent :
      (p rate now : ℕ) (b : Sender F)
      → (check_probe_rtt fl now (raise_bandwidth fl p rate (check_drain_done fl p b))).sent_times
        ≡ b.sent_times
  unfolding check_probe_rtt raise_bandwidth check_drain_done entry_probe_bw
  finish-sent p rate now b = ground arith

  process_ack-sent : (p now : ℕ) (b : Sender F) → (process_ack fl p now b).sent_times ≡ b.sent_times
  unfolding process_ack update_lastbandwidth_filter
  process_ack-sent p now b =
      let (u, rate) = update_lastbandwidth_filter fl now b in
      elim (Bool-cases (leb u.last_new_min_rtt (now - u.round_start_time))) [
        | inl due ↦ rw (due, process_ack) (finish-sent p rate now _ ∙ next_round-sent rate now u)
        | inr early ↦ rw (early, process_ack) (finish-sent p rate now u)
      ]

  record_ack-sent :
      (k bytes now n : ℕ) (b : Sender F)
      → k ≢ n
      → (record_ack fl k bytes now b).sent_times n ≡ b.sent_times n
  unfolding record_ack may_exit_probe_rtt entry_probe_bw
  record_ack-sent k bytes now n b d = ground arith

  step-sent :
      (e : Event) (n : ℕ) (b : Sender F)
      → Elsewhere n e
      → (step fl e b).sent_times n ≡ b.sent_times n
  unfolding step on_packet_sent on_packet_acked on_congestion_event on_retransmission_timeout
      set_max_datagram_size has_pacing_budget update_lastbandwidth_filter may_exit_probe_rtt
      entry_probe_bw
  step-sent (packet_sent t k bytes) n b d = ground arith
  step-sent (packet_acked k bytes p now) n b d =
      let r = record_ack fl k bytes now b in
      elim (Bool-cases (is_probe_rtt r.state)) [
        | inl rtt ↦ rw (rtt, on_packet_acked) (record_ack-sent k bytes now n b d)
        | inr other ↦
            rw (other, on_packet_acked)
              (ap (λ m. m n) (process_ack-sent p now r) ∙ record_ack-sent k bytes now n b d)
      ]
  step-sent (retransmission_timeout now now' r) n b d = rw d refl
  step-sent (pacing_budget now) n b d = ground arith
  step-sent e n b d = refl

  -- The time of a sent packet stays in `sentTimes` as long as the packet is neither acknowledged nor sent
  -- again and no retransmission timeout rebuilds the sender, also when the packet is declared lost.
  pub run-sent :
      (es : List Event) (n : ℕ) (b : Sender F)
      → All (Elsewhere n) es
      → (run fl es b).sent_times n ≡ b.sent_times n
  unfolding run
  run-sent [] n b d = refl
  run-sent (e ∷ es) n b (d, ds) = run-sent es n (step fl e b) ds ∙ step-sent e n b d
