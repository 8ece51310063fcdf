-- ===== src/Bbr3/Growth.antt =====
-- bbrv3.go: the invariant of the congestion window over every sequence of calls.
use moq_quic_bbrv3_go.Prelude.{
  ℕ, ◌+◌, ◌*◌, ◌^◌, ◌≤◌, ◌<◌, ◌≡◌, refl, inl, inr, arith, Bool, if◌then◌else◌, Bool-cases,
  Option-cases, List, [], ◌∷◌, All,
}
use moq_quic_bbrv3_go.Bbr3.Float.{Float}
use moq_quic_bbrv3_go.Bbr3.State.{Sender}
use moq_quic_bbrv3_go.Bbr3.Signals.{is_probe_rtt, start_round, save_cwnd, enter_recovery}
use moq_quic_bbrv3_go.Bbr3.Events.{
  Event, packet_sent, packet_acked, congestion, retransmission_timeout, datagram_size,
  pacing_budget, stats_on, stats_off, update_and_log_stats, process_ack, register_ack,
  on_packet_acked, on_packet_sent, on_congestion_event, set_max_datagram_size, has_pacing_budget,
  on_retransmission_timeout, new_sender, enable_stats, disable_stats, step, run,
}
use moq_quic_bbrv3_go.Bbr3.Calm.{Calm}
use moq_quic_bbrv3_go.Bbr3.Rounds.{update_and_log_stats-Calm, maybe_exit_probe_rtt-Calm}
use moq_quic_bbrv3_go.Bbr3.Window.{
  acked_of, acked_total, SizeWithin, Held, Calm-Held, round_started-Held, delivering-Held,
  register_ack-Calm, register_ack-NewestSeen, active-Calm,
}

-- A call keeps the invariant, and delivers no more than it acknowledges.
abbrev pub Keeps : {F : Type 0} → ℕ → ℕ → Sender F → Sender F → Type 0
Keeps s k b b' = Held s b' × (b'.delivered ≤ b.delivered + k)

module _ {F : Type 0} where
  Calm-Keeps : (s k : ℕ) {b b' : Sender F} → Calm b b' → Held s b → Keeps s k b b'
  Calm-Keeps s k c h = (Calm-Held s c h, omega (arith, c.delivered_eq))

  on_congestion_event-Held :
      (s mono k : ℕ) (gain : F) (b : Sender F)
      → Held s b
      → Held s (on_congestion_event mono k b gain)
  unfolding on_congestion_event enter_recovery start_round save_cwnd
  on_congestion_event-Held s mono k gain b h = ground arith

  on_congestion_event-delivered :
      (mono k : ℕ) (gain : F) (b : Sender F)
      → (on_congestion_event mono k b gain).delivered ≡ b.delivered
  unfolding on_congestion_event enter_recovery start_round save_cwnd
  on_congestion_event-delivered mono k gain b = ground arith

  set_max_datagram_size-Held :
      (s k : ℕ) (b : Sender F) → k ≤ s → Held s b → Held s (set_max_datagram_size k b)
  unfolding set_max_datagram_size
  set_max_datagram_size-Held s k b small h = ground arith

module _ {F : Type 0} (fl : Float F) where
  on_packet_acked-Keeps :
      (s mono wall number k n now : ℕ) (b : Sender F)
      → b.delivered + k < 2 ^ 64
      → Held s b
      → Keeps s k b (on_packet_acked fl mono wall number k n now b)
  unfolding on_packet_acked
  on_packet_acked-Keeps s mono wall number k n now b small h =
      elim (Option-cases (b.sent_times number)) [
        | inl e ↦ rw (e, on_packet_acked) (h, omega arith)
        | inr (sent, e) ↦ rw (e, on_packet_acked) (tracked sent)
      ]
    where
      tracked :
          (sent : ℕ)
          → let b1 = register_ack fl sent number k now b in
            Keeps s k b (
              update_and_log_stats wall
                (if is_probe_rtt b1.state then b1 else process_ack fl mono now n b1))
      tracked sent =
          let b1 = register_ack fl sent number k now b in
          let c = register_ack-Calm fl sent number k now b in
          let h1 : Held s b1 = Calm-Held s c (delivering-Held s number k b small h) in
          let d =
            active-Calm fl mono wall n now b1 h1.next_le
              (register_ack-NewestSeen fl sent number k now b) in
          elim (Bool-cases (is_probe_rtt b1.state)) [
            | inl idle ↦
                let g = update_and_log_stats-Calm wall b1 in
                rw idle (Calm-Held s g h1, omega (arith, c.delivered_eq, g.delivered_eq))
            | inr active ↦ rw active (
              Calm-Held s d (round_started-Held s b1 h1),
              omega (arith, c.delivered_eq, d.delivered_eq),
            )
          ]

  on_packet_sent-Keeps :
      (s t n k : ℕ) (r : Bool) (b : Sender F) → Held s b → Keeps s 0 b (on_packet_sent fl t n k r b)
  unfolding on_packet_sent
  on_packet_sent-Keeps s t n k r b h = ground arith

  new_sender-Held :
      (s mono mono' size : ℕ) → 1200 ≤ s → size ≤ s → Held s (new_sender fl mono mono' size)
  unfolding new_sender
  new_sender-Held s mono mono' size low high = ground arith

  on_retransmission_timeout-Keeps :
      (s mono mono' : ℕ) (r : Bool) (b : Sender F)
      → 1200 ≤ s
      → Held s b
      → Keeps s 0 b (on_retransmission_timeout fl mono mono' r b)
  unfolding on_retransmission_timeout new_sender
  on_retransmission_timeout-Keeps s mono mono' r b low h = ground arith

  step-Keeps :
      (s : ℕ) (e : Event) (b : Sender F)
      → 1200 ≤ s
      → SizeWithin s e
      → b.delivered + acked_of e < 2 ^ 64
      → Held s b
      → Keeps s (acked_of e) b (step fl e b)
  unfolding step
  step-Keeps s (packet_sent t n k r) b low fits small h = on_packet_sent-Keeps s t n k r b h
  step-Keeps s (packet_acked m w n k p t) b low fits small h =
      on_packet_acked-Keeps s m w n k p t b small h
  step-Keeps s (congestion m k) b low fits small h = (
    on_congestion_event-Held s m k (fl.lit 1 1) b h,
    omega (arith, on_congestion_event-delivered m k (fl.lit 1 1) b),
  )
  step-Keeps s (retransmission_timeout m m' r) b low fits small h =
      on_retransmission_timeout-Keeps s m m' r b low h
  step-Keeps s (datagram_size k) b low fits small h =
      unfold set_max_datagram_size in (set_max_datagram_size-Held s k b fits h, omega arith)
  step-Keeps s (pacing_budget t) b low fits small h =
      unfold has_pacing_budget in Calm-Keeps s 0 (maybe_exit_probe_rtt-Calm fl t b) h
  step-Keeps s (stats_on c w) b low fits small h =
      unfold enable_stats in (ground arith, omega arith)
  step-Keeps s stats_off b low fits small h = unfold disable_stats in (ground arith, omega arith)

  run-Held :
      (s : ℕ) (es : List Event) (b : Sender F)
      → 1200 ≤ s
      → All (SizeWithin s) es
      → b.delivered + acked_total es < 2 ^ 64
      → Held s b
      → Held s (run fl es b)
  unfolding run
  run-Held s [] b low fits small h = h
  run-Held s (e ∷ es) b low fits small h =
      let (h', d) = step-Keeps s e b low fits.0 (omega arith) h in
      run-Held s es (step fl e b) low fits.1 (omega arith) h'

  -- Whatever calls follow the construction of a sender, its congestion window never exceeds ten
  -- datagrams of the largest size used, which is the window that it starts with, the divisor of the
  -- inflight slope stays positive, and the next round's mark stays within the delivered bytes.
  -- Hypotheses: the size bound `s` is at least the default 1200, the sizes used are at most `s`, and
  -- fewer than 2 ^ 64 bytes are acknowledged.
  pub run-cwnd_bounded :
      (s mono mono' size : ℕ) (es : List Event)
      → 1200 ≤ s
      → size ≤ s
      → All (SizeWithin s) es
      → acked_total es < 2 ^ 64
      → let b = run fl es (new_sender fl mono mono' size) in
        (b.cwnd ≤ 10 * s) × (0 < b.bw_probe_up_cnt) × (b.round.next_round_delivered ≤ b.delivered)
  run-cwnd_bounded s mono mono' size es low high fits small =
      let start = new_sender-Held s mono mono' size low high in
      let zero_delivered : (new_sender fl mono mono' size).delivered ≡ 0 =
        unfold new_sender in refl in
      let h =
        run-Held s es (new_sender fl mono mono' size) low fits (omega (arith, zero_delivered))
          start in
      (h.window_le, h.divisor_pos, h.next_le)
