-- ===== src/Bbr3/Stall.antt =====
-- bbrv3.go: ProbeRTT without a done stamp. `OnPacketAcked` returns before `handleProbeRtt` can set
-- the stamp, and `maybeExitProbeRTT` leaves the phase only when it is set.
use moq_quic_bbrv3_go.Prelude.{
  ℕ, ◌≡◌, refl, inl, inr, arith, false, Option-cases, List, [], ◌∷◌, All,
}
use moq_quic_bbrv3_go.Bbr3.Float.{Float}
use moq_quic_bbrv3_go.Bbr3.State.{probe_rtt, Sender}
use moq_quic_bbrv3_go.Bbr3.Events.{
  Event, packet_acked, retransmission_timeout, update_and_log_stats, record_rtt, record_delivery,
  maybe_exit_probe_rtt, register_ack, on_packet_acked, on_packet_sent, on_congestion_event,
  set_max_datagram_size, has_pacing_budget, on_retransmission_timeout, enable_stats, disable_stats,
  step, run,
}

pub record Stalled {F : Type 0} (rate : ℕ) (b : Sender F) : Type 0 where
  pub in_probe_rtt : b.state ≡ probe_rtt
  pub no_stamp : b.probe_rtt_done_stamp ≡ 0
  pub same_rate : b.pacing_rate ≡ rate

-- Any call but a retransmission timeout that rebuilds the sender.
abbrev pub NoRebuild : Event → Type 0
NoRebuild (retransmission_timeout m m' r) = r ≡ false
NoRebuild _ = Unit {0}

module _ {F : Type 0} (fl : Float F) where
  register_ack-Stalled :
      (rate sent number k now : ℕ) (b : Sender F)
      → Stalled rate b
      → Stalled rate (register_ack fl sent number k now b)
  unfolding register_ack maybe_exit_probe_rtt record_delivery record_rtt
  register_ack-Stalled rate sent number k now b h = ground arith

  on_packet_acked-Stalled :
      (rate mono wall number k n now : ℕ) (b : Sender F)
      → Stalled rate b
      → Stalled rate (on_packet_acked fl mono wall number k n now b)
  unfolding on_packet_acked update_and_log_stats
  on_packet_acked-Stalled rate mono wall number k n now b h =
      elim (Option-cases (b.sent_times number)) [
        | inl e ↦ rw (e, on_packet_acked) h
        | inr (sent, e) ↦
            let h' = register_ack-Stalled rate sent number k now b h in
            rw (e, on_packet_acked) (ground (arith, h'.in_probe_rtt))
      ]

  pub step-Stalled :
      (rate : ℕ) (e : Event) (b : Sender F)
      → NoRebuild e
      → Stalled rate b
      → Stalled rate (step fl e b)
  unfolding step on_packet_sent on_congestion_event set_max_datagram_size has_pacing_budget
      maybe_exit_probe_rtt enable_stats disable_stats on_retransmission_timeout
  step-Stalled rate (packet_acked m w n k p t) b ok h = on_packet_acked-Stalled rate m w n k p t b h
  step-Stalled rate (retransmission_timeout m m' r) b ok h = rw ok h
  step-Stalled rate e b ok h = ground arith

  run-keeps_Stalled :
      (rate : ℕ) (es : List Event) (b : Sender F)
      → All NoRebuild es
      → Stalled rate b
      → Stalled rate (run fl es b)
  unfolding run
  run-keeps_Stalled rate [] b ok h = h
  run-keeps_Stalled rate (e ∷ es) b ok h =
      run-keeps_Stalled rate es _ ok.1 (step-Stalled rate e b ok.0 h)

  -- A sender in ProbeRTT whose done stamp is 0 never leaves ProbeRTT, and its pacing rate never
  -- changes again: whatever packets are sent, acknowledged or lost, and whatever time passes, as
  -- long as no retransmission timeout rebuilds the sender.
  pub run-Stalled :
      (es : List Event) (b : Sender F)
      → b.state ≡ probe_rtt
      → b.probe_rtt_done_stamp ≡ 0
      → All NoRebuild es
      → Stalled b.pacing_rate (run fl es b)
  run-Stalled es b s z ok =
      run-keeps_Stalled b.pacing_rate es b ok
        (record { in_probe_rtt = s; no_stamp = z; same_rate = refl })
