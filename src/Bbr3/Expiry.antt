-- ===== src/Bbr3/Expiry.antt =====
-- bbrv3.go: the stamp that decides when the next ProbeRTT is due, over every sequence of calls.
use moq_quic_bbrv3_go.Prelude.{ℕ, ◌+◌, ◌<◌, ◌≡◌, refl, ◌∙◌, arith, true, List, [], ◌∷◌, All}
use moq_quic_bbrv3_go.Bbr3.Float.{Float}
use moq_quic_bbrv3_go.Bbr3.State.{Sender}
use moq_quic_bbrv3_go.Bbr3.Signals.{
  start_round, start_probe_bw_down, start_probe_bw_cruise, update_min_rtt, save_cwnd,
  enter_recovery,
}
use moq_quic_bbrv3_go.Bbr3.Estimate.{enter_startup}
use moq_quic_bbrv3_go.Bbr3.Cycle.{exit_probe_rtt_from_above}
use moq_quic_bbrv3_go.Bbr3.Events.{
  maybe_exit_probe_rtt, Event, packet_acked, retransmission_timeout, on_packet_sent,
  on_congestion_event, set_max_datagram_size, has_pacing_budget, on_retransmission_timeout,
  new_sender, enable_stats, disable_stats, step, run,
}
use moq_quic_bbrv3_go.Bbr3.Stall.{NoRebuild}
use moq_quic_bbrv3_go.Bbr3.AckStates.{on_packet_acked_transitions}

module _ {F : Type 0} (fl : Float F) where
  step-stamp :
      (e : Event) (b : Sender F)
      → NoRebuild e
      → (step fl e b).probe_rtt_min_stamp ≡ b.probe_rtt_min_stamp
  unfolding step on_packet_sent on_congestion_event enter_recovery save_cwnd start_round
      set_max_datagram_size has_pacing_budget maybe_exit_probe_rtt exit_probe_rtt_from_above
      start_probe_bw_down start_probe_bw_cruise enter_startup enable_stats disable_stats
      on_retransmission_timeout
  step-stamp (packet_acked m w n k p t) b ok = (on_packet_acked_transitions fl m w n k p t b).1
  step-stamp (retransmission_timeout m m' r) b ok = rw ok
  step-stamp e b ok = ground arith

  run-stamp :
      (es : List Event) (b : Sender F)
      → All NoRebuild es
      → (run fl es b).probe_rtt_min_stamp ≡ b.probe_rtt_min_stamp
  unfolding run
  run-stamp [] b ok = refl
  run-stamp (e ∷ es) b ok = run-stamp es (step fl e b) ok.1 ∙ step-stamp e b ok.0

  -- The stamp that starts the ProbeRTT interval is never renewed by any sequence of calls without a
  -- rebuild: once the interval after the construction has passed, every update of the minimal
  -- round-trip time finds ProbeRTT expired, whether or not a ProbeRTT phase has been gone through.
  pub run-probe_rtt_expired :
      (mono mono' size now : ℕ) (es : List Event)
      → All NoRebuild es
      → mono + (run fl es (new_sender fl mono mono' size)).config.probe_rtt_interval < now
      → (update_min_rtt now (run fl es (new_sender fl mono mono' size))).probe_rtt_expired ≡ true
  unfolding update_min_rtt
  run-probe_rtt_expired mono mono' size now es ok late =
      let e = run-stamp es (new_sender fl mono mono' size) ok in
      let d : (new_sender fl mono mono' size).probe_rtt_min_stamp ≡ mono =
        unfold new_sender in refl in
      ground (arith, e, d)
