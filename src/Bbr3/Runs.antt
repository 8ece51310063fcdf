-- ===== src/Bbr3/Runs.antt =====
-- bbrv3.go: the theorems on concrete senders, over the fixed-point numbers of `Float`, and tests.
use moq_quic_bbrv3_go.Prelude.{
  ℕ, ◌+◌, ◌≤◌, ◌<◌, ◌≡◌, refl, arith, true, ◌==◌, if◌then◌else◌, List, [], ◌∷◌, none, wrap64,
}
use moq_quic_bbrv3_go.Bbr3.Float.{fixed}
use moq_quic_bbrv3_go.Bbr3.Filters.{MinMaxFilter}
use moq_quic_bbrv3_go.Bbr3.State.{probe_rtt, Sender, insert_time}
use moq_quic_bbrv3_go.Bbr3.Signals.{update_min_rtt}
use moq_quic_bbrv3_go.Bbr3.Estimate.{set_cwnd}
use moq_quic_bbrv3_go.Bbr3.Events.{
  Event, packet_sent, packet_acked, congestion, datagram_size, pacing_budget, on_packet_acked,
  has_pacing_budget, maybe_exit_probe_rtt, on_packet_sent, new_sender, step, run,
}
use moq_quic_bbrv3_go.Bbr3.Growth.{run-cwnd_bounded}
use moq_quic_bbrv3_go.Bbr3.Rounds.{NextWithin}
use moq_quic_bbrv3_go.Bbr3.Window.{on_packet_acked_starts_round, on_packet_acked_once}
use moq_quic_bbrv3_go.Bbr3.Stall.{Stalled, run-Stalled}
use moq_quic_bbrv3_go.Bbr3.AckStates.{AckMoves, on_packet_acked_transitions}
use moq_quic_bbrv3_go.Bbr3.Expiry.{run-probe_rtt_expired}
use moq_quic_bbrv3_go.Bbr3.Bounds.{WindowWithin, set_cwnd_bounds}

-- A new sender, and one that has sent a packet.
abbrev fresh : Sender ℕ
fresh = new_sender fixed 0 0 1200

abbrev in_flight : Sender ℕ
in_flight = on_packet_sent fixed 0 1 1200 true fresh

abbrev calls : List Event
calls =
    packet_sent 0 1 1200 true
    ∷ packet_acked 50_000_000 50_000_000 1 1200 1200 50_000_000
    ∷ datagram_size 1500
    ∷ congestion 60_000_000 100
    ∷ pacing_budget 70_000_000
    ∷ []

run-cwnd_bounded_example :
    let b = run fixed calls fresh in
    (b.cwnd ≤ 15000) × (0 < b.bw_probe_up_cnt) × (b.round.next_round_delivered ≤ b.delivered)
run-cwnd_bounded_example =
    run-cwnd_bounded fixed 1500 0 0 1200 calls (omega arith) (omega arith)
      (tt, (tt, (omega arith, (tt, (tt, tt))))) (omega arith)

on_packet_acked_starts_round_example :
    let b = on_packet_acked fixed 9 9 1 1200 1200 9 in_flight in
    (b.round.is_round_start ≡ true)
    × (b.round.round_count ≡ wrap64 (in_flight.round.round_count + 1))
    × NextWithin b
unfolding new_sender on_packet_sent insert_time
on_packet_acked_starts_round_example =
    on_packet_acked_starts_round fixed 9 9 1 1200 1200 9 0 in_flight refl refl (omega arith)
      (omega arith)

on_packet_acked_once_example :
    let b = on_packet_acked fixed 9 9 1 1200 1200 9 in_flight in
    (b.delivered ≡ in_flight.delivered + 1200)
    × ((j : ℕ) → b.sent_times j ≡ (if j == 1 then none else in_flight.sent_times j))
    × ((mono wall k n now : ℕ) → on_packet_acked fixed mono wall 1 k n now b ≡ b)
unfolding new_sender on_packet_sent insert_time
on_packet_acked_once_example =
    on_packet_acked_once fixed 9 9 1 1200 1200 9 0 in_flight refl (omega arith) (omega arith)

abbrev stalled : Sender ℕ
stalled = record fresh { state = probe_rtt; probe_rtt_done_stamp = 0 }

run-Stalled_example : Stalled stalled.pacing_rate (run fixed calls stalled)
run-Stalled_example = run-Stalled fixed calls stalled refl refl (tt, (tt, (tt, (tt, (tt, tt)))))

on_packet_acked_transitions_example :
    let b = on_packet_acked fixed 9 9 1 1200 1200 9 in_flight in
    AckMoves in_flight.state b.state × (b.probe_rtt_min_stamp ≡ in_flight.probe_rtt_min_stamp)
on_packet_acked_transitions_example = on_packet_acked_transitions fixed 9 9 1 1200 1200 9 in_flight

run-probe_rtt_expired_example :
    (update_min_rtt 6_000_000_000 (run fixed (pacing_budget 5 ∷ []) fresh)).probe_rtt_expired ≡ true
unfolding new_sender run step has_pacing_budget maybe_exit_probe_rtt
run-probe_rtt_expired_example =
    run-probe_rtt_expired fixed 0 0 1200 6_000_000_000 (pacing_budget 5 ∷ []) (tt, tt) (omega arith)

set_cwnd_bounds_example : WindowWithin fresh (set_cwnd fixed 1200 fresh).cwnd
unfolding new_sender
set_cwnd_bounds_example = set_cwnd_bounds fixed 1200 fresh refl refl

abbrev window : MinMaxFilter
window = record { window = 10; entries = (1, 5) ∷ (8, 7) ∷ []; idx = 8; cur_max = 0 }
