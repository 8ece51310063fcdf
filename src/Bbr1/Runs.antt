-- ===== src/Bbr1/Runs.antt =====
-- quic-go-bbr/internal/congestion/bbrv1.go: the theorems on a sender with fixed-point numbers.
use moq_quic_bbrv3_go.Prelude.{
  ℕ, ◌≡◌, refl, arith, false, ◌==◌, if◌then◌else◌, List, [], ◌∷◌, none, some,
}
use moq_quic_bbrv3_go.Bbr1.State.{Sender, startup, probe_rtt, rtt_seconds, new_sender}
use moq_quic_bbrv3_go.Bbr1.Calls.{
  update_lastbandwidth_filter, on_packet_acked, Event, packet_sent, packet_acked, congestion,
  pacing_budget, run, has_pacing_budget,
}
use moq_quic_bbrv3_go.Bbr1.Float.{fixed}
use moq_quic_bbrv3_go.Bbr1.Recent.{total, recent, Summed, update_lastbandwidth_filter-recent}
use moq_quic_bbrv3_go.Bbr1.Gains.{Geared, run-Geared}
use moq_quic_bbrv3_go.Bbr1.Delivered.{last_time, run-Summed}
use moq_quic_bbrv3_go.Bbr1.ProbeRtt.{EndsInTime, leaves_probe_rtt}

-- Three packets; the second is lost, the others are acknowledged.
abbrev calls : List Event
calls =
    packet_sent 1_000_000_000 1 1200
    ∷ packet_sent 1_001_000_000 2 1200
    ∷ packet_sent 1_002_000_000 3 1200
    ∷ packet_acked 1 1200 3600 1_050_000_000
    ∷ congestion 2 1200 2400
    ∷ pacing_budget 1_060_000_000
    ∷ packet_acked 3 1200 1200 1_060_000_000
    ∷ []

abbrev fresh : Sender ℕ
fresh = record {
  state = startup;
  round = 0;
  round_start_time = 0;
  startup_last_bw_grow25_round = 0;
  startup_last_bw = 0;
  pacing_gain = 2_890_000_000;
  cwnd_gain = 2_890_000_000;
  sent_times = λ n. if n == 2 then some 5 else none;
  last_new_min_rtt = 20;
  last_new_min_rtt_time = 0;
  last_probe_rtt_start = 0;
  max_bandwidth = 4096;
  delivered = 2400;
  ackinfo =
      record { acked_bytes = 1200; record_time = 10 }
      ∷ record { acked_bytes = 1200; record_time = 40 }
      ∷ [];
  lately_bandwidth = λ _. 0;
  next_send_time = 0;
  max_datagram_size = 1200;
  in_recovery = false;
}

run-Geared_example : Geared fixed (run fixed calls (new_sender fixed 900 901 1200))
run-Geared_example = run-Geared fixed calls 900 901 1200

run-Summed_example : Summed (last_time 0 calls) (run fixed calls (new_sender fixed 900 901 1200))
run-Summed_example = run-Summed fixed calls 900 901 1200 (
  omega arith,
  (omega arith, (omega arith, (omega arith, (omega arith, (omega arith, (omega arith, tt)))))),
)

update_lastbandwidth_filter-recent_example : update_lastbandwidth_filter fixed 50 fresh ≡ (
  record fresh {
    ackinfo = recent 50 20 fresh.ackinfo;
    delivered = total (recent 50 20 fresh.ackinfo);
  },
  fixed.to_int
      (fixed.div (fixed.of_int (total (recent 50 20 fresh.ackinfo))) (rtt_seconds fixed fresh)),
)
update_lastbandwidth_filter-recent_example =
    update_lastbandwidth_filter-recent fixed 50 fresh refl (omega arith, (omega arith, tt))

abbrev probing : Sender ℕ
probing = record fresh { state = probe_rtt; last_probe_rtt_start = 1_000 }

leaves_probe_rtt_example :
    let asked = (has_pacing_budget fixed 300_001_000 probing).0 in
    EndsInTime fixed 300_001_000 probing asked
    × EndsInTime fixed 300_001_000 probing (on_packet_acked fixed 2 1200 2400 300_001_000 probing)
    × EndsInTime fixed 300_001_000 probing (on_packet_acked fixed 2 1200 2400 300_001_000 asked)
leaves_probe_rtt_example = leaves_probe_rtt fixed 2 1200 2400 300_001_000 probing refl (omega arith)
