-- ===== src/Collectors/Calls.antt =====
-- quic-go-bbr/internal/congestion: the calls that all collectors answer, and what the collector
-- with a mutex (bbrv3_stats.go) does on them.
use Prim.Native.String.{String}
use moq_quic_bbrv3_go.Prelude.{ℕ, List, [], ◌∷◌}
use moq_quic_bbrv3_go.Bbr3.Stats.{
  Stats, update_cwnd, add_bytes_sent, add_bytes_lost, update_rtt, update_transmission_rate,
  update_ssthresh, increment_retransmit, update_state, update_pacing_rate, update_bandwidth,
  update_inflight, update_max_bandwidth,
}

-- A call, with its argument. A duration that is not positive is the argument 0.
pub data Call : Type 0 where
  cwnd : ℕ → Call
  bytes_sent : ℕ → Call
  bytes_lost : ℕ → Call
  rtt : ℕ → Call
  transmission_rate : ℕ → Call
  ssthresh : ℕ → Call
  retransmit : Call
  state : String → Call
  pacing_rate : ℕ → Call
  bandwidth : ℕ → Call
  inflight : ℕ → Call
  max_bandwidth : ℕ → Call

unfoldable pub locked : Call → Stats → Stats
unfolding update_cwnd add_bytes_sent add_bytes_lost update_rtt update_transmission_rate
    update_ssthresh increment_retransmit update_state update_pacing_rate update_bandwidth
    update_inflight update_max_bandwidth
locked (cwnd v) s = update_cwnd v s
locked (bytes_sent n) s = add_bytes_sent n s
locked (bytes_lost n) s = add_bytes_lost n s
locked (rtt r) s = update_rtt r s
locked (transmission_rate v) s = update_transmission_rate v s
locked (ssthresh v) s = update_ssthresh v s
locked retransmit s = increment_retransmit s
locked (state v) s = update_state v s
locked (pacing_rate v) s = update_pacing_rate v s
locked (bandwidth v) s = update_bandwidth v s
locked (inflight v) s = update_inflight v s
locked (max_bandwidth v) s = update_max_bandwidth v s

-- Calls made one after the other.
unfoldable pub each {ℓ} : {S : Type ℓ} → (Call → S → S) → List Call → S → S
each f [] s = s
each f (c ∷ cs) s = each f cs (f c s)
