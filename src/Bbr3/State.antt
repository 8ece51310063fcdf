-- ===== src/Bbr3/State.antt =====
-- quic-go-bbr/internal/congestion/bbrv3.go: the state of a sender.
-- `uint64` and byte counts are numbers, with their wrap-around written out where they grow; times
-- and durations are nanoseconds, which the code keeps at or above 0. `now.Sub(t) >= d` is written
-- `t + d ≤ now`. The pointers to the configuration, the filters and the statistics are owned by one
-- sender, so their targets are fields. The map `sentTimes` is a function.
use moq_quic_bbrv3_go.Prelude.{ℕ, Bool, List, Option, none, some, ◌==◌, if◌then◌else◌}
use moq_quic_bbrv3_go.Bbr3.Filters.{SimpleMaxFilter, MinMaxFilter}
use moq_quic_bbrv3_go.Bbr3.Stats.{Stats}

pub data State : Type 0 where
  startup drain probe_bw_down probe_bw_cruise probe_bw_refill probe_bw_up probe_rtt : State

pub data AckProbePhase : Type 0 where
  phase_init phase_stopping phase_refilling phase_starting phase_feedback : AckProbePhase

pub record Config (F : Type 0) : Type 0 where
  pub min_cwnd : ℕ
  pub initial_cwnd : ℕ
  pub initial_rtt : ℕ
  pub max_datagram_size : ℕ
  pub full_bw_count_threshold : ℕ
  pub full_bw_growth_rate : F
  pub probe_rtt_duration : ℕ
  pub probe_rtt_interval : ℕ
  pub loss_threshold : F
  pub full_loss_count : ℕ
  pub beta : F
  pub headroom : F

pub record RoundTripCounter : Type 0 where
  pub round_count : ℕ
  pub is_round_start : Bool
  pub next_round_delivered : ℕ

pub record FullPipeEstimator : Type 0 where
  pub is_filled_pipe : Bool
  pub full_bw : ℕ
  pub full_bw_count : ℕ

pub record AckInfo : Type 0 where
  pub acked_bytes : ℕ
  pub record_time : ℕ
  pub delivered : ℕ

pub record Sender (F : Type 0) : Type 0 where
  pub config : Config F
  pub state : State
  pub pacing_rate : ℕ
  pub pacing_gain : F
  pub send_quantum : ℕ
  pub cwnd : ℕ
  pub cwnd_gain : F
  pub packet_conservation : Bool
  pub prior_cwnd : ℕ
  pub round : RoundTripCounter
  pub idle_restart : Bool
  pub max_bw : ℕ
  pub bw_hi : ℕ
  pub bw_lo : ℕ
  pub bw : ℕ
  pub min_rtt : ℕ
  pub min_rtt_stamp : ℕ
  pub probe_rtt_min_delay : ℕ
  pub probe_rtt_min_stamp : ℕ
  pub probe_rtt_expired : Bool
  pub bdp_val : ℕ
  pub extra_acked : ℕ
  pub offload_budget : ℕ
  pub max_inflight : ℕ
  pub inflight_hi : ℕ
  pub inflight_lo : ℕ
  pub bw_latest : ℕ
  pub inflight_latest : ℕ
  pub max_bw_filter : SimpleMaxFilter
  pub extra_acked_filter : MinMaxFilter
  pub cycle_count : ℕ
  pub cycle_stamp : ℕ
  pub ack_phase : AckProbePhase
  pub extra_acked_interval_start : ℕ
  pub extra_acked_delivered : ℕ
  pub full_pipe : FullPipeEstimator
  pub probe_rtt_done_stamp : ℕ
  pub probe_rtt_round_done : Bool
  pub rounds_since_bw_probe : ℕ
  pub bw_probe_wait : ℕ
  pub bw_probe_up_cnt : ℕ
  pub bw_probe_up_acks : ℕ
  pub bw_probe_up_rounds : ℕ
  pub bw_probe_samples : Bool
  pub loss_round_start : Bool
  pub loss_in_round : Bool
  pub in_recovery_mode : Bool
  pub loss_round_delivered : ℕ
  pub loss_events_in_round : ℕ
  pub recovery_epoch_start : ℕ
  pub sent_times : ℕ → Option ℕ
  pub delivered : ℕ
  pub ackinfo : List AckInfo
  pub max_datagram_size : ℕ
  pub next_send_time : ℕ
  pub last_new_min_rtt : ℕ
  pub last_new_min_rtt_time : ℕ
  pub stats : Option Stats
  pub total_bytes_sent : ℕ
  pub total_bytes_lost : ℕ
  pub retransmit_count : ℕ

-- `sentTimes[k] = v` and `delete(sentTimes, k)`
unfoldable pub insert_time : ℕ → ℕ → (ℕ → Option ℕ) → ℕ → Option ℕ
insert_time k v m j = if j == k then some v else m j

unfoldable pub delete_time : ℕ → (ℕ → Option ℕ) → ℕ → Option ℕ
delete_time k m j = if j == k then none else m j
