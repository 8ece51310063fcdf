-- ===== src/Bbr3/Stats.antt =====
-- quic-go-bbr/internal/congestion/bbrv3_stats.go: the counters that a sender reports. The mutex is
-- not modelled: each method runs as one step. `time.Now()` and `time.Since` read a clock that is
-- the argument `wall`, in nanoseconds.
use Prim.Native.String.{String}
use moq_quic_bbrv3_go.Prelude.{
  ℕ, ◌+◌, ◌/◌, Bool, false, ◌||◌, ltb, leb, ◌==◌, if◌then◌else◌, wrap64,
}

pub record StatsConfig : Type 0 where
  pub enabled : Bool
  pub log_interval : ℕ
  pub conn_id : String

pub record Stats : Type 0 where
  pub enabled : Bool
  pub log_interval : ℕ
  pub last_log_time : ℕ
  pub conn_id : String
  pub cwnd : ℕ
  pub bytes_sent : ℕ
  pub bytes_lost : ℕ
  pub min_rtt : ℕ
  pub avg_rtt : ℕ
  pub current_rtt : ℕ
  pub rtt_count : ℕ
  pub rtt_sum : ℕ
  pub transmission_rate : ℕ
  pub ssthresh : ℕ
  pub retransmit_count : ℕ
  pub state : String
  pub pacing_rate : ℕ
  pub bandwidth : ℕ
  pub inflight : ℕ
  pub max_bandwidth : ℕ

unfoldable pub new_stats : StatsConfig → ℕ → Stats
new_stats config wall = record {
  enabled = config.enabled;
  log_interval = if config.log_interval == 0 then 1_000_000_000 else config.log_interval;
  last_log_time = wall;
  conn_id = config.conn_id;
  cwnd = 0;
  bytes_sent = 0;
  bytes_lost = 0;
  min_rtt = 0;
  avg_rtt = 0;
  current_rtt = 0;
  rtt_count = 0;
  rtt_sum = 0;
  transmission_rate = 0;
  ssthresh = 0;
  retransmit_count = 0;
  state = "";
  pacing_rate = 0;
  bandwidth = 0;
  inflight = 0;
  max_bandwidth = 0;
}

unfoldable pub set_enabled : Bool → Stats → Stats
set_enabled e s = record s { enabled = e }

unfoldable pub set_log_interval : ℕ → Stats → Stats
set_log_interval i s = record s { log_interval = i }

unfoldable pub set_conn_id : String → Stats → Stats
set_conn_id c s = record s { conn_id = c }

unfoldable pub update_cwnd : ℕ → Stats → Stats
update_cwnd v s = record s { cwnd = v }

unfoldable pub add_bytes_sent : ℕ → Stats → Stats
add_bytes_sent n s = record s { bytes_sent = wrap64 (s.bytes_sent + n) }

unfoldable pub add_bytes_lost : ℕ → Stats → Stats
add_bytes_lost n s = record s { bytes_lost = wrap64 (s.bytes_lost + n) }

-- A round-trip time that is not positive is the argument 0, and is skipped.
unfoldable pub update_rtt : ℕ → Stats → Stats
update_rtt rtt s =
    if ltb 0 rtt
    then record s {
      min_rtt = if s.min_rtt == 0 || ltb rtt s.min_rtt then rtt else s.min_rtt;
      current_rtt = rtt;
      rtt_sum = wrap64 (s.rtt_sum + rtt);
      rtt_count = wrap64 (s.rtt_count + 1);
      avg_rtt = wrap64 (s.rtt_sum + rtt) / wrap64 (s.rtt_count + 1);
    }
    else s

unfoldable pub update_transmission_rate : ℕ → Stats → Stats
update_transmission_rate v s = record s { transmission_rate = v }

unfoldable pub update_ssthresh : ℕ → Stats → Stats
update_ssthresh v s = record s { ssthresh = v }

unfoldable pub increment_retransmit : Stats → Stats
increment_retransmit s = record s { retransmit_count = wrap64 (s.retransmit_count + 1) }

unfoldable pub update_state : String → Stats → Stats
update_state v s = record s { state = v }

unfoldable pub update_pacing_rate : ℕ → Stats → Stats
update_pacing_rate v s = record s { pacing_rate = v }

unfoldable pub update_bandwidth : ℕ → Stats → Stats
update_bandwidth v s = record s { bandwidth = v }

unfoldable pub update_inflight : ℕ → Stats → Stats
update_inflight v s = record s { inflight = v }

unfoldable pub update_max_bandwidth : ℕ → Stats → Stats
update_max_bandwidth v s = record s { max_bandwidth = v }

-- `time.Since(lastLogTime) >= logInterval`
unfoldable pub should_log : ℕ → Stats → Bool
should_log wall s = if s.enabled then leb (s.last_log_time + s.log_interval) wall else false

-- The printing is left out; what changes is the time of the last log.
unfoldable pub log : ℕ → Stats → Stats
log wall s = if s.enabled then record s { last_log_time = wall } else s

-- BBRv3StatsSnapshot
pub record Snapshot : Type 0 where
  pub cwnd : ℕ
  pub bytes_sent : ℕ
  pub bytes_lost : ℕ
  pub min_rtt : ℕ
  pub avg_rtt : ℕ
  pub current_rtt : ℕ
  pub transmission_rate : ℕ
  pub ssthresh : ℕ
  pub retransmit_count : ℕ
  pub state : String
  pub pacing_rate : ℕ
  pub bandwidth : ℕ
  pub inflight : ℕ
  pub max_bandwidth : ℕ
  pub conn_id : String

-- The connection id is not set.
unfoldable pub get_stats_snapshot : Stats → Snapshot
get_stats_snapshot s = record {
  cwnd = s.cwnd;
  bytes_sent = s.bytes_sent;
  bytes_lost = s.bytes_lost;
  min_rtt = s.min_rtt;
  avg_rtt = s.avg_rtt;
  current_rtt = s.current_rtt;
  transmission_rate = s.transmission_rate;
  ssthresh = s.ssthresh;
  retransmit_count = s.retransmit_count;
  state = s.state;
  pacing_rate = s.pacing_rate;
  bandwidth = s.bandwidth;
  inflight = s.inflight;
  max_bandwidth = s.max_bandwidth;
  conn_id = "";
}
