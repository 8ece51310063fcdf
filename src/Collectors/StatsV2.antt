-- ===== src/Collectors/StatsV2.antt =====
-- quic-go-bbr/internal/congestion/bbrv3_stats_v2.go: `BBRv3StatsV2`, a call at a time. The callback of
-- the log and the hash of the connection id, which only the log reports, are left out.
use Prim.Native.String.{String}
use moq_quic_bbrv3_go.Prelude.{
  ℕ, ◌+◌, Bool, true, false, ◌&&◌, not, ltb, leb, ◌==◌, if◌then◌else◌, wrap64, quot64,
}
use moq_quic_bbrv3_go.Bbr3.Stats.{Snapshot}
use moq_quic_bbrv3_go.Collectors.Calls.{
  Call, cwnd, bytes_sent, bytes_lost, rtt, transmission_rate, ssthresh, retransmit, state,
  pacing_rate, bandwidth, inflight, max_bandwidth,
}
use moq_quic_bbrv3_go.Collectors.Names.{state_names, state_by_name, reported_name}

pub record StatsConfigV2 : Type 0 where
  pub enabled : Bool
  pub log_interval : ℕ

-- BBRv3StatsV2 with its statsData; the state is an index of `state_names`.
pub record StatsV2 : Type 0 where
  pub enabled : ℕ
  pub log_interval : ℕ
  pub last_log_time : ℕ
  pub cwnd : ℕ
  pub bytes_sent : ℕ
  pub bytes_lost : ℕ
  pub min_rtt : ℕ
  pub avg_rtt : ℕ
  pub current_rtt : ℕ
  pub rtt_count : ℕ
  pub rtt_sum : ℕ
  pub transmission_rate : ℕ
  pub ssthresh : ℕ
  pub retransmit_count : ℕ
  pub state : ℕ
  pub pacing_rate : ℕ
  pub bandwidth : ℕ
  pub inflight : ℕ
  pub max_bandwidth : ℕ

unfoldable pub new_stats_v2 : StatsConfigV2 → ℕ → StatsV2
new_stats_v2 config wall = record {
  enabled = if config.enabled then 1 else 0;
  log_interval = if config.log_interval == 0 then 1_000_000_000 else config.log_interval;
  last_log_time = wall;
  cwnd = 0;
  bytes_sent = 0;
  bytes_lost = 0;
  min_rtt = 0;
  avg_rtt = 0;
  current_rtt = 0;
  rtt_count = 0;
  rtt_sum = 0;
  transmission_rate = 0;
  ssthresh = 0;
  retransmit_count = 0;
  state = 0;
  pacing_rate = 0;
  bandwidth = 0;
  inflight = 0;
  max_bandwidth = 0;
}

-- With no other caller the compare-and-swap succeeds at once.
unfoldable pub update_rtt : ℕ → StatsV2 → StatsV2
update_rtt r s = if r == 0 then s else record s {
  min_rtt = if ltb 0 s.min_rtt && leb s.min_rtt r then s.min_rtt else r;
  current_rtt = r;
  rtt_sum = wrap64 (s.rtt_sum + r);
  rtt_count = wrap64 (s.rtt_count + 1);
  avg_rtt = quot64 (wrap64 (s.rtt_sum + r)) (wrap64 (s.rtt_count + 1));
}

unfoldable pub set_enabled : Bool → StatsV2 → StatsV2
set_enabled e s = record s { enabled = if e then 1 else 0 }

unfoldable pub set_log_interval : ℕ → StatsV2 → StatsV2
set_log_interval i s = record s { log_interval = i }

-- UpdateState, by number
unfoldable pub update_state : ℕ → StatsV2 → StatsV2
update_state n s = record s { state = n }

unfoldable pub update_state_by_name : String → StatsV2 → StatsV2
unfolding update_state
update_state_by_name v s = update_state (state_by_name v 0 state_names) s

-- The one-line methods, Store or Add on one field, and UpdateStateByName.
unfoldable pub number : Call → StatsV2 → StatsV2
unfolding update_rtt update_state_by_name
number (cwnd v) s = record s { cwnd = v }
number (bytes_sent n) s = record s { bytes_sent = wrap64 (s.bytes_sent + n) }
number (bytes_lost n) s = record s { bytes_lost = wrap64 (s.bytes_lost + n) }
number (rtt r) s = update_rtt r s
number (transmission_rate v) s = record s { transmission_rate = v }
number (ssthresh v) s = record s { ssthresh = v }
number retransmit s = record s { retransmit_count = wrap64 (s.retransmit_count + 1) }
number (state v) s = update_state_by_name v s
number (pacing_rate v) s = record s { pacing_rate = v }
number (bandwidth v) s = record s { bandwidth = v }
number (inflight v) s = record s { inflight = v }
number (max_bandwidth v) s = record s { max_bandwidth = v }

-- The compare-and-swap included: what it answers, and the state after it.
unfoldable pub should_log : ℕ → StatsV2 → Bool × StatsV2
should_log wall s =
    if not (s.enabled == 0) && leb (s.last_log_time + s.log_interval) wall
    then (true, record s { last_log_time = wall })
    else (false, s)

-- The connection id is not set.
unfoldable pub get_stats_snapshot : StatsV2 → Snapshot
get_stats_snapshot s = record {
  cwnd = s.cwnd;
  bytes_sent = s.bytes_sent;
  bytes_lost = s.bytes_lost;
  min_rtt = s.min_rtt;
  avg_rtt = s.avg_rtt;
  current_rtt = s.current_rtt;
  transmission_rate = s.transmission_rate;
  ssthresh = s.ssthresh;
  retransmit_count = s.retransmit_count;
  state = reported_name s.state;
  pacing_rate = s.pacing_rate;
  bandwidth = s.bandwidth;
  inflight = s.inflight;
  max_bandwidth = s.max_bandwidth;
  conn_id = "";
}
