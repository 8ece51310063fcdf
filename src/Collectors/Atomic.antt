-- ===== src/Collectors/Atomic.antt =====
-- quic-go-bbr/internal/congestion/stats.go: `statsCollector`, a call at a time. The pointers to the
-- state and to the extra values are nil until they are first stored. `V` is what SetExtra takes.
use Prim.Native.String.{String}
use text.Mathlib.Text.{◌==◌ as str_eq}
use moq_quic_bbrv3_go.Prelude.{
  ℕ, ◌+◌, Bool, true, false, ◌&&◌, List, [], ◌∷◌, Option, none, some, ltb, leb, ◌==◌, if◌then◌else◌,
  wrap64, quot64,
}
use moq_quic_bbrv3_go.Collectors.Calls.{
  Call, cwnd, bytes_sent, bytes_lost, rtt, transmission_rate, ssthresh, retransmit, state,
  pacing_rate, bandwidth, inflight, max_bandwidth,
}

-- StatsConfig, without the writer and the callback that Log hands its snapshot to
pub record CollectorConfig : Type 0 where
  pub enabled : Bool
  pub log_interval : ℕ
  pub conn_id : String
  pub algorithm : String

pub record StatsCollector (V : Type 0) : Type 0 where
  pub enabled : Bool
  pub log_interval : ℕ
  pub last_log_time : ℕ
  pub conn_id : String
  pub algorithm : String
  pub cwnd : ℕ
  pub ssthresh : ℕ
  pub bytes_sent : ℕ
  pub bytes_lost : ℕ
  pub retransmit_count : ℕ
  pub min_rtt : ℕ
  pub avg_rtt : ℕ
  pub current_rtt : ℕ
  pub rtt_count : ℕ
  pub rtt_sum : ℕ
  pub tx_rate : ℕ
  pub bandwidth : ℕ
  pub max_bandwidth : ℕ
  pub pacing_rate : ℕ
  pub inflight : ℕ
  pub state : Option String
  pub extra : Option (List (String × V))

-- StatsSnapshot, without its time stamp
pub record StatsSnapshot (V : Type 0) : Type 0 where
  pub conn_id : String
  pub algorithm : String
  pub state : String
  pub cwnd : ℕ
  pub ssthresh : ℕ
  pub bytes_sent : ℕ
  pub bytes_lost : ℕ
  pub retransmit_count : ℕ
  pub min_rtt : ℕ
  pub avg_rtt : ℕ
  pub current_rtt : ℕ
  pub tx_rate : ℕ
  pub bandwidth : ℕ
  pub max_bandwidth : ℕ
  pub pacing_rate : ℕ
  pub inflight : ℕ
  pub extra : List (String × V)

-- What a pointer that may be nil holds.
abbrev pub or_nil {ℓ} : {A : Type ℓ} → A → Option A → A
or_nil d none = d
or_nil d (some a) = a

module _ {V : Type 0} where
  unfoldable pub new_stats_collector : CollectorConfig → ℕ → StatsCollector V
  new_stats_collector config wall = record {
    enabled = config.enabled;
    log_interval = if config.log_interval == 0 then 1_000_000_000 else config.log_interval;
    last_log_time = wall;
    conn_id = config.conn_id;
    algorithm = config.algorithm;
    cwnd = 0;
    ssthresh = 0;
    bytes_sent = 0;
    bytes_lost = 0;
    retransmit_count = 0;
    min_rtt = 0;
    avg_rtt = 0;
    current_rtt = 0;
    rtt_count = 0;
    rtt_sum = 0;
    tx_rate = 0;
    bandwidth = 0;
    max_bandwidth = 0;
    pacing_rate = 0;
    inflight = 0;
    state = none;
    extra = none;
  }

  -- With no other caller the compare-and-swap succeeds at once.
  unfoldable pub update_rtt : ℕ → StatsCollector V → StatsCollector V
  update_rtt r s = if r == 0 then s else record s {
    min_rtt = if ltb 0 s.min_rtt && leb s.min_rtt r then s.min_rtt else r;
    current_rtt = r;
    rtt_sum = wrap64 (s.rtt_sum + r);
    rtt_count = wrap64 (s.rtt_count + 1);
    avg_rtt = quot64 (wrap64 (s.rtt_sum + r)) (wrap64 (s.rtt_count + 1));
  }

  -- The one-line methods, Store or Add on one field.
  unfoldable pub collect : Call → StatsCollector V → StatsCollector V
  unfolding update_rtt
  collect (cwnd v) s = record s { cwnd = v }
  collect (bytes_sent n) s = record s { bytes_sent = wrap64 (s.bytes_sent + n) }
  collect (bytes_lost n) s = record s { bytes_lost = wrap64 (s.bytes_lost + n) }
  collect (rtt r) s = update_rtt r s
  collect (transmission_rate v) s = record s { tx_rate = v }
  collect (ssthresh v) s = record s { ssthresh = v }
  collect retransmit s = record s { retransmit_count = wrap64 (s.retransmit_count + 1) }
  collect (state v) s = record s { state = some v }
  collect (pacing_rate v) s = record s { pacing_rate = v }
  collect (bandwidth v) s = record s { bandwidth = v }
  collect (inflight v) s = record s { inflight = v }
  collect (max_bandwidth v) s = record s { max_bandwidth = v }

  -- The copy of the map, with a value put at a key.
  unfoldable pub put_extra : String → V → List (String × V) → List (String × V)
  put_extra k v [] = (k, v) ∷ []
  put_extra k v ((j, w) ∷ m) =
      let rest = put_extra k v m in if str_eq j k then (k, v) ∷ m else (j, w) ∷ rest

  unfoldable pub set_extra : String → V → StatsCollector V → StatsCollector V
  set_extra k v s = record s { extra = some (put_extra k v (or_nil [] s.extra)) }

  unfoldable pub get_snapshot : StatsCollector V → StatsSnapshot V
  get_snapshot s = record {
    conn_id = s.conn_id;
    algorithm = s.algorithm;
    state = or_nil "" s.state;
    cwnd = s.cwnd;
    ssthresh = s.ssthresh;
    bytes_sent = s.bytes_sent;
    bytes_lost = s.bytes_lost;
    retransmit_count = s.retransmit_count;
    min_rtt = s.min_rtt;
    avg_rtt = s.avg_rtt;
    current_rtt = s.current_rtt;
    tx_rate = s.tx_rate;
    bandwidth = s.bandwidth;
    max_bandwidth = s.max_bandwidth;
    pacing_rate = s.pacing_rate;
    inflight = s.inflight;
    extra = or_nil [] s.extra;
  }

  unfoldable pub enable : StatsCollector V → StatsCollector V
  enable s = record s { enabled = true }

  unfoldable pub disable : StatsCollector V → StatsCollector V
  disable s = record s { enabled = false }

  -- `ShouldLog` at the time `wall`, the compare-and-swap included: what it answers, and the state
  -- after it.
  unfoldable pub should_log : ℕ → StatsCollector V → Bool × StatsCollector V
  should_log wall s =
      if s.enabled && leb (s.last_log_time + s.log_interval) wall
      then (true, record s { last_log_time = wall })
      else (false, s)
