-- ===== src/Collectors/StatsOptimized.antt =====
-- quic-go-bbr/internal/congestion/bbrv3_stats_optimized.go: `BBRv3StatsOptimized`, a call at a time, with
-- its queue of snapshots and the goroutines that hand them to the log function. `workers` counts those
-- in the loop of logWorker and `drainers` those in its inner loop, `stop_closed` says that stopChan is
-- closed, `entered` counts the calls of Log that have found the collector enabled and have not sent
-- yet, and `logged` is what the log function was given.
use Prim.Native.String.{String}
use moq_quic_bbrv3_go.Prelude.{
  ℕ, ◌+◌, ◌-◌, Bool, true, false, ◌&&◌, not, List, [], ◌∷◌, ◌++◌, Option, none, some, ltb, leb,
  ◌==◌, if◌then◌else◌, wrap64, quot64, length,
}
use moq_quic_bbrv3_go.Bbr3.Stats.{Snapshot}
use moq_quic_bbrv3_go.Collectors.Calls.{
  Call, cwnd, bytes_sent, bytes_lost, rtt, transmission_rate, ssthresh, retransmit, state,
  pacing_rate, bandwidth, inflight, max_bandwidth,
}
use moq_quic_bbrv3_go.Collectors.Atomic.{or_nil}

pub record StatsConfigOptimized : Type 0 where
  pub enabled : Bool
  pub log_interval : ℕ
  pub conn_id : Option String

pub record StatsOptimized : Type 0 where
  pub enabled : Bool
  pub log_interval : ℕ
  pub last_log_time : ℕ
  pub conn_id : Option String
  pub cwnd : ℕ
  pub bytes_sent : ℕ
  pub bytes_lost : ℕ
  pub min_rtt : ℕ
  pub avg_rtt : ℕ
  pub current_rtt : ℕ
  pub rtt_count : ℕ
  pub rtt_sum : ℕ
  pub transmission_rate : ℕ
  pub ssthresh : ℕ
  pub retransmit_count : ℕ
  pub state : Option String
  pub pacing_rate : ℕ
  pub bandwidth : ℕ
  pub inflight : ℕ
  pub max_bandwidth : ℕ
  pub log_chan : List Snapshot
  pub stop_closed : Bool
  pub workers : ℕ
  pub drainers : ℕ
  pub entered : ℕ
  pub logged : List Snapshot

unfoldable pub start : StatsOptimized → StatsOptimized
start s = record s { workers = s.workers + 1 }

-- An empty connection id is the argument `none`.
unfoldable pub new_stats_optimized : StatsConfigOptimized → ℕ → StatsOptimized
unfolding start
new_stats_optimized config wall =
    let s : StatsOptimized = record {
      enabled = config.enabled;
      log_interval = if config.log_interval == 0 then 1_000_000_000 else config.log_interval;
      last_log_time = wall;
      conn_id = config.conn_id;
      cwnd = 0;
      bytes_sent = 0;
      bytes_lost = 0;
      min_rtt = 0;
      avg_rtt = 0;
      current_rtt = 0;
      rtt_count = 0;
      rtt_sum = 0;
      transmission_rate = 0;
      ssthresh = 0;
      retransmit_count = 0;
      state = none;
      pacing_rate = 0;
      bandwidth = 0;
      inflight = 0;
      max_bandwidth = 0;
      log_chan = [];
      stop_closed = false;
      workers = 0;
      drainers = 0;
      entered = 0;
      logged = [];
    } in
    if config.enabled then start s else s

-- The loop `for rttNanos < currentMin && currentMin > 0`, with no other caller.
unfoldable pub update_rtt : ℕ → StatsOptimized → StatsOptimized
update_rtt r s = if r == 0 then s else record s {
  min_rtt = if ltb r s.min_rtt && ltb 0 s.min_rtt then r else s.min_rtt;
  current_rtt = r;
  rtt_sum = wrap64 (s.rtt_sum + r);
  rtt_count = wrap64 (s.rtt_count + 1);
  avg_rtt =
      let count = wrap64 (s.rtt_count + 1) in
      if ltb 0 count then quot64 (wrap64 (s.rtt_sum + r)) count else s.avg_rtt;
}

-- The one-line methods, Store or Add on one field.
unfoldable pub gather : Call → StatsOptimized → StatsOptimized
unfolding update_rtt
gather (cwnd v) s = record s { cwnd = v }
gather (bytes_sent n) s = record s { bytes_sent = wrap64 (s.bytes_sent + n) }
gather (bytes_lost n) s = record s { bytes_lost = wrap64 (s.bytes_lost + n) }
gather (rtt r) s = update_rtt r s
gather (transmission_rate v) s = record s { transmission_rate = v }
gather (ssthresh v) s = record s { ssthresh = v }
gather retransmit s = record s { retransmit_count = wrap64 (s.retransmit_count + 1) }
gather (state v) s = record s { state = some v }
gather (pacing_rate v) s = record s { pacing_rate = v }
gather (bandwidth v) s = record s { bandwidth = v }
gather (inflight v) s = record s { inflight = v }
gather (max_bandwidth v) s = record s { max_bandwidth = v }

unfoldable pub set_log_interval : ℕ → StatsOptimized → StatsOptimized
set_log_interval i s = record s { log_interval = i }

unfoldable pub set_conn_id : String → StatsOptimized → StatsOptimized
set_conn_id c s = record s { conn_id = some c }

unfoldable pub should_log : ℕ → StatsOptimized → Bool × StatsOptimized
should_log wall s =
    if s.enabled && leb (s.last_log_time + s.log_interval) wall
    then (true, record s { last_log_time = wall })
    else (false, s)

unfoldable pub get_stats_snapshot : StatsOptimized → Snapshot
get_stats_snapshot s = record {
  cwnd = s.cwnd;
  bytes_sent = s.bytes_sent;
  bytes_lost = s.bytes_lost;
  min_rtt = s.min_rtt;
  avg_rtt = s.avg_rtt;
  current_rtt = s.current_rtt;
  transmission_rate = s.transmission_rate;
  ssthresh = s.ssthresh;
  retransmit_count = s.retransmit_count;
  state = or_nil "" s.state;
  pacing_rate = s.pacing_rate;
  bandwidth = s.bandwidth;
  inflight = s.inflight;
  max_bandwidth = s.max_bandwidth;
  conn_id = or_nil "" s.conn_id;
}

-- Log up to the test of `enabled`.
unfoldable pub log_enters : StatsOptimized → StatsOptimized
log_enters s = if s.enabled then record s { entered = s.entered + 1 } else s

-- The rest of Log, its loads of the fields at one moment: it never blocks, and drops the snapshot if
-- the queue, `make(chan BBRv3StatsSnapshot, 16)`, is full.
unfoldable pub log_sends : StatsOptimized → StatsOptimized
log_sends s =
    if s.entered == 0
    then s
    else if ltb (length s.log_chan) 16
    then record s { entered = s.entered - 1; log_chan = s.log_chan ++ get_stats_snapshot s ∷ [] }
    else record s { entered = s.entered - 1 }

-- `case snapshot := <-s.logChan`, in either loop.
unfoldable pub take_snapshot : List Snapshot → StatsOptimized → StatsOptimized
take_snapshot [] s = s
take_snapshot (x ∷ xs) s = record s { log_chan = xs; logged = s.logged ++ x ∷ [] }

unfoldable pub work : StatsOptimized → StatsOptimized
unfolding take_snapshot
work s = if s.workers == 0 then s else take_snapshot s.log_chan s

-- `case <-s.stopChan`
unfoldable pub notice_stop : StatsOptimized → StatsOptimized
notice_stop s =
    if not (s.workers == 0) && s.stop_closed
    then record s { workers = s.workers - 1; drainers = s.drainers + 1 }
    else s

-- The inner loop: the next snapshot, or the return if there is none.
unfoldable pub drain_on : List Snapshot → StatsOptimized → StatsOptimized
unfolding take_snapshot
drain_on [] s = record s { drainers = s.drainers - 1 }
drain_on (x ∷ xs) s = take_snapshot (x ∷ xs) s

unfoldable pub drain : StatsOptimized → StatsOptimized
unfolding drain_on
drain s = if s.drainers == 0 then s else drain_on s.log_chan s

-- `close(s.stopChan)`, which panics, `none`, on a closed channel; the caller then waits until no
-- goroutine is left.
unfoldable pub stop : StatsOptimized → Option StatsOptimized
stop s = if s.stop_closed then none else some (record s { stop_closed = true })

-- SetEnabled up to the wait.
unfoldable pub set_enabled : Bool → StatsOptimized → Option StatsOptimized
set_enabled e s =
    let s1 = record s { enabled = e } in
    if e && not s.enabled
    then some (start (record s1 { stop_closed = false }))
    else if not e && s.enabled
    then stop s1
    else some s1

-- What may happen to a collector, in any order: a call, or a step of one of its goroutines.
pub data QueuedEvent : Type 0 where
  call : Call → QueuedEvent
  entering sending working noticing draining stopped : QueuedEvent
  asked : (wall : ℕ) → QueuedEvent
  switched : Bool → QueuedEvent

unfoldable pub queued_step : QueuedEvent → StatsOptimized → Option StatsOptimized
queued_step (call c) s = some (gather c s)
queued_step entering s = some (log_enters s)
queued_step sending s = some (log_sends s)
queued_step working s = some (work s)
queued_step noticing s = some (notice_stop s)
queued_step draining s = some (drain s)
queued_step stopped s = stop s
queued_step (asked wall) s = some (should_log wall s).1
queued_step (switched e) s = set_enabled e s

unfoldable pub queued_run : List QueuedEvent → StatsOptimized → Option StatsOptimized
queued_run [] s = some s
queued_run (e ∷ es) s = elim (queued_step e s) [ none ↦ none | some s' ↦ queued_run es s' ]
