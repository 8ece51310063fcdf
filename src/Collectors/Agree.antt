-- ===== src/Collectors/Agree.antt =====
-- quic-go-bbr/internal/congestion: on the same calls the collectors report the same figures.
use Prim.Native.String.{String}
use moq_quic_bbrv3_go.Prelude.{ℕ, ◌+◌, ◌^◌, ◌≤◌, ◌<◌, ◌≡◌, refl, quot64_small, List, [], ◌∷◌, arith}
use moq_quic_bbrv3_go.Bbr3.Stats as Locked
use moq_quic_bbrv3_go.Bbr3.Stats.{Stats, StatsConfig, Snapshot, new_stats}
use moq_quic_bbrv3_go.Collectors.Calls.{Call, locked, each}
use moq_quic_bbrv3_go.Collectors.Names.{known, listed, reported_name, reported_name-state_by_name}
use moq_quic_bbrv3_go.Collectors.Atomic
use moq_quic_bbrv3_go.Collectors.Atomic.{StatsCollector, CollectorConfig, StatsSnapshot, or_nil}
use moq_quic_bbrv3_go.Collectors.StatsV2
use moq_quic_bbrv3_go.Collectors.StatsV2.{StatsConfigV2, StatsV2}
use moq_quic_bbrv3_go.Collectors.StatsOptimized
use moq_quic_bbrv3_go.Collectors.StatsOptimized.{StatsConfigOptimized, StatsOptimized}

-- The part of a `StatsSnapshot` that a `BBRv3StatsSnapshot` has too.
abbrev pub shared : {V : Type 0} → StatsSnapshot V → Snapshot
shared x = record {
  cwnd = x.cwnd;
  bytes_sent = x.bytes_sent;
  bytes_lost = x.bytes_lost;
  min_rtt = x.min_rtt;
  avg_rtt = x.avg_rtt;
  current_rtt = x.current_rtt;
  transmission_rate = x.tx_rate;
  ssthresh = x.ssthresh;
  retransmit_count = x.retransmit_count;
  state = x.state;
  pacing_rate = x.pacing_rate;
  bandwidth = x.bandwidth;
  inflight = x.inflight;
  max_bandwidth = x.max_bandwidth;
  conn_id = x.conn_id;
}

-- What the collector with a mutex reports after some calls.
abbrev pub reference : StatsConfig → ℕ → List Call → Snapshot
reference config wall cs = Locked.get_stats_snapshot (each locked cs (new_stats config wall))

-- The round-trip times that are reported, added up.
abbrev pub heard : List Call → ℕ
heard [] = 0
heard (Call.rtt n ∷ cs) = n + heard cs
heard (c ∷ cs) = heard cs

-- Calls that add `n` to a sum keep it small, and the count below it.
abbrev sample : Call → ℕ
sample (Call.rtt n) = n
sample c = 0

heard-sample : (c : Call) (cs : List Call) → heard (c ∷ cs) ≡ sample c + heard cs
heard-sample (Call.rtt n) cs = refl
heard-sample c cs = omega arith

locked-Small :
    (c : Call) (r : Stats)
    → r.rtt_count ≤ r.rtt_sum
    → r.rtt_sum + sample c < 2 ^ 63
    → ((locked c r).rtt_count ≤ (locked c r).rtt_sum)
      × ((locked c r).rtt_sum ≡ r.rtt_sum + sample c)
unfolding locked
locked-Small (Call.rtt n) r h b = ground arith
locked-Small c r h b = ground arith

-- Two collectors report `x` and `y`, and what they keep of the round-trip times agrees.
record Agrees (x y : Snapshot) (sum sum' count count' : ℕ) : Type 0 where
  reports : x ≡ y
  sums : sum ≡ sum'
  counts : count ≡ count'

module _ {V : Type 0} (id : String) where
  abbrev AtomicAgrees : Stats → StatsCollector V → Type 0
  AtomicAgrees r s =
      Agrees (shared (Atomic.get_snapshot s))
        (record (Locked.get_stats_snapshot r) { conn_id = id }) s.rtt_sum r.rtt_sum s.rtt_count
        r.rtt_count

  collect-Agrees :
      (c : Call) (r : Stats) (s : StatsCollector V)
      → AtomicAgrees r s
      → r.rtt_count ≤ r.rtt_sum
      → r.rtt_sum + sample c < 2 ^ 63
      → AtomicAgrees (locked c r) (Atomic.collect c s)
  unfolding Locked.get_stats_snapshot Atomic.get_snapshot locked Atomic.collect
  collect-Agrees (Call.rtt n) r s a l b =
      ground (arith, quot64_small (r.rtt_sum + n) (r.rtt_count + 1))
  collect-Agrees c r s a l b = ground arith

  collects-Agrees :
      (cs : List Call) (r : Stats) (s : StatsCollector V)
      → AtomicAgrees r s
      → r.rtt_count ≤ r.rtt_sum
      → r.rtt_sum + heard cs < 2 ^ 63
      → AtomicAgrees (each locked cs r) (each Atomic.collect cs s)
  unfolding each
  collects-Agrees [] r s a l b = a
  collects-Agrees (c ∷ cs) r s a l b =
      let room = heard-sample c cs in
      let small = locked-Small c r l (omega arith) in
      collects-Agrees cs _ _ (collect-Agrees c r s a l (omega arith)) small.0 (omega arith)

abbrev NumberedAgrees : Stats → StatsV2 → Type 0
NumberedAgrees r s =
    Agrees (StatsV2.get_stats_snapshot s)
      (record (Locked.get_stats_snapshot r) { state = known r.state }) s.rtt_sum r.rtt_sum
      s.rtt_count r.rtt_count

number-Agrees :
    (c : Call) (r : Stats) (s : StatsV2)
    → NumberedAgrees r s
    → r.rtt_count ≤ r.rtt_sum
    → r.rtt_sum + sample c < 2 ^ 63
    → NumberedAgrees (locked c r) (StatsV2.number c s)
unfolding Locked.get_stats_snapshot StatsV2.get_stats_snapshot locked StatsV2.number
number-Agrees (Call.rtt n) r s a l b =
    ground (arith, quot64_small (r.rtt_sum + n) (r.rtt_count + 1))
number-Agrees (Call.state v) r s a l b = ground (arith, reported_name-state_by_name v)
number-Agrees c r s a l b = ground arith

numbers-Agrees :
    (cs : List Call) (r : Stats) (s : StatsV2)
    → NumberedAgrees r s
    → r.rtt_count ≤ r.rtt_sum
    → r.rtt_sum + heard cs < 2 ^ 63
    → NumberedAgrees (each locked cs r) (each StatsV2.number cs s)
unfolding each
numbers-Agrees [] r s a l b = a
numbers-Agrees (c ∷ cs) r s a l b =
    let room = heard-sample c cs in
    let small = locked-Small c r l (omega arith) in
    numbers-Agrees cs _ _ (number-Agrees c r s a l (omega arith)) small.0 (omega arith)

module _ (id : String) where
  abbrev QueuedAgrees : Stats → StatsOptimized → Type 0
  QueuedAgrees r s =
      Agrees (StatsOptimized.get_stats_snapshot s)
        (record (Locked.get_stats_snapshot r) { min_rtt = 0; conn_id = id }) s.rtt_sum r.rtt_sum
        s.rtt_count r.rtt_count

  gather-Agrees :
      (c : Call) (r : Stats) (s : StatsOptimized)
      → QueuedAgrees r s
      → r.rtt_count ≤ r.rtt_sum
      → r.rtt_sum + sample c < 2 ^ 63
      → QueuedAgrees (locked c r) (StatsOptimized.gather c s)
  unfolding Locked.get_stats_snapshot StatsOptimized.get_stats_snapshot locked StatsOptimized.gather
  gather-Agrees (Call.rtt n) r s a l b =
      ground (arith, quot64_small (r.rtt_sum + n) (r.rtt_count + 1))
  gather-Agrees c r s a l b = ground arith

  gathers-Agrees :
      (cs : List Call) (r : Stats) (s : StatsOptimized)
      → QueuedAgrees r s
      → r.rtt_count ≤ r.rtt_sum
      → r.rtt_sum + heard cs < 2 ^ 63
      → QueuedAgrees (each locked cs r) (each StatsOptimized.gather cs s)
  unfolding each
  gathers-Agrees [] r s a l b = a
  gathers-Agrees (c ∷ cs) r s a l b =
      let room = heard-sample c cs in
      let small = locked-Small c r l (omega arith) in
      gathers-Agrees cs _ _ (gather-Agrees c r s a l (omega arith)) small.0 (omega arith)

module _ (V : Type 0) where
  -- After any calls whose round-trip times add up to no overflow the collector of stats.go reports
  -- the figures that the collector with a mutex reports after them, with its own connection id,
  -- whatever the two configurations and clocks are.
  pub get_snapshot-collect :
      (config : CollectorConfig) (config' : StatsConfig) (wall wall' : ℕ) (cs : List Call)
      → heard cs < 2 ^ 63
      → shared (
          Atomic.get_snapshot
            (each Atomic.collect cs (Atomic.new_stats_collector {V = V} config wall)))
        ≡ record (reference config' wall' cs) { conn_id = config.conn_id }
  unfolding Atomic.new_stats_collector new_stats Locked.get_stats_snapshot Atomic.get_snapshot
  get_snapshot-collect config config' wall wall' cs b =
      (collects-Agrees config.conn_id cs (new_stats config' wall')
        (Atomic.new_stats_collector config wall)
        (record { reports = refl; sums = refl; counts = refl }) (omega arith) (omega arith)).reports

-- After any calls whose round-trip times add up to less than 2 ^ 63 BBRv3StatsV2 reports what the
-- collector with a mutex reports after them, but that a state which is not one of its eight names
-- is reported as "Unknown".
pub get_stats_snapshot-number :
    (config : StatsConfigV2) (config' : StatsConfig) (wall wall' : ℕ) (cs : List Call)
    → heard cs < 2 ^ 63
    → StatsV2.get_stats_snapshot (each StatsV2.number cs (StatsV2.new_stats_v2 config wall))
      ≡ record (reference config' wall' cs) { state = known ((reference config' wall' cs).state) }
unfolding StatsV2.new_stats_v2 new_stats Locked.get_stats_snapshot StatsV2.get_stats_snapshot
    reported_name listed
get_stats_snapshot-number config config' wall wall' cs b =
    (numbers-Agrees cs (new_stats config' wall') (StatsV2.new_stats_v2 config wall)
      (record { reports = refl; sums = refl; counts = refl }) (omega arith) (omega arith)).reports

-- After any calls whose round-trip times add up to less than 2 ^ 63 BBRv3StatsOptimized reports
-- what the collector with a mutex reports after them, with its own connection id, but that it
-- reports a least round-trip time of 0, whatever was measured.
pub get_stats_snapshot-gather :
    (config : StatsConfigOptimized) (config' : StatsConfig) (wall wall' : ℕ) (cs : List Call)
    → heard cs < 2 ^ 63
    → StatsOptimized.get_stats_snapshot
        (each StatsOptimized.gather cs (StatsOptimized.new_stats_optimized config wall))
      ≡ record (reference config' wall' cs) { min_rtt = 0; conn_id = or_nil "" config.conn_id }
unfolding StatsOptimized.new_stats_optimized new_stats Locked.get_stats_snapshot
    StatsOptimized.get_stats_snapshot
get_stats_snapshot-gather config config' wall wall' cs b =
    (gathers-Agrees (or_nil "" config.conn_id) cs (new_stats config' wall')
      (StatsOptimized.new_stats_optimized config wall) (ground arith) (omega arith)
      (omega arith)).reports
