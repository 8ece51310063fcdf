-- ===== src/Collectors/Queue.antt =====
-- quic-go-bbr/internal/congestion/bbrv3_stats_optimized.go: the queue of snapshots, the goroutines that
-- empty it, and switching the collector off.
use moq_quic_bbrv3_go.Prelude.{
  ℕ, ◌+◌, ◌<◌, ◌≡◌, refl, Bool, true, false, ◌==◌, List, [], ◌∷◌, ◌++◌, some, All, Option-cases,
  Bool-cases, ◌⊎◌, inl, inr, arith,
}
use mathlib.Core.List.{append_assoc}
use moq_quic_bbrv3_go.Bbr3.Stats.{Snapshot}
use moq_quic_bbrv3_go.Collectors.Calls.{Call, rtt}
use moq_quic_bbrv3_go.Collectors.StatsOptimized.{
  StatsOptimized, StatsConfigOptimized, new_stats_optimized, start, stop, set_enabled, log_enters,
  log_sends, take_snapshot, work, notice_stop, drain_on, drain, should_log, gather, update_rtt,
  QueuedEvent, call, working, draining, asked, switched, queued_step, queued_run,
}

-- A collector that is on and was not stopped has a goroutine in the loop.
pub record Served (s : StatsOptimized) : Type 0 where
  pub running : (s.enabled ≡ false) ⊎ (s.stop_closed ≡ true) ⊎ (0 < s.workers)

take_snapshot-Served :
    (xs : List Snapshot) {s : StatsOptimized} → Served s → Served (take_snapshot xs s)
unfolding take_snapshot
take_snapshot-Served [] o = o
take_snapshot-Served (x ∷ xs) o = record { running = o.running }

drain_on-Served : (xs : List Snapshot) {s : StatsOptimized} → Served s → Served (drain_on xs s)
unfolding drain_on take_snapshot
drain_on-Served [] o = record { running = o.running }
drain_on-Served (x ∷ xs) o = record { running = o.running }

gather-Served : (c : Call) {s : StatsOptimized} → Served s → Served (gather c s)
unfolding gather update_rtt
gather-Served (rtt n) {s} o = ground arith
gather-Served c o = record { running = o.running }

step-Served :
    (e : QueuedEvent) {s : StatsOptimized}
    → Served s
    → {s' : StatsOptimized} → queued_step e s ≡ some s'
    → Served s'
unfolding queued_step should_log log_enters log_sends work notice_stop drain stop set_enabled start
step-Served (call c) o h = ground (arith, gather-Served c o)
step-Served working {s} o h = ground (arith, take_snapshot-Served s.log_chan o)
step-Served draining {s} o h = ground (arith, drain_on-Served s.log_chan o)
step-Served e o h = ground arith

run-Served :
    (es : List QueuedEvent) {s : StatsOptimized}
    → Served s
    → {s' : StatsOptimized} → queued_run es s ≡ some s'
    → Served s'
unfolding queued_run
run-Served [] o h = ground arith
run-Served (e ∷ es) {s} o h = elim (Option-cases (queued_step e s)) [
  | inl q ↦ absurd (ground arith)
  | inr (s1, q) ↦ run-Served es (step-Served e o q) (ground arith)
]

abbrev pub is_restart : QueuedEvent → Bool
is_restart (switched e) = e
is_restart _ = false

-- Off, the channel closed and no Log under way: what was accepted so far is logged or waits, and if
-- any of it waits then a goroutine is left.
pub record Ebbing (before : List Snapshot) (s : StatsOptimized) : Type 0 where
  pub off : s.enabled ≡ false
  pub closed : s.stop_closed ≡ true
  pub none_entered : s.entered ≡ 0
  pub kept : s.logged ++ s.log_chan ≡ before
  pub manned : (0 < s.workers + s.drainers) ⊎ (s.log_chan ≡ [])

gather-Ebbing :
    (b : List Snapshot) (c : Call) {s : StatsOptimized} → Ebbing b s → Ebbing b (gather c s)
unfolding gather update_rtt
gather-Ebbing b (rtt n) {s} g = ground arith
gather-Ebbing b c g = record {
  off = g.off;
  closed = g.closed;
  none_entered = g.none_entered;
  kept = g.kept;
  manned = g.manned;
}

take_snapshot-Ebbing :
    (b xs : List Snapshot) {s : StatsOptimized}
    → s.log_chan ≡ xs
    → 0 < s.workers + s.drainers
    → Ebbing b s
    → Ebbing b (take_snapshot xs s)
unfolding take_snapshot
take_snapshot-Ebbing b [] e w g = g
take_snapshot-Ebbing b (x ∷ xs) {s} e w g = record {
  off = g.off;
  closed = g.closed;
  none_entered = g.none_entered;
  kept = ground (arith, g.kept, append_assoc s.logged (x ∷ []) xs);
  manned = inl w;
}

drain_on-Ebbing :
    (b xs : List Snapshot) {s : StatsOptimized}
    → s.log_chan ≡ xs
    → 0 < s.workers + s.drainers
    → Ebbing b s
    → Ebbing b (drain_on xs s)
unfolding drain_on
drain_on-Ebbing b [] e w g = record {
  off = g.off;
  closed = g.closed;
  none_entered = g.none_entered;
  kept = g.kept;
  manned = inr e;
}
drain_on-Ebbing b (x ∷ xs) e w g = take_snapshot-Ebbing b (x ∷ xs) e w g

work-Ebbing : (b : List Snapshot) {s : StatsOptimized} → Ebbing b s → Ebbing b (work s)
unfolding work
work-Ebbing b {s} g = elim (Bool-cases (s.workers == 0)) [
  | inl z ↦ rw (z) g
  | inr p ↦ rw (p) (take_snapshot-Ebbing b s.log_chan refl (ground arith) g)
]

drain-Ebbing : (b : List Snapshot) {s : StatsOptimized} → Ebbing b s → Ebbing b (drain s)
unfolding drain
drain-Ebbing b {s} g = elim (Bool-cases (s.drainers == 0)) [
  | inl z ↦ rw (z) g
  | inr p ↦ rw (p) (drain_on-Ebbing b s.log_chan refl (ground arith) g)
]

step-Ebbing :
    (b : List Snapshot) (e : QueuedEvent) {s : StatsOptimized}
    → is_restart e ≡ false
    → Ebbing b s
    → {s' : StatsOptimized} → queued_step e s ≡ some s'
    → Ebbing b s'
unfolding queued_step should_log log_enters log_sends notice_stop stop set_enabled start
step-Ebbing b (call c) n g h = ground (arith, gather-Ebbing b c g)
step-Ebbing b working n g h = ground (arith, work-Ebbing b g)
step-Ebbing b draining n g h = ground (arith, drain-Ebbing b g)
step-Ebbing b (asked wall) n g h = ground arith
step-Ebbing b e n g h = ground arith

pub run-Ebbing :
    (b : List Snapshot) (es : List QueuedEvent) {s : StatsOptimized}
    → All (λ e. is_restart e ≡ false) es
    → Ebbing b s
    → {s' : StatsOptimized} → queued_run es s ≡ some s'
    → Ebbing b s'
unfolding queued_run
run-Ebbing b [] n g h = ground arith
run-Ebbing b (e ∷ es) {s} n g h = elim (Option-cases (queued_step e s)) [
  | inl q ↦ absurd (ground arith)
  | inr (s1, q) ↦ run-Ebbing b es n.1 (step-Ebbing b e n.0 g q) (ground arith)
]

new_stats_optimized-Served :
    (config : StatsConfigOptimized) (wall : ℕ) → Served (new_stats_optimized config wall)
unfolding new_stats_optimized start
new_stats_optimized-Served config wall = ground arith

set_enabled-Ebbing :
    {s s' : StatsOptimized}
    → Served s
    → s.enabled ≡ true
    → s.entered ≡ 0
    → set_enabled false s ≡ some s'
    → Ebbing (s.logged ++ s.log_chan) s'
unfolding set_enabled stop
set_enabled-Ebbing o on z h = ground (arith, o.running)

pub switched-Ebbing :
    (config : StatsConfigOptimized) (wall : ℕ) (es es' : List QueuedEvent) (s s' : StatsOptimized)
    → queued_run es (new_stats_optimized config wall) ≡ some s
    → s.enabled ≡ true
    → s.entered ≡ 0
    → All (λ e. is_restart e ≡ false) es'
    → queued_run (switched false ∷ es') s ≡ some s'
    → Ebbing (s.logged ++ s.log_chan) s'
unfolding queued_run queued_step
switched-Ebbing config wall es es' s s' h on z n h' =
    let o : Served s = run-Served es (new_stats_optimized-Served config wall) h in
    elim (Option-cases (set_enabled false s)) [
      | inl q ↦ absurd (ground arith)
      | inr (s1, q) ↦
          run-Ebbing (s.logged ++ s.log_chan) es' n (set_enabled-Ebbing o on z q) (ground arith)
    ]
