-- ===== src/Collectors/Stopping.antt =====
-- quic-go-bbr/internal/congestion/bbrv3_stats_optimized.go: which calls panic.
use moq_quic_bbrv3_go.Prelude.{
  ℕ, ◌≡◌, refl, Bool, true, false, ◌&&◌, ◌||◌, not, All, List, [], ◌∷◌, ◌++◌, none, some,
  Option-cases, inl, inr, arith,
}
use moq_quic_bbrv3_go.Bbr3.Stats.{Snapshot}
use moq_quic_bbrv3_go.Collectors.Calls.{Call, rtt}
use moq_quic_bbrv3_go.Collectors.StatsOptimized.{
  StatsOptimized, StatsConfigOptimized, new_stats_optimized, start, stop, set_enabled, log_enters,
  log_sends, take_snapshot, work, notice_stop, drain_on, drain, should_log, gather, update_rtt,
  QueuedEvent, call, entering, sending, working, noticing, draining, asked, switched, stopped,
  queued_step, queued_run,
}

abbrev pub is_stop : QueuedEvent → Bool
is_stop stopped = true
is_stop _ = false

abbrev is_switch : QueuedEvent → Bool
is_switch stopped = true
is_switch (switched e) = true
is_switch _ = false

-- A collector that is on has an open channel; after a stop it is on and its channel closed.
abbrev running : StatsOptimized → Bool
running s = not s.enabled || not s.stop_closed

abbrev lame : StatsOptimized → Bool
lame s = s.enabled && s.stop_closed

abbrev SwitchesOf : StatsOptimized → StatsOptimized → Type 0
SwitchesOf s s' = (s'.enabled ≡ s.enabled) × (s'.stop_closed ≡ s.stop_closed)

gather-switches : (c : Call) (s : StatsOptimized) → SwitchesOf s (gather c s)
unfolding gather update_rtt
gather-switches (rtt n) s = ground arith
gather-switches c s = (refl, refl)

take_snapshot-switches :
    (xs : List Snapshot) (s : StatsOptimized) → SwitchesOf s (take_snapshot xs s)
unfolding take_snapshot
take_snapshot-switches [] s = (refl, refl)
take_snapshot-switches (x ∷ xs) s = (refl, refl)

drain_on-switches : (xs : List Snapshot) (s : StatsOptimized) → SwitchesOf s (drain_on xs s)
unfolding drain_on
drain_on-switches [] s = (refl, refl)
drain_on-switches (x ∷ xs) s = take_snapshot-switches (x ∷ xs) s

-- The steps that are no switch return.
goes-on :
    (e : QueuedEvent) (s : StatsOptimized)
    → is_switch e ≡ false
    → (s' : StatsOptimized) × (queued_step e s ≡ some s') × SwitchesOf s s'
unfolding queued_step should_log log_enters log_sends work notice_stop drain
goes-on (call c) s n = (_, refl, gather-switches c s)
goes-on entering s n = (_, refl, ground arith)
goes-on sending s n = (_, refl, ground arith)
goes-on working s n = (_, refl, ground (arith, take_snapshot-switches s.log_chan s))
goes-on noticing s n = (_, refl, ground arith)
goes-on draining s n = (_, refl, ground (arith, drain_on-switches s.log_chan s))
goes-on (asked wall) s n = (_, refl, ground arith)
goes-on stopped s n = absurd (ground arith)
goes-on (switched e) s n = absurd (ground arith)

step-running :
    (e : QueuedEvent) (s : StatsOptimized)
    → is_stop e ≡ false
    → running s ≡ true
    → (s' : StatsOptimized) × (queued_step e s ≡ some s') × (running s' ≡ true)
unfolding queued_step stop set_enabled start
step-running stopped s n r = absurd (ground arith)
step-running (switched e) s n r = elim (Option-cases (set_enabled e s)) [
  | inl q ↦ absurd (ground arith)
  | inr (s', q) ↦ (s', q, ground arith)
]
step-running e s n r = let (s', q, w) = goes-on e s refl in (s', q, ground arith)

step-lame :
    (e : QueuedEvent) (s s' : StatsOptimized)
    → lame s ≡ true
    → queued_step e s ≡ some s'
    → lame s' ≡ true
unfolding queued_step stop set_enabled start
step-lame stopped s s' l h = ground arith
step-lame (switched e) s s' l h = ground arith
step-lame e s s' l h = let (s1, q, w) = goes-on e s refl in ground arith

run-lame :
    (es : List QueuedEvent) (s : StatsOptimized)
    → lame s ≡ true
    → queued_run (es ++ switched false ∷ []) s ≡ none
unfolding queued_run queued_step set_enabled stop
run-lame [] s l = ground arith
run-lame (e ∷ es) s l = elim (Option-cases (queued_step e s)) [
  | inl q ↦ ground arith
  | inr (s', q) ↦ ground (arith, run-lame es s' (step-lame e s s' l q))
]

run-running :
    (es : List QueuedEvent) (s : StatsOptimized)
    → All (λ e. is_stop e ≡ false) es
    → running s ≡ true
    → (s' : StatsOptimized) × (queued_run es s ≡ some s')
unfolding queued_run
run-running [] s n r = (s, refl)
run-running (e ∷ es) s n r =
    let (s1, q, r1) = step-running e s n.0 r in
    let (s2, p) = run-running es s1 n.1 r1 in (s2, ground arith)

-- A new collector that is never stopped does not panic: whatever calls and steps of the worker
-- follow, switching it on and off included, they all return.
pub queued_run_total :
    (config : StatsConfigOptimized) (wall : ℕ) (es : List QueuedEvent)
    → All (λ e. is_stop e ≡ false) es
    → (s : StatsOptimized) × (queued_run es (new_stats_optimized config wall) ≡ some s)
unfolding new_stats_optimized start
queued_run_total config wall es n =
    run-running es (new_stats_optimized config wall) n (ground arith)

-- Once a collector that is on was stopped, switching it off panics, whatever happened between.
pub stopped_for_good :
    (es : List QueuedEvent) (s : StatsOptimized)
    → s.enabled ≡ true
    → queued_run (stopped ∷ es ++ switched false ∷ []) s ≡ none
unfolding queued_run queued_step stop
stopped_for_good es s on = elim (Option-cases (stop s)) [
  | inl q ↦ ground arith
  | inr (s', q) ↦ ground (arith, run-lame es s' (ground arith))
]
