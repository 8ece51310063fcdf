-- ===== src/Collectors/Emptying.antt =====
-- quic-go-bbr/internal/congestion/bbrv3_stats_optimized.go: the wait for the goroutines comes to its end.
use moq_quic_bbrv3_go.Prelude.{ℕ, ◌+◌, ◌*◌, ◌<◌, ◌≡◌, Bool, true, false, List, some, length, All}
use moq_quic_bbrv3_go.Collectors.StatsOptimized.{
  StatsOptimized, QueuedEvent, noticing, draining, queued_run,
}

-- The steps by which a goroutine comes to its return.
abbrev pub is_quitting : QueuedEvent → Bool
is_quitting noticing = true
is_quitting draining = true
is_quitting _ = false

-- How many of these steps are left.
abbrev left : StatsOptimized → ℕ
left s = 2 * s.workers + s.drainers + length s.log_chan

-- One step of the inner loop.
record Drained (s s1 : StatsOptimized) : Type 0 where
  fewer : left s1 < left s
  closed : s1.stop_closed ≡ s.stop_closed

-- The goroutines of the collector can all return from here.
abbrev Quits : StatsOptimized → Type 0
Quits s =
    (es : List QueuedEvent) × (s' : StatsOptimized) × All (λ e. is_quitting e ≡ true) es
    × (queued_run es s ≡ some s')
    × (s'.workers + s'.drainers ≡ 0)
