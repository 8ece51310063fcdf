-- ===== src/Collectors/Overtaking.antt =====
-- quic-go-bbr/internal/congestion/stats.go and bbrv3_stats_v2.go: a mean that an overtaken
-- goroutine leaves behind.
use moq_quic_bbrv3_go.Prelude.{ℕ, ◌+◌, ◌≤◌, ◌<◌, ◌^◌, ◌≡◌, quot64_small, true, List, [], ◌∷◌, arith}
use moq_quic_bbrv3_go.Collectors.Racing.{
  move, begin, move_at, begin_at, Pick, calls, moves, pick, schedule, new_system,
}
use moq_quic_bbrv3_go.Collectors.Owed.{all_of}
use moq_quic_bbrv3_go.Collectors.Quiescent.{is_idle}

-- Two goroutines that call with `a` and `b`: the second adds its sample between the first one's
-- count and its reading of the sum, and has stored its mean before the first one stores.
abbrev pub overtaken : ℕ → ℕ → List Pick
overtaken a b =
    calls 0 a
    ∷ moves 0
    ∷ moves 0
    ∷ moves 0
    ∷ moves 0
    ∷ moves 0
    ∷ calls 1 b
    ∷ moves 1
    ∷ moves 1
    ∷ moves 1
    ∷ moves 1
    ∷ moves 1
    ∷ moves 1
    ∷ moves 1
    ∷ moves 0
    ∷ moves 0
    ∷ []

-- There is an interleaving of two calls that leaves the sum of both samples as the mean, and no
-- goroutine inside UpdateRTT, if the sum is no overflow.
pub overtaken_mean :
    (a b : ℕ)
    → 0 < a
    → a ≤ b
    → a + b < 2 ^ 63
    → ((schedule (overtaken a b) (new_system 2)).cells.avg_rtt ≡ a + b)
      × (all_of is_idle (schedule (overtaken a b) (new_system 2)).pcs ≡ true)
unfolding schedule pick move_at move begin_at begin new_system
overtaken_mean a b h l f = ground (arith, quot64_small (a + b) 1, quot64_small (a + b) 2)
