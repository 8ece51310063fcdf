-- ===== src/Collectors/Names.antt =====
-- quic-go-bbr/internal/congestion/bbrv3_stats_v2.go: states by number and by name.
use Prim.Native.String.{String}
use text.Mathlib.Text.{◌==◌ as str_eq}
use text.Mathlib.TextEquality.{eq_iff}
use moq_quic_bbrv3_go.Prelude.{
  ℕ, zero, suc, ◌+◌, ◌≡◌, Bool, false, ◌||◌, List, [], ◌∷◌, leb, if◌then◌else◌, length, arith,
}

-- stateNames
abbrev pub state_names : List String
state_names =
    "Unknown" ∷ "Startup" ∷ "Drain" ∷ "ProbeBW-Down" ∷ "ProbeBW-Cruise" ∷ "ProbeBW-Refill"
    ∷ "ProbeBW-Up" ∷ "ProbeRTT" ∷ []

-- `xs[i]`; it is only read within bounds.
abbrev pub name_at : List String → ℕ → String
name_at [] i = ""
name_at (x ∷ xs) zero = x
name_at (x ∷ xs) (suc i) = name_at xs i

-- The loop of UpdateStateByName from index `i` on.
unfoldable pub state_by_name : String → ℕ → List String → ℕ
state_by_name s i [] = 0
state_by_name s i (x ∷ xs) = let rest = state_by_name s (i + 1) xs in if str_eq x s then i else rest

-- The name that Log and GetStatsSnapshot report.
unfoldable pub reported_name : ℕ → String
reported_name n = let i = if leb (length state_names) n then 0 else n in name_at state_names i

-- A name of the list stays itself, any other is "Unknown".
unfoldable pub listed : String → List String → Bool
listed s [] = false
listed s (x ∷ xs) = str_eq x s || listed s xs

abbrev pub known : String → String
known s = if listed s state_names then s else "Unknown"

-- What is stored by name is reported as that name, or as "Unknown".
pub reported_name-state_by_name :
    (s : String) → reported_name (state_by_name s 0 state_names) ≡ known s
unfolding reported_name state_by_name listed
reported_name-state_by_name s = ground (
  arith,
  eq_iff "Unknown" s,
  eq_iff "Startup" s,
  eq_iff "Drain" s,
  eq_iff "ProbeBW-Down" s,
  eq_iff "ProbeBW-Cruise" s,
  eq_iff "ProbeBW-Refill" s,
  eq_iff "ProbeBW-Up" s,
  eq_iff "ProbeRTT" s,
)
