-- ===== src/Collectors/Quiescent.antt =====
-- quic-go-bbr/internal/congestion/stats.go and bbrv3_stats_v2.go: what concurrent calls of UpdateRTT
-- leave behind.
use moq_quic_bbrv3_go.Prelude.{
  ℕ, zero, suc, ◌+◌, ◌^◌, ◌<◌, ◌≡◌, refl, Bool, true, false, ◌&&◌, ◌||◌, List, [], ◌∷◌, ◌++◌, leb,
  ◌==◌, if◌then◌else◌, wrap64, All, length, length-append, arith,
}
use moq_quic_bbrv3_go.Collectors.Racing.{
  Cells, Pc, idle, load_min, move, move_at, System, Pick, calls, moves, pick, schedule, idle_all,
  new_system,
}
use moq_quic_bbrv3_go.Collectors.Owed.{
  begins_at, picked, samples, total, owes, lacks, clears, Fresh, sum_of, all_of, all_above,
  floor_clears, move_at-owes, move_at-lacks, move_at-Fresh, move_at-clears, begin_at-owes,
  begin_at-lacks, begin_at-Fresh, begin_at-clears,
}

-- What a schedule adds to a system, in every state.
pick-Fresh : (p : Pick) (s : System) → All Fresh s.pcs → All Fresh (pick p s).pcs
unfolding pick
pick-Fresh (calls i r) s f = begin_at-Fresh i r s.pcs f
pick-Fresh (moves i) s f = move_at-Fresh i s.cells s.pcs f

abbrev sum_due : System → ℕ
sum_due s = wrap64 (s.cells.rtt_sum + sum_of owes s.pcs)

abbrev count_due : System → ℕ
count_due s = wrap64 (s.cells.rtt_count + sum_of lacks s.pcs)

abbrev due_clears : ℕ → System → Bool
due_clears k s = floor_clears k s.cells && all_of (clears k) s.pcs

pick-sum_due :
    (p : Pick) (s : System) → sum_due (pick p s) ≡ wrap64 (total (picked p s) + sum_due s)
unfolding pick
pick-sum_due (calls i r) s = omega (arith, begin_at-owes i r s.pcs)
pick-sum_due (moves i) s = omega (arith, move_at-owes i s.cells s.pcs)

pick-count_due :
    (p : Pick) (s : System) → count_due (pick p s) ≡ wrap64 (length (picked p s) + count_due s)
unfolding pick
pick-count_due (calls i r) s = omega (arith, begin_at-lacks i r s.pcs)
pick-count_due (moves i) s = omega (arith, move_at-lacks i s.cells s.pcs)

pick-due_clears :
    (k : ℕ) (p : Pick) (s : System)
    → All Fresh s.pcs
    → due_clears k (pick p s) ≡ (all_above k (picked p s) && due_clears k s)
unfolding pick
pick-due_clears k (calls i r) s f = ground (arith, begin_at-clears k i r s.pcs)
pick-due_clears k (moves i) s f = move_at-clears k i s.cells s.pcs f

total-append : (xs ys : List ℕ) → total (xs ++ ys) ≡ total xs + total ys
total-append [] ys = omega arith
total-append (x ∷ xs) ys = omega (arith, total-append xs ys)

all_above-append :
    (k : ℕ) (xs ys : List ℕ) → all_above k (xs ++ ys) ≡ (all_above k xs && all_above k ys)
all_above-append k [] ys = refl
all_above-append k (x ∷ xs) ys = ground (arith, all_above-append k xs ys)

schedule-sum_due :
    (ps : List Pick) (s : System)
    → sum_due (schedule ps s) ≡ wrap64 (total (samples ps s) + sum_due s)
unfolding schedule samples
schedule-sum_due [] s = omega arith
schedule-sum_due (p ∷ ps) s = omega (
  arith,
  schedule-sum_due ps (pick p s),
  pick-sum_due p s,
  total-append (picked p s) (samples ps (pick p s)),
)

schedule-count_due :
    (ps : List Pick) (s : System)
    → count_due (schedule ps s) ≡ wrap64 (length (samples ps s) + count_due s)
unfolding schedule samples
schedule-count_due [] s = omega arith
schedule-count_due (p ∷ ps) s = omega (
  arith,
  schedule-count_due ps (pick p s),
  pick-count_due p s,
  length-append (picked p s) (samples ps (pick p s)),
)

schedule-due_clears :
    (k : ℕ) (ps : List Pick) (s : System)
    → All Fresh s.pcs
    → due_clears k (schedule ps s) ≡ (all_above k (samples ps s) && due_clears k s)
unfolding schedule samples
schedule-due_clears k [] s f = refl
schedule-due_clears k (p ∷ ps) s f = ground (
  arith,
  schedule-due_clears k ps (pick p s) (pick-Fresh p s f),
  pick-due_clears k p s f,
  all_above-append k (picked p s) (samples ps (pick p s)),
)

-- The least element, and 0 of the empty list.
abbrev pub least : List ℕ → ℕ
least [] = 0
least (x ∷ xs) = let r = least xs in if r == 0 || leb x r then x else r

All-append :
    (xs ys : List ℕ) → All (λ r. 0 < r) xs → All (λ r. 0 < r) ys → All (λ r. 0 < r) (xs ++ ys)
All-append [] ys f g = g
All-append (x ∷ xs) ys f g = (f.0, All-append xs ys f.1 g)

begins_at-pos : (i r : ℕ) (ps : List Pc) → All (λ r. 0 < r) (begins_at i r ps)
begins_at-pos i r [] = tt
begins_at-pos zero r (idle ∷ ps) = ground arith
begins_at-pos zero r (p ∷ ps) = tt
begins_at-pos (suc i) r (p ∷ ps) = begins_at-pos i r ps

samples-pos : (ps : List Pick) (s : System) → All (λ r. 0 < r) (samples ps s)
unfolding samples
samples-pos [] s = tt
samples-pos (calls i r ∷ ps) s =
    All-append (begins_at i r s.pcs) _ (begins_at-pos i r s.pcs)
      (samples-pos ps (pick (calls i r) s))
samples-pos (moves i ∷ ps) s = samples-pos ps (pick (moves i) s)

all_above-least :
    (k : ℕ) (xs : List ℕ)
    → All (λ r. 0 < r) xs
    → all_above k xs ≡ (least xs == 0 || leb k (least xs))
all_above-least k [] h = refl
all_above-least k (x ∷ xs) h = ground (arith, all_above-least k xs h.1, h.0)

-- A number that has the bounds that `xs` has is its least element.
bounds_unique : (m l : ℕ) → ((k : ℕ) → (m == 0 || leb k m) ≡ (l == 0 || leb k l)) → m ≡ l
bounds_unique m l h = ground (arith, h m, h l, h (m + 1), h (l + 1))

abbrev pub is_idle : Pc → Bool
is_idle idle = true
is_idle p = false

quiet_sum : (f : Pc → ℕ) → f idle ≡ 0 → (ps : List Pc) → all_of is_idle ps ≡ true → sum_of f ps ≡ 0
quiet_sum f z [] h = refl
quiet_sum f z (idle ∷ ps) h = omega (arith, quiet_sum f z ps h)
quiet_sum f z (p ∷ ps) h = absurd (ground arith)

quiet_all :
    (f : Pc → Bool) → f idle ≡ true → (ps : List Pc) → all_of is_idle ps ≡ true → all_of f ps ≡ true
quiet_all f z [] h = refl
quiet_all f z (idle ∷ ps) h = ground (arith, quiet_all f z ps h)
quiet_all f z (p ∷ ps) h = absurd (ground arith)

idle_all-Fresh : (n : ℕ) → All Fresh (idle_all n)
idle_all-Fresh zero = tt
idle_all-Fresh (suc n) = (tt, idle_all-Fresh n)

idle_all-quiet : (n : ℕ) → all_of is_idle (idle_all n) ≡ true
idle_all-quiet zero = refl
idle_all-quiet (suc n) = idle_all-quiet n

-- The sum and the count stay numbers of 64 bits.
abbrev In64 : Cells → Type 0
In64 m = (m.rtt_sum < 2 ^ 64) × (m.rtt_count < 2 ^ 64)

move_at-In64 : (i : ℕ) (m : Cells) (ps : List Pc) → In64 m → In64 (move_at i m ps).0
unfolding move_at move
move_at-In64 i m [] h = h
move_at-In64 zero m (load_min r ∷ ps) h = ground arith
move_at-In64 zero m (p ∷ ps) h = ground arith
move_at-In64 (suc i) m (p ∷ ps) h = move_at-In64 i m ps h

schedule-In64 : (ps : List Pick) (s : System) → In64 s.cells → In64 (schedule ps s).cells
unfolding schedule pick
schedule-In64 [] s h = h
schedule-In64 (calls i r ∷ ps) s h = schedule-In64 ps (pick (calls i r) s) h
schedule-In64 (moves i ∷ ps) s h =
    schedule-In64 ps (pick (moves i) s) (move_at-In64 i s.cells s.pcs h)

module _ (n : ℕ) (ps : List Pick)
    (quiet : all_of is_idle (schedule ps (new_system n)).pcs ≡ true) where
  abbrev final : System
  final = schedule ps (new_system n)

  abbrev seen : List ℕ
  seen = samples ps (new_system n)

  final_bounds : (k : ℕ) → floor_clears k final.cells ≡ (least seen == 0 || leb k (least seen))
  unfolding new_system
  final_bounds k = ground (
    arith,
    schedule-due_clears k ps (new_system n) (idle_all-Fresh n),
    quiet_all (clears k) refl final.pcs quiet,
    quiet_all (clears k) refl (idle_all n) (idle_all-quiet n),
    all_above-least k seen (samples-pos ps (new_system n)),
  )

  -- However the calls of `n` goroutines interleave, when no goroutine is inside UpdateRTT the least
  -- round-trip time is the least of the samples of all calls, the sum is their sum and the count is
  -- their number, both modulo 2 ^ 64.
  pub schedule-exact :
      (final.cells.min_rtt ≡ least seen)
      × (final.cells.rtt_sum ≡ wrap64 (total seen))
      × (final.cells.rtt_count ≡ wrap64 (length seen))
  unfolding new_system
  schedule-exact = (
    bounds_unique final.cells.min_rtt (least seen) final_bounds,
    omega (
      arith,
      schedule-sum_due ps (new_system n),
      schedule-In64 ps (new_system n) (omega arith, omega arith),
      quiet_sum owes refl final.pcs quiet,
      quiet_sum owes refl (idle_all n) (idle_all-quiet n),
    ),
    omega (
      arith,
      schedule-count_due ps (new_system n),
      schedule-In64 ps (new_system n) (omega arith, omega arith),
      quiet_sum lacks refl final.pcs quiet,
      quiet_sum lacks refl (idle_all n) (idle_all-quiet n),
    ),
  )
