-- ===== src/Collectors/Owed.antt =====
-- quic-go-bbr/internal/congestion/stats.go and bbrv3_stats_v2.go: what the goroutines inside UpdateRTT
-- have still to do, and that no move changes the sum of what is done and due.
use moq_quic_bbrv3_go.Prelude.{
  ℕ, zero, suc, ◌+◌, ◌<◌, ◌≡◌, refl, Bool, true, ◌&&◌, ◌||◌, List, [], ◌∷◌, ◌++◌, ltb, leb, ◌==◌,
  if◌then◌else◌, wrap64, All, length, arith,
}
use moq_quic_bbrv3_go.Collectors.Racing.{
  Cells, Pc, idle, load_min, swap_min, store_current, add_sum, add_count, move, begin, System,
  move_at, begin_at, Pick, calls, moves, pick,
}

-- The samples of the calls that begin in a schedule: a goroutine that is inside a call begins none.
abbrev pub begins : ℕ → Pc → List ℕ
begins r idle = if r == 0 then [] else r ∷ []
begins r p = []

abbrev pub begins_at : ℕ → ℕ → List Pc → List ℕ
begins_at i r [] = []
begins_at zero r (p ∷ ps) = begins r p
begins_at (suc i) r (p ∷ ps) = begins_at i r ps

abbrev pub picked : Pick → System → List ℕ
picked (calls i r) s = begins_at i r s.pcs
picked (moves i) s = []

unfoldable pub samples : List Pick → System → List ℕ
samples [] s = []
samples (p ∷ ps) s = picked p s ++ samples ps (pick p s)

abbrev pub total : List ℕ → ℕ
total [] = 0
total (x ∷ xs) = x + total xs

-- What a goroutine has still to add to the sum and to the count.
abbrev pub owes : Pc → ℕ
owes (load_min r) = r
owes (swap_min r current) = r
owes (store_current r) = r
owes (add_sum r) = r
owes _ = 0

abbrev pub lacks : Pc → ℕ
lacks (load_min r) = 1
lacks (swap_min r current) = 1
lacks (store_current r) = 1
lacks (add_sum r) = 1
lacks add_count = 1
lacks _ = 0

-- Its sample is not below `k`, if the least round-trip time does not reckon with it yet.
abbrev pub clears : ℕ → Pc → Bool
clears k (load_min r) = leb k r
clears k (swap_min r current) = leb k r
clears k _ = true

-- What it read is still worth a swap.
abbrev pub Fresh : Pc → Type 0
Fresh (load_min r) = 0 < r
Fresh (swap_min r current) = (0 < r) × ((current == 0 || ltb r current) ≡ true)
Fresh _ = Unit

abbrev pub sum_of : (Pc → ℕ) → List Pc → ℕ
sum_of f [] = 0
sum_of f (p ∷ ps) = f p + sum_of f ps

abbrev pub all_of : (Pc → Bool) → List Pc → Bool
all_of f [] = true
all_of f (p ∷ ps) = f p && all_of f ps

abbrev pub all_above : ℕ → List ℕ → Bool
all_above k [] = true
all_above k (x ∷ xs) = leb k x && all_above k xs

abbrev pub floor_clears : ℕ → Cells → Bool
floor_clears k m = m.min_rtt == 0 || leb k m.min_rtt

-- One move keeps what is added and owed, and the bounds of all samples.
move-owes :
    (m : Cells) (p : Pc)
    → wrap64 ((move m p).0.rtt_sum + owes (move m p).1) ≡ wrap64 (m.rtt_sum + owes p)
unfolding move
move-owes m (load_min r) = ground arith
move-owes m p = ground arith

move-lacks :
    (m : Cells) (p : Pc)
    → wrap64 ((move m p).0.rtt_count + lacks (move m p).1) ≡ wrap64 (m.rtt_count + lacks p)
unfolding move
move-lacks m (load_min r) = ground arith
move-lacks m p = ground arith

move-Fresh : (m : Cells) (p : Pc) → Fresh p → Fresh (move m p).1
unfolding move
move-Fresh m (load_min r) f = ground arith
move-Fresh m p f = ground arith

move-clears :
    (k : ℕ) (m : Cells) (p : Pc)
    → Fresh p
    → (floor_clears k (move m p).0 && clears k (move m p).1) ≡ (floor_clears k m && clears k p)
unfolding move
move-clears k m (load_min r) f = ground arith
move-clears k m (swap_min r c) f = ground arith
move-clears k m p f = ground arith

pub move_at-owes :
    (i : ℕ) (m : Cells) (ps : List Pc)
    → wrap64 ((move_at i m ps).0.rtt_sum + sum_of owes (move_at i m ps).1)
      ≡ wrap64 (m.rtt_sum + sum_of owes ps)
unfolding move_at
move_at-owes i m [] = refl
move_at-owes zero m (p ∷ ps) = omega (arith, move-owes m p)
move_at-owes (suc i) m (p ∷ ps) = omega (arith, move_at-owes i m ps)

pub move_at-lacks :
    (i : ℕ) (m : Cells) (ps : List Pc)
    → wrap64 ((move_at i m ps).0.rtt_count + sum_of lacks (move_at i m ps).1)
      ≡ wrap64 (m.rtt_count + sum_of lacks ps)
unfolding move_at
move_at-lacks i m [] = refl
move_at-lacks zero m (p ∷ ps) = omega (arith, move-lacks m p)
move_at-lacks (suc i) m (p ∷ ps) = omega (arith, move_at-lacks i m ps)

pub move_at-Fresh : (i : ℕ) (m : Cells) (ps : List Pc) → All Fresh ps → All Fresh (move_at i m ps).1
unfolding move_at
move_at-Fresh i m [] f = f
move_at-Fresh zero m (p ∷ ps) f = (move-Fresh m p f.0, f.1)
move_at-Fresh (suc i) m (p ∷ ps) f = (f.0, move_at-Fresh i m ps f.1)

pub move_at-clears :
    (k i : ℕ) (m : Cells) (ps : List Pc)
    → All Fresh ps
    → (floor_clears k (move_at i m ps).0 && all_of (clears k) (move_at i m ps).1)
      ≡ (floor_clears k m && all_of (clears k) ps)
unfolding move_at
move_at-clears k i m [] f = refl
move_at-clears k zero m (p ∷ ps) f = ground (arith, move-clears k m p f.0)
move_at-clears k (suc i) m (p ∷ ps) f = ground (arith, move_at-clears k i m ps f.1)

pub begin_at-owes :
    (i r : ℕ) (ps : List Pc)
    → sum_of owes (begin_at i r ps) ≡ total (begins_at i r ps) + sum_of owes ps
unfolding begin_at begin
begin_at-owes i r [] = refl
begin_at-owes zero r (idle ∷ ps) = ground arith
begin_at-owes zero r (p ∷ ps) = omega arith
begin_at-owes (suc i) r (p ∷ ps) = omega (arith, begin_at-owes i r ps)

pub begin_at-lacks :
    (i r : ℕ) (ps : List Pc)
    → sum_of lacks (begin_at i r ps) ≡ length (begins_at i r ps) + sum_of lacks ps
unfolding begin_at begin
begin_at-lacks i r [] = refl
begin_at-lacks zero r (idle ∷ ps) = ground arith
begin_at-lacks zero r (p ∷ ps) = omega arith
begin_at-lacks (suc i) r (p ∷ ps) = omega (arith, begin_at-lacks i r ps)

pub begin_at-Fresh : (i r : ℕ) (ps : List Pc) → All Fresh ps → All Fresh (begin_at i r ps)
unfolding begin_at begin
begin_at-Fresh i r [] f = f
begin_at-Fresh zero r (idle ∷ ps) f = ground arith
begin_at-Fresh zero r (p ∷ ps) f = f
begin_at-Fresh (suc i) r (p ∷ ps) f = (f.0, begin_at-Fresh i r ps f.1)

pub begin_at-clears :
    (k i r : ℕ) (ps : List Pc)
    → all_of (clears k) (begin_at i r ps) ≡ (all_above k (begins_at i r ps) && all_of (clears k) ps)
unfolding begin_at begin
begin_at-clears k i r [] = refl
begin_at-clears k zero r (idle ∷ ps) = ground arith
begin_at-clears k zero r (p ∷ ps) = refl
begin_at-clears k (suc i) r (p ∷ ps) = ground (arith, begin_at-clears k i r ps)
