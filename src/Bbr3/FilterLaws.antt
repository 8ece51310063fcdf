-- ===== src/Bbr3/FilterLaws.antt =====
-- bbrv3.go: the windowed maximum filter against its map.
use moq_quic_bbrv3_go.Prelude.{
  ℕ, ◌+◌, ◌≤◌, ◌≡◌, refl, ◌⊎◌, inl, inr, arith, ltb, ◌==◌, if◌then◌else◌, List, [], ◌∷◌, Option,
  none, some,
}
use moq_quic_bbrv3_go.Bbr3.Filters.{MinMaxFilter, assign, expire, update_max, max_loop, get}

-- What the Go map holds at a key.
abbrev pub lookup : ℕ → List (ℕ × ℕ) → Option ℕ
lookup k [] = none
lookup k ((j, v) ∷ m) = if j == k then some v else lookup k m

lookup-assign :
    (k t v : ℕ) (m : List (ℕ × ℕ))
    → lookup k (assign t v m) ≡ (if t == k then some v else lookup k m)
unfolding assign
lookup-assign k t v [] = refl
lookup-assign k t v ((j, w) ∷ m) = ground (arith, lookup-assign k t v m)

lookup-expire :
    (k window time : ℕ) (m : List (ℕ × ℕ))
    → lookup k (expire window time m) ≡ (if ltb (k + window) time then none else lookup k m)
unfolding expire
lookup-expire k window time [] = ground arith
lookup-expire k window time ((j, w) ∷ m) = ground (arith, lookup-expire k window time m)

-- After an update the filter holds the new value at its time, nothing that is older than the window,
-- and every other value as before.
pub lookup-update_max :
    (k time value : ℕ) (m : MinMaxFilter)
    → lookup k (update_max time value m).entries ≡ (
        if ltb (k + m.window) time
        then none
        else if time == k
        then some value
        else lookup k m.entries)
unfolding update_max
lookup-update_max k time value m = ground (
  arith,
  lookup-expire k m.window time (assign time value m.entries),
  lookup-assign k time value m.entries,
)

max_loop-ge : (acc : ℕ) (m : List (ℕ × ℕ)) → acc ≤ max_loop acc m
unfolding max_loop
max_loop-ge acc [] = omega arith
max_loop-ge acc ((j, w) ∷ m) = ground (arith, max_loop-ge acc m, max_loop-ge w m)

-- The value stands at some key.
abbrev pub Holds : ℕ → List (ℕ × ℕ) → Type 0
Holds v [] = ⊥
Holds v ((j, w) ∷ m) = (w ≡ v) ⊎ Holds v m

-- Every value is at most the bound.
abbrev pub Below : ℕ → List (ℕ × ℕ) → Type 0
Below v [] = Unit {0}
Below v ((j, w) ∷ m) = (w ≤ v) × Below v m

max_loop-Below : (acc : ℕ) (m : List (ℕ × ℕ)) → Below (max_loop acc m) m
unfolding max_loop
max_loop-Below acc [] = tt
max_loop-Below acc ((j, w) ∷ m) = (
  ground (arith, max_loop-ge acc m, max_loop-ge w m),
  max_loop-Below (if ltb acc w then w else acc) m,
)

picked : (best acc w : ℕ) → best ≡ (if ltb acc w then w else acc) → (best ≡ acc) ⊎ (w ≡ best)
picked best acc w e = ground arith

max_loop-Holds : (acc : ℕ) (m : List (ℕ × ℕ)) → (max_loop acc m ≡ acc) ⊎ Holds (max_loop acc m) m
unfolding max_loop
max_loop-Holds acc [] = inl refl
max_loop-Holds acc ((j, w) ∷ m) = elim (max_loop-Holds (if ltb acc w then w else acc) m) [
  | inl e ↦ elim (picked _ acc w e) [ inl a ↦ inl a | inr b ↦ inr (inl b) ]
  | inr h ↦ inr (inr h)
]

-- `get` is the greatest value that the filter holds, or 0 when it holds none above it, and the
-- filter keeps its values.
pub get-greatest :
    (m : MinMaxFilter)
    → (((get m).1 ≡ 0) ⊎ Holds (get m).1 m.entries)
      × Below (get m).1 m.entries
      × ((get m).0.entries ≡ m.entries)
unfolding get
get-greatest m = (max_loop-Holds 0 m.entries, max_loop-Below 0 m.entries, refl)
