-- ===== src/Prelude/Maps.antt =====
-- Go maps: an association list, in the order in which `range` meets the entries, or a total function.
use Prim.Native.Nat.{ℕ}
use mathlib.Core.Path.{◌≡◌, refl}
use mathlib.Core.Bool.{Bool, true, false}
use mathlib.Core.List.{List, [], ◌∷◌}
use mathlib.Core.Option.{Option, none, some}
use native.Mathlib.Omega.{arith}
use moq_quic_bbrv3_go.Prelude.Tests.{◌==◌, if◌then◌else◌}

module _ {ℓ} {A : Type ℓ} where
  -- `m[k]`
  abbrev pub find : ℕ → List (ℕ × A) → Option A
  find k [] = none
  find k ((j, a) ∷ m) = if j == k then some a else find k m

  -- `m[k] = a`
  abbrev pub assign : ℕ → A → List (ℕ × A) → List (ℕ × A)
  assign k a [] = (k, a) ∷ []
  assign k a ((j, b) ∷ m) = if j == k then (k, a) ∷ m else (j, b) ∷ assign k a m

  -- A function with a new value at a key.
  abbrev pub set : ℕ → A → (ℕ → A) → ℕ → A
  set k a f j = if j == k then a else f j

  pub find-assign :
      (j k : ℕ) (a : A) (m : List (ℕ × A))
      → find j (assign k a m) ≡ (if k == j then some a else find j m)
  find-assign j k a [] = refl
  find-assign j k a ((i, b) ∷ m) = ground (arith, find-assign j k a m)

-- A map used as a set of keys.
abbrev pub has : ℕ → List ℕ → Bool
has k [] = false
has k (j ∷ s) = if j == k then true else has k s

-- `m[k] = v` and `delete(m, k)` of such a map.
abbrev pub include : ℕ → List ℕ → List ℕ
include k s = if has k s then s else k ∷ s

abbrev pub exclude : ℕ → List ℕ → List ℕ
exclude k [] = []
exclude k (j ∷ s) = let rest = exclude k s in if j == k then rest else j ∷ rest

pub has-include : (j k : ℕ) (s : List ℕ) → has j (include k s) ≡ (if k == j then true else has j s)
has-include j k s = ground arith

pub has-exclude : (j k : ℕ) (s : List ℕ) → has j (exclude k s) ≡ (if k == j then false else has j s)
has-exclude j k [] = ground arith
has-exclude j k (i ∷ s) = ground (arith, has-exclude j k s)
