-- ===== src/Bbr3/Filters.antt =====
-- quic-go-bbr/internal/congestion/bbrv3.go: `simpleMaxFilter` and `minMaxFilter`.
use moq_quic_bbrv3_go.Prelude.{ℕ, ◌+◌, ltb, ◌==◌, if◌then◌else◌, List, [], ◌∷◌}

-- The array `bw` of two.
pub record SimpleMaxFilter : Type 0 where
  pub bw0 : ℕ
  pub bw1 : ℕ

unfoldable pub new_simple_max_filter : SimpleMaxFilter
new_simple_max_filter = record { bw0 = 0; bw1 = 0 }

unfoldable pub filter_max_bw : SimpleMaxFilter → ℕ
filter_max_bw f = if ltb f.bw1 f.bw0 then f.bw0 else f.bw1

-- The Go map `data` is an association list with at most one entry for a key.
pub record MinMaxFilter : Type 0 where
  pub entries : List (ℕ × ℕ)
  pub idx : ℕ
  pub window : ℕ
  pub cur_max : ℕ

unfoldable pub new_min_max_filter : ℕ → MinMaxFilter
new_min_max_filter window = record { entries = []; idx = 0; window = window; cur_max = 0 }

-- `m.data[time] = value`
unfoldable pub assign : ℕ → ℕ → List (ℕ × ℕ) → List (ℕ × ℕ)
assign k v [] = (k, v) ∷ []
assign k v ((j, w) ∷ m) = if j == k then (k, v) ∷ m else (j, w) ∷ assign k v m

-- The loop that deletes each key `k` with `k + window < time`.
unfoldable pub expire : ℕ → ℕ → List (ℕ × ℕ) → List (ℕ × ℕ)
expire window time [] = []
expire window time ((k, v) ∷ m) =
    let rest = expire window time m in if ltb (k + window) time then rest else (k, v) ∷ rest

unfoldable pub update_max : ℕ → ℕ → MinMaxFilter → MinMaxFilter
update_max time value m = record m {
  idx = time;
  cur_max = if ltb m.cur_max value then value else m.cur_max;
  entries = expire m.window time (assign time value m.entries);
}

-- `for _, v := range m.data { if v > maxVal { maxVal = v } }`
unfoldable pub max_loop : ℕ → List (ℕ × ℕ) → ℕ
max_loop acc [] = acc
max_loop acc ((k, v) ∷ m) = max_loop (if ltb acc v then v else acc) m

-- `get` stores the maximum in `curMax` and returns it.
unfoldable pub get : MinMaxFilter → MinMaxFilter × ℕ
get m = let best = max_loop 0 m.entries in (record m { cur_max = best }, best)
