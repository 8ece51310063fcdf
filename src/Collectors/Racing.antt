-- ===== src/Collectors/Racing.antt =====
-- quic-go-bbr/internal/congestion/stats.go and bbrv3_stats_v2.go: UpdateRTT called by several
-- goroutines at once, a shared access at a time. A schedule says who calls with what and who moves
-- next. The atomic operations are sequentially consistent, as the package sync/atomic promises.
use moq_quic_bbrv3_go.Prelude.{
  ℕ, zero, suc, ◌+◌, ◌&&◌, List, [], ◌∷◌, ltb, leb, ◌==◌, if◌then◌else◌, wrap64, quot64,
}

-- The atomic fields that UpdateRTT reads and writes.
pub record Cells : Type 0 where
  pub min_rtt : ℕ
  pub current_rtt : ℕ
  pub rtt_sum : ℕ
  pub rtt_count : ℕ
  pub avg_rtt : ℕ

-- Where a goroutine stands in UpdateRTT, with the local variables that are live there.
pub data Pc : Type 0 where
  idle : Pc
  load_min : (r : ℕ) → Pc  -- the head of the loop
  swap_min : (r current : ℕ) → Pc  -- before CompareAndSwap
  store_current : (r : ℕ) → Pc
  add_sum : (r : ℕ) → Pc
  add_count : Pc
  load_sum : (count : ℕ) → Pc
  store_avg : (count sum : ℕ) → Pc

-- The next shared access of a goroutine.
unfoldable pub move : Cells → Pc → Cells × Pc
move m idle = (m, idle)
move m (load_min r) =
    (m, if ltb 0 m.min_rtt && leb m.min_rtt r then store_current r else swap_min r m.min_rtt)
move m (swap_min r current) =
    if m.min_rtt == current then (record m { min_rtt = r }, store_current r) else (m, load_min r)
move m (store_current r) = (record m { current_rtt = r }, add_sum r)
move m (add_sum r) = (record m { rtt_sum = wrap64 (m.rtt_sum + r) }, add_count)
move m add_count =
    (record m { rtt_count = wrap64 (m.rtt_count + 1) }, load_sum (wrap64 (m.rtt_count + 1)))
move m (load_sum count) = (m, store_avg count m.rtt_sum)
move m (store_avg count sum) = (record m { avg_rtt = quot64 sum count }, idle)

-- A call, which a goroutine makes when it has returned from the one before. A round-trip time that is
-- not positive is the argument 0, and returns at once.
unfoldable pub begin : ℕ → Pc → Pc
begin r idle = if r == 0 then idle else load_min r
begin r p = p

pub record System : Type 0 where
  pub cells : Cells
  pub pcs : List Pc

-- The goroutine at an index moves. No goroutine has an index that is out of range.
unfoldable pub move_at : ℕ → Cells → List Pc → Cells × List Pc
move_at i m [] = (m, [])
move_at zero m (p ∷ ps) = let (m', p') = move m p in (m', p' ∷ ps)
move_at (suc i) m (p ∷ ps) = let (m', ps') = move_at i m ps in (m', p ∷ ps')

unfoldable pub begin_at : ℕ → ℕ → List Pc → List Pc
begin_at i r [] = []
begin_at zero r (p ∷ ps) = begin r p ∷ ps
begin_at (suc i) r (p ∷ ps) = p ∷ begin_at i r ps

pub data Pick : Type 0 where
  calls : (i r : ℕ) → Pick
  moves : (i : ℕ) → Pick

unfoldable pub pick : Pick → System → System
pick (calls i r) s = record s { pcs = begin_at i r s.pcs }
pick (moves i) s = let (m, ps) = move_at i s.cells s.pcs in record { cells = m; pcs = ps }

unfoldable pub schedule : List Pick → System → System
schedule [] s = s
schedule (p ∷ ps) s = schedule ps (pick p s)

abbrev pub idle_all : ℕ → List Pc
idle_all zero = []
idle_all (suc n) = idle ∷ idle_all n

-- A new collector and `n` goroutines.
unfoldable pub new_system : ℕ → System
new_system n = record {
  cells = record { min_rtt = 0; current_rtt = 0; rtt_sum = 0; rtt_count = 0; avg_rtt = 0 };
  pcs = idle_all n;
}
