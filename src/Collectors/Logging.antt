-- ===== src/Collectors/Logging.antt =====
-- quic-go-bbr/internal/congestion/stats.go: ShouldLog called by several goroutines at once, a shared
-- access at a time, while others switch the collector on and off. Each reading of the clock gives
-- whatever the schedule says.
use moq_quic_bbrv3_go.Prelude.{
  ℕ, zero, suc, ◌+◌, ◌*◌, ◌≤◌, ◌≡◌, Bool, List, [], ◌∷◌, leb, ◌==◌, if◌then◌else◌, All, length,
  arith,
}

-- The fields that ShouldLog reads and writes, and the times for which it answered true, newest first.
pub record LogCells : Type 0 where
  pub enabled : Bool
  pub last_log_time : ℕ
  pub granted : List ℕ

-- Where a goroutine stands in ShouldLog.
pub data LogPc : Type 0 where
  away : LogPc
  load_enabled : LogPc
  read_clock : LogPc
  load_last : (now : ℕ) → LogPc
  swap_last : (now last_log : ℕ) → LogPc

-- The next access of a goroutine, with `interval` as the log interval and `wall` as the clock.
unfoldable pub log_move : ℕ → ℕ → LogCells → LogPc → LogCells × LogPc
log_move interval wall m away = (m, load_enabled)
log_move interval wall m load_enabled = (m, if m.enabled then read_clock else away)
log_move interval wall m read_clock = (m, load_last wall)
log_move interval wall m (load_last now) =
    (m, if leb (m.last_log_time + interval) now then swap_last now m.last_log_time else away)
log_move interval wall m (swap_last now last_log) =
    if m.last_log_time == last_log
    then (record m { last_log_time = now; granted = now ∷ m.granted }, away)
    else (m, away)

unfoldable pub log_move_at : ℕ → ℕ → ℕ → LogCells → List LogPc → LogCells × List LogPc
log_move_at interval wall i m [] = (m, [])
log_move_at interval wall zero m (p ∷ ps) =
    let (m', p') = log_move interval wall m p in (m', p' ∷ ps)
log_move_at interval wall (suc i) m (p ∷ ps) =
    let (m', ps') = log_move_at interval wall i m ps in (m', p ∷ ps')

-- A goroutine moves, or Enable, Disable or Stop is called.
pub data LogPick : Type 0 where
  log_moves : (i wall : ℕ) → LogPick
  enables : Bool → LogPick

pub record LogSystem : Type 0 where
  pub cells : LogCells
  pub pcs : List LogPc

unfoldable pub log_pick : ℕ → LogPick → LogSystem → LogSystem
log_pick interval (log_moves i wall) s =
    let (m, ps) = log_move_at interval wall i s.cells s.pcs in record { cells = m; pcs = ps }
log_pick interval (enables e) s = record s { cells = record s.cells { enabled = e } }

unfoldable pub log_schedule : ℕ → List LogPick → LogSystem → LogSystem
log_schedule interval [] s = s
log_schedule interval (p ∷ ps) s = log_schedule interval ps (log_pick interval p s)

abbrev pub away_all : ℕ → List LogPc
away_all zero = []
away_all (suc n) = away ∷ away_all n

-- A collector that was made at the time `start`, and `n` goroutines.
unfoldable pub new_log_system : ℕ → ℕ → Bool → LogSystem
new_log_system n start e = record {
  cells = record { enabled = e; last_log_time = start; granted = [] };
  pcs = away_all n;
}

-- The newest time of a list, or `start`.
abbrev pub latest : ℕ → List ℕ → ℕ
latest start [] = start
latest start (x ∷ xs) = x

-- Each time lies at least `interval` after the one before, the first after `start`.
abbrev pub Spaced : ℕ → ℕ → List ℕ → Type 0
Spaced interval start [] = Unit
Spaced interval start (x ∷ xs) = (latest start xs + interval ≤ x) × Spaced interval start xs

-- What it will swap in lies an interval after what it read.
abbrev Ripe : ℕ → LogPc → Type 0
Ripe interval (swap_last now last_log) = last_log + interval ≤ now
Ripe interval _ = Unit

abbrev Kept : ℕ → ℕ → LogCells → Type 0
Kept interval start m = (m.last_log_time ≡ latest start m.granted) × Spaced interval start m.granted

module _ (interval start : ℕ) where
  log_move-Ripe :
      (wall : ℕ) (m : LogCells) (p : LogPc) → Ripe interval (log_move interval wall m p).1
  unfolding log_move
  log_move-Ripe wall m (load_last now) = ground arith
  log_move-Ripe wall m p = ground arith

  log_move-Kept :
      (wall : ℕ) (m : LogCells) (p : LogPc)
      → Ripe interval p
      → Kept interval start m
      → Kept interval start (log_move interval wall m p).0
  unfolding log_move
  log_move-Kept wall m (swap_last now last_log) r k = ground arith
  log_move-Kept wall m p r k = k

  log_move_at-Ripe :
      (wall i : ℕ) (m : LogCells) (ps : List LogPc)
      → All (Ripe interval) ps
      → All (Ripe interval) (log_move_at interval wall i m ps).1
  unfolding log_move_at
  log_move_at-Ripe wall i m [] r = r
  log_move_at-Ripe wall zero m (p ∷ ps) r = (log_move-Ripe wall m p, r.1)
  log_move_at-Ripe wall (suc i) m (p ∷ ps) r = (r.0, log_move_at-Ripe wall i m ps r.1)

  log_move_at-Kept :
      (wall i : ℕ) (m : LogCells) (ps : List LogPc)
      → All (Ripe interval) ps
      → Kept interval start m
      → Kept interval start (log_move_at interval wall i m ps).0
  unfolding log_move_at
  log_move_at-Kept wall i m [] r k = k
  log_move_at-Kept wall zero m (p ∷ ps) r k = log_move-Kept wall m p r.0 k
  log_move_at-Kept wall (suc i) m (p ∷ ps) r k = log_move_at-Kept wall i m ps r.1 k

  log_schedule-Kept :
      (ps : List LogPick) (s : LogSystem)
      → All (Ripe interval) s.pcs
      → Kept interval start s.cells
      → Kept interval start (log_schedule interval ps s).cells
  unfolding log_schedule log_pick
  log_schedule-Kept [] s r k = k
  log_schedule-Kept (log_moves i wall ∷ ps) s r k =
      log_schedule-Kept ps _ (log_move_at-Ripe wall i s.cells s.pcs r)
        (log_move_at-Kept wall i s.cells s.pcs r k)
  log_schedule-Kept (enables e ∷ ps) s r k = log_schedule-Kept ps _ r k

  away_all-Ripe : (n : ℕ) → All (Ripe interval) (away_all n)
  away_all-Ripe zero = tt
  away_all-Ripe (suc n) = (tt, away_all-Ripe n)

  Spaced-length :
      (xs : List ℕ) → Spaced interval start xs → start + length xs * interval ≤ latest start xs
  Spaced-length [] s = omega arith
  Spaced-length (x ∷ xs) s = grind (arith, Spaced-length xs s.1)

  -- However the calls of ShouldLog of `n` goroutines interleave, and whatever the clock says, two
  -- answers of true are an interval apart, so at most as many are given as intervals have passed
  -- between the making of the collector and the last of them.
  pub log_schedule-Spaced :
      (n : ℕ) (e : Bool) (ps : List LogPick)
      → let times = (log_schedule interval ps (new_log_system n start e)).cells.granted in
        Spaced interval start times × (start + length times * interval ≤ latest start times)
  unfolding new_log_system
  log_schedule-Spaced n e ps =
      let k = log_schedule-Kept ps (new_log_system n start e) (away_all-Ripe n) (omega arith, tt) in
      (k.1, Spaced-length _ k.1)
