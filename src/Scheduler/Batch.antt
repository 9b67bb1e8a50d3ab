-- ===== src/Scheduler/Batch.antt =====
-- `generateBatch` and its helpers (internal/scheduler/scheduler.go, batch.go). The order in which Go
-- walks the map of groups is a parameter; the watchlist is read and written without failures.
pub mod Dispatch
use optix.Base.{
  ℕ, zero, suc, ◌+◌, ◌-◌, ◌*◌, ◌/◌, Bool, true, false, ◌&&◌, not, List, [], ◌∷◌, ◌++◌, Option, none,
  some, ltb, leb, ◌==◌, if◌then◌else◌, length, take,
}
use optix.Base.Text.{Text, codes}
use optix.Base.Time.{Instant}
use optix.Scheduler.Jobs.{
  WatchlistRow, SymbolRefresh, get_symbols_needing_refresh, update_last_refresh_time,
}

pub record Task : Type 0 where
  pub symbol : Text
  pub task_type : Text
  pub created_at : Instant
  pub retry_of : ℕ

-- A group of `groupByInterval`, with its interval.
abbrev pub Group : Type 0
Group = ℕ × List Text

unfoldable pub add_symbol : SymbolRefresh → List Group → List Group
add_symbol s [] = (s.interval, s.symbol ∷ []) ∷ []
add_symbol s ((i, symbols) ∷ gs) =
    let rest = add_symbol s gs in
    if i == s.interval then (i, symbols ++ s.symbol ∷ []) ∷ gs else (i, symbols) ∷ rest

unfoldable pub group_into : List SymbolRefresh → List Group → List Group
unfolding add_symbol
group_into [] gs = gs
group_into (s ∷ ss) gs = group_into ss (add_symbol s gs)

unfoldable pub group_by_interval : List SymbolRefresh → List Group
unfolding group_into
group_by_interval ss = group_into ss []

-- The minutes that have passed, times the batches needed, reach the interval. With no symbol the
-- interval of a batch is infinite.
unfoldable pub should_dispatch_batch : ℕ → Option Instant → Instant → ℕ → Bool
should_dispatch_batch interval none now count = true
should_dispatch_batch interval (some last) now count =
    let batches_needed = (count + 4) / 5 in
    not (count == 0) && leb last now && leb (interval * 60) ((now - last) * batches_needed)

-- `lastBatch`
unfoldable pub last_time : ℕ → List (ℕ × Instant) → Option Instant
last_time i [] = none
last_time i ((j, t) ∷ m) = if j == i then some t else last_time i m

unfoldable pub set_time : ℕ → Instant → List (ℕ × Instant) → List (ℕ × Instant)
set_time i t [] = (i, t) ∷ []
set_time i t ((j, u) ∷ m) = if j == i then (i, t) ∷ m else (j, u) ∷ set_time i t m

-- The state that a batch changes: the channel with its capacity, `lastBatch`, the watchlist.
pub record Board : Type 0 where
  pub capacity : ℕ
  pub queue : List Task
  pub last_batch : List (ℕ × Instant)
  pub watchlist : List WatchlistRow

abbrev pub task_for : Instant → Text → Task
task_for now symbol = record {
  symbol = symbol;
  task_type = codes "analyze";
  created_at = now;
  retry_of = 0;
}

-- The `select` with its default: a full channel drops the task.
unfoldable pub dispatch_one : Instant → Text → Board → Board
unfolding update_last_refresh_time
dispatch_one now symbol b =
    if ltb (length b.queue) b.capacity
    then record b {
      queue = b.queue ++ task_for now symbol ∷ [];
      watchlist = update_last_refresh_time symbol now b.watchlist;
    }
    else b

unfoldable pub dispatch_each : Instant → List Text → Board → Board
unfolding dispatch_one
dispatch_each now [] b = b
dispatch_each now (s ∷ ss) b = dispatch_each now ss (dispatch_one now s b)

unfoldable pub dispatch_group : Instant → Group → Board → Board
unfolding should_dispatch_batch last_time dispatch_each set_time
dispatch_group now (interval, batch) b =
    let b' = dispatch_each now (take 5 batch) b in
    if should_dispatch_batch interval (last_time interval b.last_batch) now (length batch)
    then record b' { last_batch = set_time interval now b'.last_batch }
    else b

unfoldable pub dispatch_groups : Instant → List Group → Board → Board
unfolding dispatch_group
dispatch_groups now [] b = b
dispatch_groups now (g ∷ gs) b = dispatch_groups now gs (dispatch_group now g b)

unfoldable pub generate_batch : (List Group → List Group) → Instant → Instant → Board → Board
unfolding get_symbols_needing_refresh group_by_interval dispatch_groups
generate_batch walk db_now now b =
    dispatch_groups now (walk (group_by_interval (get_symbols_needing_refresh db_now b.watchlist)))
      b
