-- ===== src/Scheduler/Run.antt =====
-- The scheduler's goroutines as events: the ticker of the generator, a worker that takes the next task
-- and executes it, and a timer that puts a retry on the channel.
pub mod Retries
pub mod Drain
pub mod Bounds
use optix.Base.{
  ℕ, zero, suc, ◌+◌, ◌≡◌, Bool, true, false, List, [], ◌∷◌, ◌++◌, Option, none, some, ltb,
  if◌then◌else◌, length,
}
use optix.Base.Time.{Instant}
use optix.Scheduler.Jobs.{BackgroundJob, JobTable, no_jobs, WatchlistRow}
use optix.Scheduler.Batch.{Task, Group, Board, generate_batch}
use optix.Scheduler.Worker.{Weather, Retry, execute_task}

pub record System : Type 0 where
  pub board : Board
  pub timers : List Retry
  pub jobs : JobTable

abbrev default_queue_size : ℕ
default_queue_size = 100

-- `New`, with its default for the size of the queue.
unfoldable pub new_system : ℕ → List WatchlistRow → System
new_system queue_size watchlist = record {
  board = record {
    capacity = elim queue_size [ zero ↦ default_queue_size | suc n ↦ suc n ];
    queue = [];
    last_batch = [];
    watchlist = watchlist;
  };
  timers = [];
  jobs = no_jobs;
}

abbrev with_retry : Option Retry → List Retry → List Retry
with_retry none rs = rs
with_retry (some r) rs = r ∷ rs

-- A worker receives the first task.
unfoldable pub work : Weather → System → Option System
unfolding execute_task
work w s = elim s.board.queue [
  | [] ↦ none
  | task ∷ rest ↦
      let (jobs, retry) = execute_task w task s.jobs in
      some (record s {
        board = record (s.board) { queue = rest };
        timers = with_retry retry s.timers;
        jobs = jobs;
      })
]

-- The `i`th timer, and the others.
unfoldable pub pull_timer : ℕ → List Retry → Option (Retry × List Retry)
pull_timer i [] = none
pull_timer zero (r ∷ rs) = some (r, rs)
pull_timer (suc i) (r ∷ rs) = elim (pull_timer i rs) [
  | none ↦ none
  | some (q, qs) ↦ some (q, r ∷ qs)
]

-- A timer is over: a full channel drops the retry.
unfoldable pub fire_timer : ℕ → System → Option System
unfolding pull_timer
fire_timer i s = elim (pull_timer i s.timers) [
  | none ↦ none
  | some (r, rs) ↦
      if ltb (length s.board.queue) s.board.capacity
      then some (record s {
        board = record (s.board) { queue = s.board.queue ++ r.task ∷ [] };
        timers = rs;
      })
      else some (record s { timers = rs })
]

pub data Event : Type 0 where
  on_tick : (List Group → List Group) → Instant → Instant → Event
  on_work : Weather → Event
  on_timer : ℕ → Event

unfoldable pub step : Event → System → Option System
unfolding generate_batch work fire_timer
step (on_tick walk db_now now) s =
    some (record s { board = generate_batch walk db_now now s.board })
step (on_work w) s = work w s
step (on_timer i) s = fire_timer i s

pub data Reachable (size : ℕ) (watchlist : List WatchlistRow) : System → Type 0 where
  started : Reachable size watchlist (new_system size watchlist)
  next :
      (e : Event) {s t : System}
      → Reachable size watchlist s
      → step e s ≡ some t
      → Reachable size watchlist t
