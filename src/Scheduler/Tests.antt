-- ===== src/Scheduler/Tests.antt =====
-- Runs of the scheduler, and its theorems at a watchlist of one symbol.
use optix.Base.{
  ◌+◌, ◌-◌, ◌*◌, ◌≡◌, ◌≤◌, ◌<◌, ◌⊎◌, refl, true, false, [], ◌∷◌, ◌++◌, map, none, some,
  if◌then◌else◌, length, take, All,
}
use optix.Base.Text.{codes, text_eq}
use optix.Scheduler.Jobs.{WatchlistRow, BackgroundJob, JobTable}
use optix.Scheduler.Batch.{
  Task, Board, task_for, dispatch_group, should_dispatch_batch, last_time, set_time,
}
use optix.Scheduler.Batch.Dispatch.{refreshed, dispatch_group_lem}
use optix.Scheduler.Worker.{Weather, max_retries, retry_count_of, execute_task}
use optix.Scheduler.Run.{System, new_system, work, fire_timer, step, on_tick, Reachable}
use optix.Scheduler.Run.Bounds.{Reachable-bounds, Drains, Reachable-Drains}

abbrev apple : WatchlistRow
apple = record {
  symbol = codes "AAPL";
  auto_refresh_enabled = true;
  refresh_interval_minutes = 15;
  last_refreshed_at = none;
}

abbrev broken : Weather
broken = record {
  start = 100;
  finish = 110;
  reads = true;
  creates = true;
  fetch_error = some (codes "refused");
  updates = true;
}

abbrev begun : System
begun = new_system 2 (apple ∷ [])

abbrev task : Task
task = task_for 100 (codes "AAPL")

abbrev ticked : System
ticked = record begun {
  board = record {
    capacity = 2;
    queue = task ∷ [];
    last_batch = (15, 100) ∷ [];
    watchlist = record apple { last_refreshed_at = some 100 } ∷ [];
  };
}

ticked-step : step (on_tick (λ gs. gs) 100 100) begun ≡ some ticked
unfolding step new_system text_eq
ticked-step = refl

ticked-Reachable : Reachable 2 (apple ∷ []) ticked
ticked-Reachable = Reachable.next (on_tick (λ gs. gs) 100 100) Reachable.started ticked-step

Reachable-bounds_example :
    (length ticked.board.queue ≤ ticked.board.capacity)
    × All
        (λ (row : BackgroundJob). (row.id < ticked.jobs.next_id) × (row.retry_count ≤ max_retries))
        ticked.jobs.rows
Reachable-bounds_example = Reachable-bounds 2 (apple ∷ []) ticked ticked-Reachable

abbrev failed_once : System
failed_once = record ticked {
  board = record (ticked.board) { queue = [] };
  timers =
      record {
        due = 170;
        task = record {
          symbol = codes "AAPL";
          task_type = codes "analyze";
          created_at = 170;
          retry_of = 1;
        };
      }
      ∷ [];
  jobs = (execute_task broken task begun.jobs).0;
}

failed_work : work broken ticked ≡ some failed_once
unfolding work new_system
failed_work = refl

Reachable-Drains_example :
    (1 ≤ 7 * 1 + 8 * 0)
    × (((failed_once.board.queue ≡ []) × (failed_once.timers ≡ []))
        ⊎ ((v : System) × ((work broken failed_once ≡ some v)
              ⊎ (fire_timer 0 failed_once ≡ some v))))
unfolding new_system
Reachable-Drains_example =
    Reachable-Drains 2 (apple ∷ []) ticked ticked-Reachable broken 1 failed_once
      (Drains.works broken refl failed_work Drains.rests)

-- The error of GetBackgroundJob is ignored: the retry of a job that was retried three times is a first
-- attempt again.
abbrev tired : JobTable
tired = record (failed_once.jobs) {
  rows = map (λ (row : BackgroundJob). record row { retry_count = 3 }) failed_once.jobs.rows;
}

restarted :
    retry_count_of (record broken { reads = false }) (record task { retry_of = 1 }) tired ≡ 0
unfolding retry_count_of
restarted = refl

abbrev crowded : Board
crowded = record {
  capacity = 2;
  queue = task ∷ [];
  last_batch = (15, 100) ∷ [];
  watchlist = apple ∷ [];
}

-- The second symbol finds the channel full and stays due; the batch counts as sent.
dispatch_group_lem_example :
    let room = take (2 - 1) (take 5 (codes "AAPL" ∷ codes "MSFT" ∷ [])) in
    dispatch_group 1000 (15, codes "AAPL" ∷ codes "MSFT" ∷ []) crowded ≡ (
      if should_dispatch_batch 15 (last_time 15 crowded.last_batch) 1000 2
      then record crowded {
        queue = crowded.queue ++ map (task_for 1000) room;
        last_batch = set_time 15 1000 crowded.last_batch;
        watchlist = refreshed room 1000 crowded.watchlist;
      }
      else crowded)
dispatch_group_lem_example = dispatch_group_lem 1000 15 (codes "AAPL" ∷ codes "MSFT" ∷ []) crowded

batch_of_ten : should_dispatch_batch 15 (some 0) 450 10 ≡ true
unfolding should_dispatch_batch
batch_of_ten = refl

too_early_for_ten : should_dispatch_batch 15 (some 0) 449 10 ≡ false
unfolding should_dispatch_batch
too_early_for_ten = refl
