-- ===== src/Scheduler/Worker.antt =====
-- A worker's task, and its retries (internal/scheduler/worker.go). The fetch (broker, analysis engine
-- and caches) is a parameter by its error, and so are the failures of the reading and the two writes.
use optix.Base.{ℕ, ◌+◌, Bool, [], Option, none, some, ltb, ◌==◌, if◌then◌else◌}
use optix.Base.Text.{Text}
use optix.Base.Time.{Instant}
use optix.Scheduler.Jobs.{
  running, success, failed, BackgroundJob, JobTable, create_background_job, update_background_job,
  get_background_job,
}
use optix.Scheduler.Batch.{Task}

-- What one execution meets.
pub record Weather : Type 0 where
  pub start : Instant
  pub finish : Instant
  pub reads : Bool
  pub creates : Bool
  pub fetch_error : Option Text
  pub updates : Bool

-- In seconds, by the count from 1.
unfoldable pub calculate_retry_delay : ℕ → ℕ
calculate_retry_delay n = if n == 1 then 60 else if n == 2 then 300 else 900

abbrev pub max_retries : ℕ
max_retries = 3

-- A task that is put on the channel after a delay, with the time of its call.
pub record Retry : Type 0 where
  pub due : Instant
  pub task : Task

-- One more than the retry count of the job that a task retries, if that job is there.
unfoldable pub read_count : Task → JobTable → ℕ
unfolding get_background_job
read_count task t =
    if ltb 0 task.retry_of
    then elim (get_background_job task.retry_of t) [ none ↦ 0 | some prev ↦ prev.retry_count + 1 ]
    else 0

-- The retry count of the task's job: the error of the reading is ignored, and the count is 0 then.
unfoldable pub retry_count_of : Weather → Task → JobTable → ℕ
unfolding read_count
retry_count_of w task t = if w.reads then read_count task t else 0

abbrev pub job_of : Weather → Task → JobTable → BackgroundJob
job_of w task t = record {
  id = 0;
  symbol = task.symbol;
  job_type = task.task_type;
  status = running;
  started_at = some w.start;
  completed_at = none;
  error_message = [];
  retry_count = retry_count_of w task t;
  created_at = task.created_at;
}

unfoldable pub handle_success : Weather → BackgroundJob → JobTable → JobTable × Option Retry
unfolding update_background_job
handle_success w job t =
    (if w.updates then update_background_job (record job { status = success }) t else t, none)

-- The retry is created when its delay is over; its time of creation is then set.
unfoldable pub handle_failure : Weather → Text → BackgroundJob → JobTable → JobTable × Option Retry
unfolding update_background_job calculate_retry_delay
handle_failure w message job t =
    let due = w.finish + calculate_retry_delay (job.retry_count + 1) in
    if w.updates
    then (
      update_background_job (record job { status = failed; error_message = message }) t,
      if ltb job.retry_count max_retries
          then some (record {
            due = due;
            task = record {
              symbol = job.symbol;
              task_type = job.job_type;
              created_at = due;
              retry_of = job.id;
            };
          })
          else none,
    )
    else (t, none)

unfoldable pub execute_task : Weather → Task → JobTable → JobTable × Option Retry
unfolding retry_count_of create_background_job handle_success handle_failure
execute_task w task t =
    let (id, t') = create_background_job (job_of w task t) t in
    let job = record (job_of w task t) { id = id; completed_at = some w.finish } in
    if w.creates
    then elim w.fetch_error [
      | none ↦ handle_success w job t'
      | some message ↦ handle_failure w message job t'
    ]
    else (t, none)
