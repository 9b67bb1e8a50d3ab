-- ===== src/Scheduler/Run/Retries.antt =====
-- What an execution leaves in the table of jobs, and for a later retry.
use optix.Base.{
  ℕ, suc, ◌+◌, ◌≡◌, ◌≢◌, ◌≤◌, ◌<◌, ◌⊎◌, refl, sym, ◌∙◌, subst, List, [], ◌∷◌, Option, none, some,
  arith, All, All-map, Bool-cases, Option-cases, inl, inr,
}
use optix.Base.Text.{Text}
use optix.Base.Time.{Instant}
use optix.Scheduler.Jobs.{
  BackgroundJob, JobTable, find_job, update_rows, create_background_job, update_background_job,
  get_background_job, success, failed,
}
use optix.Scheduler.Batch.{Task}
use optix.Scheduler.Worker.{
  Weather, Retry, calculate_retry_delay, max_retries, read_count, retry_count_of, handle_success,
  handle_failure, execute_task, job_of,
}

-- A row was given its identifier, and has retried three times at most.
abbrev pub IsBelow : ℕ → BackgroundJob → Type 0
IsBelow n row = (row.id < n) × (row.retry_count ≤ max_retries)

abbrev pub IsTable : JobTable → Type 0
IsTable t = (0 < t.next_id) × All (IsBelow t.next_id) t.rows

-- A task that is new, or retries a job that has been created, for the third time at most.
abbrev pub IsLive : JobTable → Task → Type 0
IsLive t task = (task.retry_of < t.next_id) × (read_count task t ≤ max_retries)

find_job-update_ne :
    (i : ℕ) (job : BackgroundJob) (rows : List BackgroundJob)
    → i ≢ job.id
    → find_job i (update_rows job rows) ≡ find_job i rows
unfolding find_job update_rows
find_job-update_ne i job [] h = refl
find_job-update_ne i job (row ∷ rows) h = ground (arith, find_job-update_ne i job rows h)

update_rows-IsBelow :
    (n : ℕ) (job : BackgroundJob) (rows : List BackgroundJob)
    → job.retry_count ≤ max_retries
    → All (IsBelow n) rows
    → All (IsBelow n) (update_rows job rows)
unfolding update_rows
update_rows-IsBelow n job [] h k = tt
update_rows-IsBelow n job (row ∷ rows) h k = ground (arith, update_rows-IsBelow n job rows h k.1)

IsBelow-suc :
    (n : ℕ) (rows : List BackgroundJob) → All (IsBelow n) rows → All (IsBelow (suc n)) rows
IsBelow-suc n rows h = All-map (IsBelow n) (IsBelow (suc n)) rows (λ row k. omega arith) h

-- The three tables that an execution can leave.
abbrev created : BackgroundJob → JobTable → JobTable
created job t = (create_background_job job t).1

created-IsTable :
    (job : BackgroundJob) (t : JobTable)
    → job.retry_count ≤ max_retries
    → IsTable t
    → IsTable (created job t)
unfolding create_background_job
created-IsTable job t h (p, k) = (omega arith, ((omega arith, h), IsBelow-suc t.next_id t.rows k))

updated-IsTable :
    (job : BackgroundJob) (t : JobTable)
    → job.retry_count ≤ max_retries
    → IsTable t
    → IsTable (update_background_job job t)
unfolding update_background_job
updated-IsTable job t h (p, k) = (p, update_rows-IsBelow t.next_id job t.rows h k)

-- Neither changes what is counted for a task that retries an older job.
created-count :
    (u : Task) (job : BackgroundJob) (t : JobTable)
    → u.retry_of < t.next_id
    → read_count u (created job t) ≡ read_count u t
unfolding read_count create_background_job get_background_job find_job
created-count u job t h = ground arith

updated-count :
    (u : Task) (job : BackgroundJob) (t : JobTable)
    → u.retry_of ≢ job.id
    → read_count u (update_background_job job t) ≡ read_count u t
unfolding read_count get_background_job update_background_job
updated-count u job t h = ground (arith, find_job-update_ne u.retry_of job t.rows h)

-- A retry of the new job counts one more.
again-count :
    (u : Task) (job job' : BackgroundJob) (t : JobTable)
    → 0 < t.next_id
    → u.retry_of ≡ t.next_id
    → job'.id ≡ t.next_id
    → read_count u (update_background_job job' (created job t)) ≡ suc job'.retry_count
unfolding read_count get_background_job update_background_job create_background_job find_job
    update_rows
again-count u job job' t p h k = ground arith

abbrev pub IsNext : JobTable → ℕ → Option Retry → Type 0
IsNext t r none = Unit
IsNext t r (some q) =
    (q.task.retry_of < t.next_id) × (read_count q.task t ≡ suc r) × (r < max_retries)

-- What an execution from `t` of a task that has retried `r` times leaves.
abbrev pub IsAfter : JobTable → ℕ → JobTable × Option Retry → Type 0
IsAfter t r (t', retry) =
    IsTable t'
    × (t.next_id ≤ t'.next_id)
    × ((u : Task) → u.retry_of < t.next_id → read_count u t' ≡ read_count u t)
    × IsNext t' r retry

module _ (w : Weather) (task : Task) (t : JobTable) (table : IsTable t) (live : IsLive t task) where
  abbrev job : BackgroundJob
  job = job_of w task t

  abbrev finished : BackgroundJob
  finished = record job { id = t.next_id; completed_at = some w.finish }

  abbrev done : JobTable
  done = update_background_job (record finished { status = success }) (created job t)

  abbrev broken : Text → JobTable
  broken message =
      update_background_job (record finished { status = failed; error_message = message })
        (created job t)

  abbrev due : Instant
  due = w.finish + calculate_retry_delay (retry_count_of w task t + 1)

  abbrev again : Task
  again = record {
    symbol = task.symbol;
    task_type = task.task_type;
    created_at = due;
    retry_of = t.next_id;
  }

  -- The table and the retry that an execution leaves.
  execute_task_cases :
      (execute_task w task t ≡ (t, none))
      ⊎ (execute_task w task t ≡ (created job t, none))
      ⊎ (execute_task w task t ≡ (done, none))
      ⊎ ((m : Text) × ((execute_task w task t ≡ (broken m, none))
            ⊎ ((execute_task w task t ≡ (broken m, some (record { due = due; task = again })))
                × (retry_count_of w task t < max_retries))))
  unfolding execute_task handle_success handle_failure create_background_job
  execute_task_cases = elim (Option-cases w.fetch_error) [
    | inl e ↦ ground arith
    | inr (m, e) ↦ elim (Bool-cases w.creates) [
      | inl yes_ ↦ elim (Bool-cases w.updates) [
        | inl yes2 ↦ inr (inr (inr (m, ground arith)))
        | inr no_ ↦ inr (inl (ground arith))
      ]
      | inr no_ ↦ inl (ground arith)
    ]
  ]

  abbrev pub r : ℕ
  r = retry_count_of w task t

  r-bound : r ≤ max_retries
  unfolding retry_count_of
  r-bound = ground (arith, live.1)

  created-IsAfter : IsAfter t r (created job t, none)
  created-IsAfter = (
    created-IsTable job t r-bound table,
    unfold create_background_job in omega arith,
    λ u h. created-count u job t h,
    tt,
  )

  updated-IsAfter :
      (job' : BackgroundJob)
      → job'.id ≡ t.next_id
      → job'.retry_count ≡ r
      → IsAfter t r (update_background_job job' (created job t), none)
  updated-IsAfter job' e k = (
    updated-IsTable job' (created job t) (omega (arith, k, r-bound)) created-IsAfter.0,
    unfold create_background_job update_background_job in omega arith,
    λ u h. updated-count u job' (created job t) (ground (arith, e)) ∙ created-count u job t h,
    tt,
  )

  broken-IsAfter :
      (m : Text)
      → r < max_retries
      → IsAfter t r (broken m, some (record { due = due; task = again }))
  broken-IsAfter m h =
      let job' : BackgroundJob = record finished { status = failed; error_message = m } in
      let (table', grows, same, _) = updated-IsAfter job' refl refl in
      (
        table',
        grows,
        same,
        (
          unfold create_background_job update_background_job in omega arith,
          again-count again job job' t table.0 refl refl,
          h,
        ),
      )

  pub execute_task-IsAfter : IsAfter t r (execute_task w task t)
  execute_task-IsAfter = elim execute_task_cases [
    | inl e ↦ subst (IsAfter t r) (sym e) (table, omega arith, λ u h. refl, tt)
    | inr (inl e) ↦ subst (IsAfter t r) (sym e) created-IsAfter
    | inr (inr (inl e)) ↦
        subst (IsAfter t r) (sym e)
          (updated-IsAfter (record finished { status = success }) refl refl)
    | inr (inr (inr (m, inl e))) ↦
        subst (IsAfter t r) (sym e)
          (updated-IsAfter (record finished { status = failed; error_message = m }) refl refl)
    | inr (inr (inr (m, inr (e, h)))) ↦ subst (IsAfter t r) (sym e) (broken-IsAfter m h)
  ]
