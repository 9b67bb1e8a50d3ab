-- ===== src/Scheduler/Run/Bounds.antt =====
-- The bounds of a running scheduler, and its end when no batch comes.
use optix.Base.{
  ℕ, suc, ◌+◌, ◌*◌, ◌≡◌, true, ◌≤◌, ◌<◌, ◌⊎◌, subst, List, [], ◌∷◌, ◌++◌, some, ltb, length, arith,
  All, total, Bool-cases, Option-cases, List-cases, some_inj, inl, inr,
}
use optix.Base.Text.{Text}
use optix.Base.Time.{Instant}
use optix.Scheduler.Jobs.{BackgroundJob, JobTable, WatchlistRow}
use optix.Scheduler.Batch.{Task, Group, task_for, generate_batch}
use optix.Scheduler.Batch.Dispatch.{generate_batch-fits, All-generate_batch}
use optix.Scheduler.Worker.{Weather, Retry, max_retries, read_count}
use optix.Scheduler.Run.{
  System, work, pull_timer, fire_timer, Event, on_tick, on_work, on_timer, step, Reachable,
}
use optix.Scheduler.Run.Retries.{IsTable, IsLive}
use optix.Scheduler.Run.Drain.{
  IsSound, measure, queued_weight, timed_weight, new_system-IsSound, work-Falls, fire_timer-Falls,
}

fresh-IsLive : (t : JobTable) → IsTable t → (now : Instant) (s : Text) → IsLive t (task_for now s)
unfolding read_count
fresh-IsLive t (p, h) now s = (p, omega arith)

tick-IsSound :
    (walk : List Group → List Group) (db_now now : Instant) (s : System)
    → IsSound s
    → IsSound (record s { board = generate_batch walk db_now now s.board })
tick-IsSound walk db_now now s sound =
    let (same, fits) = generate_batch-fits walk db_now now s.board sound.fits in
    record {
      fits = omega (arith, same, fits);
      table = sound.table;
      queued =
          All-generate_batch (IsLive s.jobs) now (fresh-IsLive s.jobs sound.table now) walk db_now
            s.board sound.queued;
      timed = sound.timed;
    }

step-IsSound : (e : Event) (s s' : System) → IsSound s → step e s ≡ some s' → IsSound s'
unfolding step
step-IsSound (on_tick walk db_now now) s s' sound h =
    subst IsSound (some_inj h) (tick-IsSound walk db_now now s sound)
step-IsSound (on_work w) s s' sound h = (work-Falls w s s' sound h).0
step-IsSound (on_timer i) s s' sound h = (fire_timer-Falls i s s' sound h).0

Reachable-IsSound :
    (size : ℕ) (ws : List WatchlistRow) (s : System) → Reachable size ws s → IsSound s
Reachable-IsSound size ws s Reachable.started = new_system-IsSound size ws
Reachable-IsSound size ws s (Reachable.next e {s = s0} run h) =
    step-IsSound e s0 s (Reachable-IsSound size ws s0 run) h

-- In a scheduler that has run from its start through any batches, executions and timers, the queue is
-- never longer than its capacity, and every job in the table has an identifier below the next one and
-- a retry count of three at most.
pub Reachable-bounds :
    (size : ℕ) (ws : List WatchlistRow) (s : System)
    → Reachable size ws s
    → (length s.board.queue ≤ s.board.capacity)
      × All
          (λ (row : BackgroundJob). (row.id < s.jobs.next_id) × (row.retry_count ≤ max_retries))
          s.jobs.rows
Reachable-bounds size ws s run =
    let sound = Reachable-IsSound size ws s run in (sound.fits, sound.table.1)

-- A run of workers and timers alone, of so many events, in which the workers read the jobs that they
-- retry.
pub data Drains : ℕ → System → System → Type 0 where
  rests : {s : System} → Drains 0 s s
  works :
      (w : Weather) {n : ℕ} {s t u : System}
      → w.reads ≡ true
      → work w s ≡ some t
      → Drains n t u
      → Drains (suc n) s u
  fires :
      (i : ℕ) {n : ℕ} {s t u : System} → fire_timer i s ≡ some t → Drains n t u → Drains (suc n) s u

Drains-measure : (n : ℕ) (s u : System) → IsSound s → Drains n s u → n + measure u ≤ measure s
Drains-measure n s u sound Drains.rests = omega arith
Drains-measure n s u sound (Drains.works w {n = k} {t = t} r h run) =
    let (sound', less) = work-Falls w s t sound h in
    omega (arith, less r, Drains-measure k t u sound' run)
Drains-measure n s u sound (Drains.fires i {n = k} {t = t} h run) =
    let (sound', less) = fire_timer-Falls i s t sound h in
    omega (arith, less, Drains-measure k t u sound' run)

fire_timer_total :
    (r : Retry) (rs : List Retry) (s : System)
    → s.timers ≡ r ∷ rs
    → (t : System) × (fire_timer 0 s ≡ some t)
unfolding fire_timer pull_timer
fire_timer_total r rs s h = elim (Bool-cases (ltb (length s.board.queue) s.board.capacity)) [
  | inl room ↦ (
    record s { board = record (s.board) { queue = s.board.queue ++ r.task ∷ [] }; timers = rs },
    ground arith,
  )
  | inr full ↦ (record s { timers = rs }, ground arith)
]

-- A worker can take a task, and the first timer can end, where there is one.
progress :
    (w : Weather) (s : System)
    → ((s.board.queue ≡ []) × (s.timers ≡ []))
      ⊎ ((t : System) × ((work w s ≡ some t) ⊎ (fire_timer 0 s ≡ some t)))
progress w s = elim (List-cases s.board.queue) [
  | inl e ↦ elim (List-cases s.timers) [
    | inl k ↦ inl (e, k)
    | inr (r, rs, k) ↦ let (t, h) = fire_timer_total r rs s k in inr (t, inr h)
  ]
  | inr (task, rest, e) ↦ elim (Option-cases (work w s)) [
    | inl k ↦ unfold work in ground arith
    | inr (t, k) ↦ inr (t, inl k)
  ]
]

queued-bound : (t : JobTable) (us : List Task) → total (queued_weight t) us ≤ 7 * length us
queued-bound t [] = omega arith
queued-bound t (u ∷ us) = omega (arith, queued-bound t us)

timed-bound : (t : JobTable) (rs : List Retry) → total (timed_weight t) rs ≤ 8 * length rs
timed-bound t [] = omega arith
timed-bound t (r ∷ rs) = omega (arith, timed-bound t rs)

-- From a reachable scheduler, a run of executions and timers with no new batch, in which no reading of
-- an earlier job fails, has no more events than seven for each task on the queue and eight for each
-- retry that waits. Where it ends without a task and without a retry, all is done; anywhere else, a
-- worker or a timer can go on, whatever the worker's execution meets.
pub Reachable-Drains :
    (size : ℕ) (ws : List WatchlistRow) (s : System)
    → Reachable size ws s
    → (w : Weather) (n : ℕ) (u : System) → Drains n s u
    → (n ≤ 7 * length s.board.queue + 8 * length s.timers)
      × (((u.board.queue ≡ []) × (u.timers ≡ []))
          ⊎ ((v : System) × ((work w u ≡ some v) ⊎ (fire_timer 0 u ≡ some v))))
Reachable-Drains size ws s run w n u drains = (
  omega (
    arith,
    Drains-measure n s u (Reachable-IsSound size ws s run) drains,
    queued-bound s.jobs s.board.queue,
    timed-bound s.jobs s.timers,
  ),
  progress w u,
)
