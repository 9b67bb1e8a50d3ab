-- ===== src/Scheduler/Run/Drain.antt =====
-- What an execution or a timer leaves of the work: the invariant of a running scheduler, and a measure.
use optix.Base.{
  ℕ, zero, suc, ◌+◌, ◌-◌, ◌*◌, ◌≡◌, ◌≤◌, ◌<◌, refl, ap, subst, List, [], ◌∷◌, ◌++◌, Option, none,
  some, true, ltb, length, arith, All, All-append, All-map, total, total-append, length-append,
  Bool-cases, Option-cases, List-cases, some_inj, inl, inr,
}
use optix.Scheduler.Jobs.{JobTable, WatchlistRow}
use optix.Scheduler.Batch.{Task}
use optix.Scheduler.Worker.{Weather, Retry, max_retries, read_count, retry_count_of, execute_task}
use optix.Scheduler.Run.{System, new_system, work, pull_timer, fire_timer, with_retry}
use optix.Scheduler.Run.Retries.{IsTable, IsLive, IsAfter, IsNext, execute_task-IsAfter}

pub record IsSound (s : System) : Type 0 where
  pub fits : length s.board.queue ≤ s.board.capacity
  pub table : IsTable s.jobs
  pub queued : All (IsLive s.jobs) s.board.queue
  pub timed : All (λ (r : Retry). IsLive s.jobs r.task) s.timers

-- The work that is left for a task: at most two events for each retry that it may still have.
abbrev pub queued_weight : JobTable → Task → ℕ
queued_weight t u = 2 * (max_retries - read_count u t) + 1

abbrev pub timed_weight : JobTable → Retry → ℕ
timed_weight t r = 2 * (max_retries - read_count r.task t) + 2

abbrev pub measure : System → ℕ
measure s = total (queued_weight s.jobs) s.board.queue + total (timed_weight s.jobs) s.timers

pub new_system-IsSound : (size : ℕ) (ws : List WatchlistRow) → IsSound (new_system size ws)
unfolding new_system
new_system-IsSound size ws = record {
  fits = omega arith;
  table = (omega arith, tt);
  queued = tt;
  timed = tt;
}

-- An execution leaves the other tasks as they are.
module _ (t t' : JobTable) (grows : t.next_id ≤ t'.next_id)
    (same : (u : Task) → u.retry_of < t.next_id → read_count u t' ≡ read_count u t) where
  IsLive-after : (u : Task) → IsLive t u → IsLive t' u
  IsLive-after u h = (omega (arith, h.0, grows), omega (arith, same u h.0, h.1))

  queued-after :
      (us : List Task)
      → All (IsLive t) us
      → total (queued_weight t') us ≡ total (queued_weight t) us
  queued-after [] h = refl
  queued-after (u ∷ us) h = omega (arith, same u h.0.0, queued-after us h.1)

  timed-after :
      (rs : List Retry)
      → All (λ (r : Retry). IsLive t r.task) rs
      → total (timed_weight t') rs ≡ total (timed_weight t) rs
  timed-after [] h = refl
  timed-after (r ∷ rs) h = omega (arith, same r.task h.0.0, timed-after rs h.1)

  with_retry-IsLive :
      (n : ℕ) (retry : Option Retry) (rs : List Retry)
      → IsNext t' n retry
      → All (λ (r : Retry). IsLive t r.task) rs
      → All (λ (r : Retry). IsLive t' r.task) (with_retry retry rs)
  with_retry-IsLive n none rs k h =
      All-map (λ (r : Retry). IsLive t r.task) (λ (r : Retry). IsLive t' r.task) rs
        (λ r live. IsLive-after r.task live) h
  with_retry-IsLive n (some r) rs k h = (
    (k.0, omega (arith, k.1, k.2)),
    All-map (λ (r : Retry). IsLive t r.task) (λ (r : Retry). IsLive t' r.task) rs
        (λ r live. IsLive-after r.task live) h,
  )

  with_retry-weight :
      (n : ℕ) (retry : Option Retry) (rs : List Retry)
      → n ≤ max_retries
      → IsNext t' n retry
      → All (λ (r : Retry). IsLive t r.task) rs
      → total (timed_weight t') (with_retry retry rs)
        ≤ total (timed_weight t) rs + 2 * (max_retries - n)
  with_retry-weight n none rs b k h = omega (arith, timed-after rs h)
  with_retry-weight n (some r) rs b k h = omega (arith, timed-after rs h, k.1, k.2)

-- What a worker makes of a first task.
module _ (w : Weather) (s : System) (task : Task) (rest : List Task)
    (first : s.board.queue ≡ task ∷ rest) (sound : IsSound s) where
  abbrev worked : System
  worked =
      let (jobs, retry) = execute_task w task s.jobs in
      record s {
        board = record (s.board) { queue = rest };
        timers = with_retry retry s.timers;
        jobs = jobs;
      }

  live : All (IsLive s.jobs) (task ∷ rest)
  live = subst (All (IsLive s.jobs)) first sound.queued

  few : retry_count_of w task s.jobs ≤ max_retries
  unfolding retry_count_of
  few = ground (arith, live.0.1)

  after : IsAfter s.jobs (retry_count_of w task s.jobs) (execute_task w task s.jobs)
  after = execute_task-IsAfter w task s.jobs sound.table live.0

  worked-IsSound : IsSound worked
  worked-IsSound =
      let t' = (execute_task w task s.jobs).0 in
      record {
        fits = omega (arith, ap length first, sound.fits);
        table = after.0;
        queued =
            All-map (IsLive s.jobs) (IsLive t') rest
              (λ u h. IsLive-after s.jobs t' after.1 after.2 u h) live.1;
        timed =
            with_retry-IsLive s.jobs t' after.1 after.2 (retry_count_of w task s.jobs)
              (execute_task w task s.jobs).1 s.timers after.3 sound.timed;
      }

  -- Less is left, where the count is read.
  worked-measure : w.reads ≡ true → measure worked < measure s
  unfolding retry_count_of
  worked-measure h =
      let t' = (execute_task w task s.jobs).0 in
      let read : retry_count_of w task s.jobs ≡ read_count task s.jobs = ground (arith, h) in
      omega (
        arith,
        read,
        ap (total (queued_weight s.jobs)) first,
        queued-after s.jobs t' after.1 after.2 rest live.1,
        with_retry-weight s.jobs t' after.1 after.2 (retry_count_of w task s.jobs)
            (execute_task w task s.jobs).1 s.timers few after.3 sound.timed,
      )

abbrev pub Falls : System → System → Type 0
Falls s s' = IsSound s' × (measure s' < measure s)

-- A worker leaves a sound system, and less work where it reads the count of the job that it retries.
pub work-Falls :
    (w : Weather) (s s' : System)
    → IsSound s
    → work w s ≡ some s'
    → IsSound s' × (w.reads ≡ true → measure s' < measure s)
unfolding work
work-Falls w s s' sound h = elim (List-cases s.board.queue) [
  | inl e ↦ ground arith
  | inr (task, rest, e) ↦
      let same : worked w s task rest e sound ≡ s' = ground arith in
      subst (λ u. IsSound u × (w.reads ≡ true → measure u < measure s)) same
        (worked-IsSound w s task rest e sound, λ r. worked-measure w s task rest e sound r)
]

pull_timer-total :
    (m : Retry → ℕ) (i : ℕ) (rs : List Retry) (r : Retry) (qs : List Retry)
    → pull_timer i rs ≡ some (r, qs)
    → total m rs ≡ m r + total m qs
unfolding pull_timer
pull_timer-total m i [] r qs h = ground arith
pull_timer-total m zero (q ∷ rs) r qs h = ground arith
pull_timer-total m (suc i) (q ∷ rs) r qs h = elim (Option-cases (pull_timer i rs)) [
  | inl e ↦ ground arith
  | inr ((r', qs'), e) ↦ ground (arith, pull_timer-total m i rs r' qs' e)
]

pull_timer-All :
    (P : Retry → Type 0) (i : ℕ) (rs : List Retry) (r : Retry) (qs : List Retry)
    → pull_timer i rs ≡ some (r, qs)
    → All P rs
    → P r × All P qs
unfolding pull_timer
pull_timer-All P i [] r qs h k = ground arith
pull_timer-All P zero (q ∷ rs) r qs h k =
    subst (λ (p : Retry × List Retry). P p.0 × All P p.1) (some_inj h) k
pull_timer-All P (suc i) (q ∷ rs) r qs h k = elim (Option-cases (pull_timer i rs)) [
  | inl e ↦ ground arith
  | inr ((r', qs'), e) ↦
      let (here, others) = pull_timer-All P i rs r' qs' e k.1 in
      let same : (r', q ∷ qs') ≡ (r, qs) = some_inj (ground arith) in
      subst (λ (p : Retry × List Retry). P p.0 × All P p.1) same (here, (k.0, others))
]

pub fire_timer-Falls : (i : ℕ) (s s' : System) → IsSound s → fire_timer i s ≡ some s' → Falls s s'
unfolding fire_timer
fire_timer-Falls i s s' sound h = elim (Option-cases (pull_timer i s.timers)) [
  | inl e ↦ ground arith
  | inr ((r, rs), e) ↦
      let (live, others) =
        pull_timer-All (λ (r : Retry). IsLive s.jobs r.task) i s.timers r rs e sound.timed in
      let weight = pull_timer-total (timed_weight s.jobs) i s.timers r rs e in
      elim (Bool-cases (ltb (length s.board.queue) s.board.capacity)) [
        | inl room ↦
            let sent : System = record s {
              board = record (s.board) { queue = s.board.queue ++ r.task ∷ [] };
              timers = rs;
            } in
            let same : sent ≡ s' = ground arith in
            subst (Falls s) same (
              record {
                fits = ground (arith, length-append s.board.queue (r.task ∷ []));
                table = sound.table;
                queued =
                    All-append (IsLive s.jobs) s.board.queue (r.task ∷ []) sound.queued (live, tt);
                timed = others;
              },
              omega
                  (arith, weight, total-append (queued_weight s.jobs) s.board.queue (r.task ∷ [])),
            )
        | inr full ↦
            let dropped : System = record s { timers = rs } in
            let same : dropped ≡ s' = ground arith in
            subst (Falls s) same (
              record {
                fits = sound.fits;
                table = sound.table;
                queued = sound.queued;
                timed = others;
              },
              omega (arith, weight),
            )
      ]
]
