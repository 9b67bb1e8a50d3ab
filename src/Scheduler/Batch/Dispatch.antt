-- ===== src/Scheduler/Batch/Dispatch.antt =====
-- What a batch puts on the channel.
use optix.Base.{
  ℕ, zero, suc, ◌-◌, ◌≡◌, ◌≤◌, refl, sym, ◌∙◌, ap, Bool, false, ◌||◌, List, [], ◌∷◌, ◌++◌, map,
  some, if◌then◌else◌, length, take, ◌<◌, arith, append_assoc, append-nil, length-append,
  Bool-cases, inl, inr, All, All-append,
}
use optix.Base.Text.{Text, text_eq}
use optix.Base.Time.{Instant}
use optix.Scheduler.Jobs.{WatchlistRow, get_symbols_needing_refresh, update_last_refresh_time}
use optix.Scheduler.Batch.{
  Task, Group, Board, task_for, dispatch_one, dispatch_each, dispatch_group, dispatch_groups,
  should_dispatch_batch, last_time, set_time, group_by_interval, generate_batch,
}

abbrev pub is_among : Text → List Text → Bool
is_among t [] = false
is_among t (s ∷ ss) = text_eq t s || is_among t ss

-- The rows whose symbol is among those given have the time.
abbrev pub refreshed : List Text → Instant → List WatchlistRow → List WatchlistRow
refreshed symbols now [] = []
refreshed symbols now (w ∷ ws) =
    (if is_among w.symbol symbols then record w { last_refreshed_at = some now } else w)
    ∷ refreshed symbols now ws

refreshed-nil : (now : Instant) (ws : List WatchlistRow) → refreshed [] now ws ≡ ws
refreshed-nil now [] = refl
refreshed-nil now (w ∷ ws) = ap (◌∷◌ w) (refreshed-nil now ws)

refreshed-cons :
    (s : Text) (ss : List Text) (now : Instant) (ws : List WatchlistRow)
    → refreshed ss now (update_last_refresh_time s now ws) ≡ refreshed (s ∷ ss) now ws
unfolding update_last_refresh_time
refreshed-cons s ss now [] = refl
refreshed-cons s ss now (w ∷ ws) = ground (arith, refreshed-cons s ss now ws)

abbrev sent : Instant → List Text → Board → Board
sent now room b = record b {
  queue = b.queue ++ map (task_for now) room;
  watchlist = refreshed room now b.watchlist;
}

sent-nil : (now : Instant) (b : Board) → sent now [] b ≡ b
sent-nil now b = ground (arith, append-nil b.queue, refreshed-nil now b.watchlist)

take-nil : (k : ℕ) → take {A = Text} k [] ≡ []
take-nil zero = refl
take-nil (suc k) = refl

dispatch_one-room :
    (now : Instant) (s : Text) (b : Board)
    → length b.queue < b.capacity
    → dispatch_one now s b ≡ record b {
      queue = b.queue ++ task_for now s ∷ [];
      watchlist = update_last_refresh_time s now b.watchlist;
    }
unfolding dispatch_one
dispatch_one-room now s b h = ground arith

dispatch_one-full :
    (now : Instant) (s : Text) (b : Board) → b.capacity ≤ length b.queue → dispatch_one now s b ≡ b
unfolding dispatch_one
dispatch_one-full now s b h = ground arith

-- With room for `k` more.
dispatch_each-sent :
    (now : Instant) (symbols : List Text) (k : ℕ) (b : Board)
    → k ≡ b.capacity - length b.queue
    → dispatch_each now symbols b ≡ sent now (take k symbols) b
unfolding dispatch_each
dispatch_each-sent now [] k b h = rw (take-nil k) (sym (sent-nil now b))
dispatch_each-sent now (s ∷ ss) zero b h =
    rw (dispatch_one-full now s b (omega arith)) (dispatch_each-sent now ss zero b h)
dispatch_each-sent now (s ∷ ss) (suc k) b h =
    let b' : Board = record b {
      queue = b.queue ++ task_for now s ∷ [];
      watchlist = update_last_refresh_time s now b.watchlist;
    } in
    rw (dispatch_one-room now s b (omega arith)) (
      dispatch_each-sent now ss k b' (omega (arith, length-append b.queue (task_for now s ∷ [])))
      ∙ ground (
        arith,
        append_assoc b.queue (task_for now s ∷ []) (map (task_for now) (take k ss)),
        refreshed-cons s (take k ss) now b.watchlist,
      ))

-- A group whose time has come puts its first symbols on the channel: five of them at most, and no
-- more than the channel has room for. These, and only these, have their time of refresh set; the
-- others stay due. The batch is noted as sent also where it was cut short. A group whose time has
-- not come changes nothing.
pub dispatch_group_lem :
    (now : Instant) (interval : ℕ) (batch : List Text) (b : Board)
    → let room = take (b.capacity - length b.queue) (take 5 batch) in
      dispatch_group now (interval, batch) b ≡ (
        if should_dispatch_batch interval (last_time interval b.last_batch) now (length batch)
        then record b {
          queue = b.queue ++ map (task_for now) room;
          last_batch = set_time interval now b.last_batch;
          watchlist = refreshed room now b.watchlist;
        }
        else b)
unfolding dispatch_group
dispatch_group_lem now interval batch b =
    ground (arith, dispatch_each-sent now (take 5 batch) (b.capacity - length b.queue) b refl)

length-take-le : {A : Type 0} (k : ℕ) (xs : List A) → length (take k xs) ≤ k
length-take-le zero xs = omega arith
length-take-le (suc k) [] = omega arith
length-take-le (suc k) (x ∷ xs) = omega (arith, length-take-le k xs)

length-sent : (now : Instant) (room : List Text) → length (map (task_for now) room) ≡ length room
length-sent now [] = refl
length-sent now (s ∷ ss) = omega (arith, length-sent now ss)

dispatch_group-fits :
    (now : Instant) (g : Group) (b : Board)
    → length b.queue ≤ b.capacity
    → ((dispatch_group now g b).capacity ≡ b.capacity)
      × (length (dispatch_group now g b).queue ≤ b.capacity)
dispatch_group-fits now (interval, batch) b h =
    let room = take (b.capacity - length b.queue) (take 5 batch) in
    ground (
      arith,
      dispatch_group_lem now interval batch b,
      length-append b.queue (map (task_for now) room),
      length-sent now room,
      length-take-le (b.capacity - length b.queue) (take 5 batch),
    )

dispatch_groups-fits :
    (now : Instant) (gs : List Group) (b : Board)
    → length b.queue ≤ b.capacity
    → ((dispatch_groups now gs b).capacity ≡ b.capacity)
      × (length (dispatch_groups now gs b).queue ≤ b.capacity)
unfolding dispatch_groups
dispatch_groups-fits now [] b h = (refl, h)
dispatch_groups-fits now (g ∷ gs) b h =
    let (e, h') = dispatch_group-fits now g b h in
    let (e', h'') = dispatch_groups-fits now gs (dispatch_group now g b) (rw e h') in
    (e' ∙ e, omega (arith, e, h''))

pub generate_batch-fits :
    (walk : List Group → List Group) (db_now now : Instant) (b : Board)
    → length b.queue ≤ b.capacity
    → ((generate_batch walk db_now now b).capacity ≡ b.capacity)
      × (length (generate_batch walk db_now now b).queue ≤ b.capacity)
unfolding generate_batch
generate_batch-fits walk db_now now b h =
    dispatch_groups-fits now
      (walk (group_by_interval (get_symbols_needing_refresh db_now b.watchlist))) b h

-- What holds of every task of a batch.
module _ (P : Task → Type 0) (now : Instant) (fresh : (s : Text) → P (task_for now s)) where
  All-tasks : (room : List Text) → All P (map (task_for now) room)
  All-tasks [] = tt
  All-tasks (s ∷ ss) = (fresh s, All-tasks ss)

  All-dispatch_group :
      (g : Group) (b : Board) → All P b.queue → All P (dispatch_group now g b).queue
  All-dispatch_group (interval, batch) b h =
      let room = take (b.capacity - length b.queue) (take 5 batch) in
      rw (dispatch_group_lem now interval batch b)
        (elim (Bool-cases
          (should_dispatch_batch interval (last_time interval b.last_batch) now (length batch))) [
            | inl yes_ ↦
                rw (yes_, All) (All-append P b.queue (map (task_for now) room) h (All-tasks room))
            | inr no_ ↦ rw (no_, All) h
          ])

  All-dispatch_groups :
      (gs : List Group) (b : Board) → All P b.queue → All P (dispatch_groups now gs b).queue
  unfolding dispatch_groups
  All-dispatch_groups [] b h = h
  All-dispatch_groups (g ∷ gs) b h =
      All-dispatch_groups gs (dispatch_group now g b) (All-dispatch_group g b h)

  pub All-generate_batch :
      (walk : List Group → List Group) (db_now : Instant) (b : Board)
      → All P b.queue
      → All P (generate_batch walk db_now now b).queue
  unfolding generate_batch
  All-generate_batch walk db_now b h =
      All-dispatch_groups
        (walk (group_by_interval (get_symbols_needing_refresh db_now b.watchlist))) b h
