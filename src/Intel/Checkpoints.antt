-- ===== src/Intel/Checkpoints.antt =====
-- The daily checkpoints (internal/intel/checkpoints.go, and currentCheckpoint of journal.go). A
-- trading date is a day; a text that is no date, for which CheckpointTime gives nothing, is left out.
pub mod Hours
use optix.Base.{ℕ, Bool, true, false, ◌||◌, List, [], ◌∷◌, Option, none, some, ltb, if◌then◌else◌}
use optix.Base.Text.{Text, text_eq, codes}
use optix.Base.Time.{Instant, Day, zero_time}
use optix.Intel.Calendar.{day_of}
use optix.Intel.Phase.{at_time}

pub record Checkpoint : Type 0 where
  pub kind : Text
  pub label : Text
  pub hour_et : ℕ
  pub min_et : ℕ

abbrev checkpoint : Text → Text → ℕ → ℕ → Checkpoint
checkpoint k l h m = record { kind = k; label = l; hour_et = h; min_et = m }

abbrev pub daily_checkpoints : List Checkpoint
daily_checkpoints =
    checkpoint (codes "script") (codes "剧本") 8 0
    ∷ checkpoint (codes "first_check") (codes "首验") 10 30
    ∷ checkpoint (codes "set_tone") (codes "定调") 15 0
    ∷ checkpoint (codes "reconcile") (codes "对账") 16 30
    ∷ []

unfoldable pub is_checkpoint_kind : Text → Bool
unfolding text_eq
is_checkpoint_kind kind =
    text_eq kind (codes "script")
    || text_eq kind (codes "first_check")
    || text_eq kind (codes "set_tone")
    || text_eq kind (codes "reconcile")
    || text_eq kind (codes "interrupt")

unfoldable pub time_in : Day → Text → List Checkpoint → Option Instant
time_in d kind [] = none
time_in d kind (c ∷ cs) =
    let rest = time_in d kind cs in
    if text_eq c.kind kind then some (at_time d c.hour_et c.min_et) else rest

unfoldable pub checkpoint_time : Day → Text → Option Instant
unfolding time_in
checkpoint_time d kind = time_in d kind daily_checkpoints

-- The zero time where there is none; the loops over the daily checkpoints always find one.
abbrev pub due_at_of : Day → Text → Instant
due_at_of d kind = elim (checkpoint_time d kind) [ none ↦ zero_time | some t ↦ t ]

pub data CheckpointStatus : Type 0 where
  written due pending : CheckpointStatus

pub record CheckpointState : Type 0 where
  pub kind : Text
  pub label : Text
  pub due_at : Instant
  pub status : CheckpointStatus

unfoldable pub state_of : Instant → (Text → Bool) → Checkpoint → CheckpointState
unfolding checkpoint_time
state_of et is_written c =
    let due_ = due_at_of (day_of et) c.kind in
    record {
      kind = c.kind;
      label = c.label;
      due_at = due_;
      status = if is_written c.kind then written else if ltb et due_ then pending else due;
    }

unfoldable pub states_of : Instant → (Text → Bool) → List Checkpoint → List CheckpointState
unfolding state_of
states_of et is_written [] = []
states_of et is_written (c ∷ cs) = state_of et is_written c ∷ states_of et is_written cs

unfoldable pub checkpoint_status : Instant → (Text → Bool) → List CheckpointState
unfolding states_of
checkpoint_status et is_written = states_of et is_written daily_checkpoints

-- The loop of currentCheckpoint, with the last checkpoint that was due.
unfoldable pub last_due : Instant → Text → List Checkpoint → Text
unfolding checkpoint_time
last_due et cur [] = cur
last_due et cur (c ∷ cs) =
    last_due et (if ltb et (due_at_of (day_of et) c.kind) then cur else c.kind) cs

unfoldable pub current_checkpoint : Instant → Text
unfolding last_due
current_checkpoint et = last_due et (codes "script") daily_checkpoints
