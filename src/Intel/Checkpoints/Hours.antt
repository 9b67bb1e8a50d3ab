-- ===== src/Intel/Checkpoints/Hours.antt =====
-- The checkpoint of an hour of the day, and its state.
use optix.Base.{ℕ, ◌+◌, ◌*◌, ◌≡◌, ltb, arith, if◌then◌else◌}
use optix.Base.Text.{Text, text_eq, codes}
use optix.Base.Time.{Instant}
use optix.Intel.Calendar.{second_of}
use optix.Intel.Checkpoints.{checkpoint_time, time_in, last_due, current_checkpoint}

-- The checkpoint of a second of the day.
abbrev pub checkpoint_in : ℕ → Text
checkpoint_in s =
    if ltb s (10 * 3600 + 30 * 60)
    then codes "script"
    else if ltb s (15 * 3600)
    then codes "first_check"
    else if ltb s (16 * 3600 + 30 * 60)
    then codes "set_tone"
    else codes "reconcile"

pub current_checkpoint_lem : (t : Instant) → current_checkpoint t ≡ checkpoint_in (second_of t)
unfolding current_checkpoint last_due checkpoint_time time_in text_eq
current_checkpoint_lem t = ground arith
