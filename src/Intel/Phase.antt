-- ===== src/Intel/Phase.antt =====
-- The phases of the market day (internal/intel/phase.go).
pub mod TradingDay
pub mod Next
use optix.Base.{
  ℕ, zero, suc, ◌+◌, ◌*◌, ◌/◌, Bool, true, false, ◌&&◌, List, [], ◌∷◌, Option, none, some, ltb, leb,
  if◌then◌else◌,
}
use optix.Base.Time.{Instant, Day, day_seconds, zero_time}
use optix.Intel.Calendar.{day_of, second_of, minute_of, is_trading_day, early_close_at}

pub data Phase : Type 0 where
  premarket intraday postclose closed : Phase

-- `closeM`: 16:00, or the minute of the early close.
unfoldable pub close_minute : Day → ℕ
close_minute d = elim (early_close_at d) [ some ec ↦ minute_of ec | none ↦ 16 * 60 ]

-- The `switch` on the minutes since midnight.
unfoldable pub phase_in : ℕ → ℕ → Phase
phase_in close_m mins =
    if leb (4 * 60) mins && ltb mins (9 * 60 + 30)
    then premarket
    else if leb (9 * 60 + 30) mins && ltb mins close_m
    then intraday
    else if leb close_m mins && ltb mins (close_m + 4 * 60)
    then postclose
    else closed

unfoldable pub phase_at : Instant → Phase
unfolding phase_in close_minute
phase_at et =
    if is_trading_day (day_of et)
    then phase_in (close_minute (day_of et)) (minute_of et)
    else closed

-- `time.Date(y, m, d, h, min, 0, 0, nyLoc)`
abbrev pub at_time : Day → ℕ → ℕ → Instant
at_time d h min = d * day_seconds + h * 3600 + min * 60

unfoldable pub day_boundaries : Day → List Instant
day_boundaries d =
    if is_trading_day d
    then elim (early_close_at d) [
      | some ec ↦ at_time d 4 0 ∷ at_time d 9 30 ∷ ec ∷ (ec + 4 * 3600) ∷ []
      | none ↦ at_time d 4 0 ∷ at_time d 9 30 ∷ at_time d 16 0 ∷ at_time d 20 0 ∷ []
    ]
    else []

-- The first boundary that is after `t`.
unfoldable pub first_after : Instant → List Instant → Option Instant
first_after t [] = none
first_after t (b ∷ bs) = if ltb t b then some b else first_after t bs

-- The loop over the days from `d`, `n` of them.
unfoldable pub scan_days : ℕ → Day → Instant → Instant × Phase
scan_days zero d t = (zero_time, closed)
scan_days (suc n) d t = elim (first_after t (day_boundaries d)) [
  | some b ↦ (b, phase_at b)
  | none ↦ scan_days n (suc d) t
]

unfoldable pub next_transition : Instant → Instant × Phase
unfolding scan_days
next_transition t = scan_days 14 (day_of t) t

pub data View : Type 0 where
  premarket intraday postclose event shock : View

unfoldable pub view_for : Phase → View
view_for Phase.premarket = View.premarket
view_for Phase.intraday = View.intraday
view_for Phase.postclose = View.postclose
view_for Phase.closed = View.postclose
