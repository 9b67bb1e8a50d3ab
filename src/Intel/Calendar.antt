-- ===== src/Intel/Calendar.antt =====
-- The trading calendar (internal/intel/calendar.go).
pub mod Trading
use optix.Base.{
  ℕ, zero, suc, ◌+◌, ◌*◌, ◌/◌, ◌%◌, ◌≡◌, ◌<◌, ◌≤◌, refl, Bool, true, false, ◌&&◌, ◌||◌, not, List,
  [], ◌∷◌, ◌++◌, Option, none, some, arith, ltb, ◌==◌, if◌then◌else◌,
}
use optix.Base.Time.{Instant, Day, day_seconds, day_number}

pub data DayRule : Type 0 where
  holiday early_close : DayRule

abbrev pub day_of : Instant → Day
day_of t = t / day_seconds

abbrev pub second_of : Instant → ℕ
second_of t = t % day_seconds

-- `Hour()*60 + Minute()`
abbrev pub minute_of : Instant → ℕ
minute_of t = second_of t / 60

-- `Weekday()`: 0 is Sunday. The year 0000 began on a Saturday.
abbrev pub weekday : Day → ℕ
weekday d = (d + 6) % 7

abbrev pub is_weekend : Day → Bool
is_weekend d = weekday d == 6 || weekday d == 0

holidays_2026 : List Day
holidays_2026 =
    day_number 2026 1 1
    ∷ day_number 2026 1 19
    ∷ day_number 2026 2 16
    ∷ day_number 2026 4 3
    ∷ day_number 2026 5 25
    ∷ day_number 2026 6 19
    ∷ day_number 2026 7 3
    ∷ day_number 2026 9 7
    ∷ day_number 2026 11 26
    ∷ day_number 2026 12 25
    ∷ []

holidays_2027 : List Day
holidays_2027 =
    day_number 2027 1 1
    ∷ day_number 2027 1 18
    ∷ day_number 2027 2 15
    ∷ day_number 2027 3 26
    ∷ day_number 2027 5 31
    ∷ day_number 2027 6 18
    ∷ day_number 2027 7 5
    ∷ day_number 2027 9 6
    ∷ day_number 2027 11 25
    ∷ day_number 2027 12 24
    ∷ []

holidays_2028 : List Day
holidays_2028 =
    day_number 2028 1 17
    ∷ day_number 2028 2 21
    ∷ day_number 2028 4 14
    ∷ day_number 2028 5 29
    ∷ day_number 2028 6 19
    ∷ day_number 2028 7 4
    ∷ day_number 2028 9 4
    ∷ day_number 2028 11 23
    ∷ day_number 2028 12 25
    ∷ []

early_closes : List Day
early_closes =
    day_number 2026 11 27
    ∷ day_number 2026 12 24
    ∷ day_number 2027 11 26
    ∷ day_number 2028 7 3
    ∷ day_number 2028 11 24
    ∷ []

listed : Day → List Day → Bool
listed d [] = false
listed d (x ∷ xs) = d == x || listed d xs

-- `nyseCalendar[date]`. The map's keys are the dates in the layout 2006-01-02, one for each day.
unfoldable pub nyse_calendar : Day → Option DayRule
unfolding holidays_2026 holidays_2027 holidays_2028 early_closes listed day_number
nyse_calendar d =
    if listed d (holidays_2026 ++ holidays_2027 ++ holidays_2028)
    then some holiday
    else if listed d early_closes
    then some early_close
    else none

abbrev pub is_holiday : Option DayRule → Bool
is_holiday (some holiday) = true
is_holiday (some early_close) = false
is_holiday none = false

abbrev pub is_early_close : Option DayRule → Bool
is_early_close (some early_close) = true
is_early_close (some holiday) = false
is_early_close none = false

unfoldable pub is_trading_day : Day → Bool
is_trading_day d = if is_weekend d then false else not (is_holiday (nyse_calendar d))

-- 13:00 on a day of early close.
unfoldable pub early_close_at : Day → Option Instant
early_close_at d =
    if is_early_close (nyse_calendar d) then some (d * day_seconds + 13 * 3600) else none

abbrev pub calendar_max_year : ℕ
calendar_max_year = 2028

-- `t.Year() > calendarMaxYear`: the day is one of the next year or later.
unfoldable pub calendar_stale : Instant → Bool
unfolding day_number
calendar_stale t = not (ltb (day_of t) (day_number (suc calendar_max_year) 1 1))
