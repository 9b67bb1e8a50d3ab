-- ===== src/Base/Time.antt =====
-- Instants and civil dates. An instant (`time.Time`) is a number of seconds since the start of the
-- year 0000 of the proleptic Gregorian calendar, so Go's zero time, the start of the year 0001, is
-- the constant `zero_time`; fractions of a second are left out. `time.Parse` is written out for the
-- two date layouts that the program uses.
use optix.Base.{
  ℕ, zero, suc, ◌+◌, ◌-◌, ◌*◌, ◌/◌, ◌%◌, ◌≡◌, refl, Bool, not, ◌&&◌, ◌||◌, [], ◌∷◌, Option, none,
  some, leb, ◌==◌, if◌then◌else◌,
}
use optix.Base.Text.{Text, codes}

abbrev pub Instant : Type 0
Instant = ℕ

-- A day's number, counted from the start of the year 0000.
abbrev pub Day : Type 0
Day = ℕ

abbrev pub day_seconds : ℕ
day_seconds = 86400

abbrev pub zero_time : Instant
zero_time = 31622400

unfoldable pub is_leap : ℕ → Bool
is_leap y = (y % 4 == 0 && not (y % 100 == 0)) || y % 400 == 0

unfoldable pub days_in : ℕ → ℕ → ℕ
unfolding is_leap
days_in y m =
    if m == 2
    then (if is_leap y then 29 else 28)
    else if m == 4 || m == 6 || m == 9 || m == 11
    then 30
    else 31

-- The days of `y` before its month `m`, from 1.
unfoldable pub days_before_month : ℕ → ℕ → ℕ
unfolding days_in
days_before_month year zero = 0
days_before_month year (suc zero) = 0
days_before_month year (suc (suc k)) = days_in year (suc k) + days_before_month year (suc k)

unfoldable pub days_before_year : ℕ → ℕ
days_before_year y = 365 * y + (y + 3) / 4 + (y + 399) / 400 - (y + 99) / 100

unfoldable pub day_number : ℕ → ℕ → ℕ → Day
unfolding days_before_month days_before_year
day_number y m d = days_before_year y + days_before_month y m + (d - 1)

-- `time.Parse` refuses a month or a day out of range.
unfoldable pub checked_day : ℕ → ℕ → ℕ → Option Day
unfolding day_number days_in
checked_day y m d =
    if leb 1 m && leb m 12 && leb 1 d && leb d (days_in y m) then some (day_number y m d) else none

-- The value of a run of decimal digits.
unfoldable pub number : ℕ → Text → Option ℕ
number acc [] = some acc
number acc (c ∷ s) =
    let rest = number (acc * 10 + (c - b'0')) s in if leb b'0' c && leb c b'9' then rest else none

abbrev from_parts : Option ℕ → Option ℕ → Option ℕ → Option Day
from_parts (some y) (some m) (some d) = checked_day y m d
from_parts none _ _ = none
from_parts _ none _ = none
from_parts _ _ none = none

-- `time.Parse("20060102", s)`
unfoldable pub parse_compact : Text → Option Day
unfolding number checked_day
parse_compact (a ∷ b ∷ c ∷ d ∷ e ∷ f ∷ g ∷ h ∷ []) =
    from_parts (number 0 (a ∷ b ∷ c ∷ d ∷ [])) (number 0 (e ∷ f ∷ [])) (number 0 (g ∷ h ∷ []))
parse_compact _ = none

-- `time.Parse("2006-01-02", s)`
unfoldable pub parse_iso : Text → Option Day
unfolding number checked_day
parse_iso (a ∷ b ∷ c ∷ d ∷ p ∷ e ∷ f ∷ q ∷ g ∷ h ∷ []) =
    if p == b'-' && q == b'-'
    then from_parts (number 0 (a ∷ b ∷ c ∷ d ∷ [])) (number 0 (e ∷ f ∷ [])) (number 0 (g ∷ h ∷ []))
    else none
parse_iso _ = none

zero_time_day : day_number 1 1 1 * day_seconds ≡ zero_time
unfolding day_number
zero_time_day = refl

parse_compact_leap : parse_compact (codes "20240229") ≡ some 739310
unfolding parse_compact
parse_compact_leap = refl

parse_compact_refused : parse_compact (codes "20230229") ≡ none
unfolding parse_compact
parse_compact_refused = refl
