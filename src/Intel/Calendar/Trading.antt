-- ===== src/Intel/Calendar/Trading.antt =====
-- The calendar leaves no two weeks without a trading day.
use optix.Base.{
  ℕ, zero, suc, ◌+◌, ◌-◌, ◌≡◌, ◌<◌, ◌≤◌, refl, Bool, true, false, ◌&&◌, ◌||◌, List, [], ◌∷◌, ◌++◌,
  none, arith, ltb, ◌==◌, if◌then◌else◌, All, ◌⊎◌, inl, inr, Bool-cases, subst,
}
use optix.Base.Time.{Day, day_number}
use optix.Intel.Calendar.{
  nyse_calendar, holidays_2026, holidays_2027, holidays_2028, early_closes, listed, is_trading_day,
  is_weekend,
}

-- One of the `n` days from `d` is a trading day.
unfoldable pub has_trading : ℕ → Day → Bool
has_trading zero d = false
has_trading (suc n) d = is_trading_day d || has_trading n (suc d)

-- The days on and around the table, from 2025-12-30.
abbrev first_day : ℕ
first_day = 739980

-- So it is from each of the `k` days from the first.
starts_with_trading : ℕ → Bool
unfolding has_trading
starts_with_trading zero = true
starts_with_trading (suc k) = starts_with_trading k && has_trading 13 (first_day + k)

calendar_years : starts_with_trading 1110 ≡ true
unfolding starts_with_trading nyse_calendar is_trading_day
calendar_years = refl

has_trading-within :
    (k i : ℕ) → i < k → starts_with_trading k ≡ true → has_trading 13 (first_day + i) ≡ true
unfolding starts_with_trading
has_trading-within zero i below all = absurd (omega arith)
has_trading-within (suc k) i below all = elim (Bool-cases (i == k)) [
  | inl last ↦ let e : i ≡ k = ground arith in rw e (ground arith)
  | inr other ↦ has_trading-within k i (ground arith) (ground arith)
]

abbrev InTable : Day → Type 0
InTable d = (739982 ≤ d) × (d ≤ 741077)

abbrev OffTable : Day → Type 0
OffTable d = (d < 739982) ⊎ (741077 < d)

listed-OffTable : (d : Day) (xs : List Day) → All InTable xs → OffTable d → listed d xs ≡ false
unfolding listed
listed-OffTable d [] h o = refl
listed-OffTable d (x ∷ xs) h o = ground (arith, listed-OffTable d xs h.1 o)

holidays-InTable : All InTable (holidays_2026 ++ holidays_2027 ++ holidays_2028)
unfolding holidays_2026 holidays_2027 holidays_2028 day_number
holidays-InTable = omega arith

early_closes-InTable : All InTable early_closes
unfolding early_closes day_number
early_closes-InTable = omega arith

pub nyse_calendar-OffTable : (d : Day) → OffTable d → nyse_calendar d ≡ none
unfolding nyse_calendar
nyse_calendar-OffTable d o =
    rw (listed-OffTable d _ holidays-InTable o) (rw (listed-OffTable d _ early_closes-InTable o))

is_trading_day-OffTable :
    (d : Day) → OffTable d → is_trading_day d ≡ (if is_weekend d then false else true)
unfolding is_trading_day
is_trading_day-OffTable d o = rw (nyse_calendar-OffTable d o)

has_trading-weekend :
    (d : Day) → OffTable d → OffTable (suc d) → OffTable (suc (suc d)) → has_trading 13 d ≡ true
unfolding has_trading
has_trading-weekend d o p q = ground (
  arith,
  is_trading_day-OffTable d o,
  is_trading_day-OffTable (suc d) p,
  is_trading_day-OffTable (suc (suc d)) q,
)

-- Among any thirteen days in a row there is a trading day.
pub has_trading_lem : (d : Day) → has_trading 13 d ≡ true
has_trading_lem d = elim (Bool-cases (ltb d first_day)) [
  | inl before ↦
      has_trading-weekend d (inl (ground arith)) (inl (ground arith)) (inl (ground arith))
  | inr from ↦ elim (Bool-cases (ltb d (first_day + 1110))) [
    | inl within ↦
        let e : first_day + (d - first_day) ≡ d = ground arith in
        subst (λ k. has_trading 13 k ≡ true) e
          (has_trading-within 1110 (d - first_day) (ground arith) calendar_years)
    | inr after ↦
        has_trading-weekend d (inr (ground arith)) (inr (ground arith)) (inr (ground arith))
  ]
]
