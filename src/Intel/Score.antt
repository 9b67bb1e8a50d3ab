-- ===== src/Intel/Score.antt =====
-- The score of a judgment (internal/intel/scorer.go). Prices are whole numbers of a smallest unit and
-- a threshold is a whole number of millionths of a percent; the change is an exact quotient, in
-- millionths of a percent.
pub mod Directions
use optix.Base.{Bool, true, false, ◌||◌, not, if◌then◌else◌}
use optix.Base.Int.{ℤ, pos, ◌-ℤ◌, ◌*ℤ◌, ltb_ℤ, neg, abs}
use optix.Base.Text.{Text, text_eq, codes}
use optix.ScanJournal.Types.{Ratio}

pub data Outcome : Type 0 where
  hit miss push void : Outcome

abbrev pub no_change : Ratio
no_change = record { num = pos 0; den = pos 1 }

-- `(expiryPrice - registeredPrice) / registeredPrice * 100`
unfoldable pub change_pct : ℤ → ℤ → Ratio
unfolding ◌-ℤ◌ ◌*ℤ◌
change_pct registered expiry = record {
  num = (expiry -ℤ registered) *ℤ pos 100000000;
  den = registered;
}

-- `a <= r`, for a quotient whose denominator is positive
abbrev at_most_ratio : ℤ → Ratio → Bool
at_most_ratio a r = not (ltb_ℤ r.num (a *ℤ r.den))

-- `r <= a`
abbrev ratio_at_most : Ratio → ℤ → Bool
ratio_at_most r a = not (ltb_ℤ (a *ℤ r.den) r.num)

abbrev hit_if : Bool → Outcome
hit_if true = hit
hit_if false = miss

unfoldable pub score : Text → ℤ → ℤ → ℤ → Outcome × Ratio
unfolding change_pct ◌*ℤ◌ abs
score direction threshold registered expiry =
    let delta = change_pct registered expiry in
    if not (ltb_ℤ (pos 0) registered) || not (ltb_ℤ (pos 0) expiry)
    then (void, no_change)
    else if text_eq direction (codes "up")
    then (hit_if (at_most_ratio threshold delta), delta)
    else if text_eq direction (codes "down")
    then (hit_if (ratio_at_most delta (neg threshold)), delta)
    else if text_eq direction (codes "flat")
    then (hit_if (ratio_at_most (record delta { num = abs delta.num }) threshold), delta)
    else (void, delta)
