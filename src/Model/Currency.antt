-- ===== src/Model/Currency.antt =====
-- `NormalizeCurrency` (pkg/model/currency.go).
use optix.Base.{◌≡◌, refl, ◌≢◌, false, [], ◌∷◌, arith, ap}
use optix.Base.Text.{
  Text, codes, is_space, trim_left, trim_right, trim_space, to_upper, upper_idem, is_space-upper,
}

abbrev or_usd : Text → Text
or_usd [] = codes "USD"
or_usd (c ∷ s) = c ∷ s

unfoldable pub normalize_currency : Text → Text
unfolding to_upper trim_space
normalize_currency currency = or_usd (to_upper (trim_space currency))

-- A text that does not begin with white space.
abbrev StartsTight : Text → Type 0
StartsTight [] = Unit
StartsTight (c ∷ s) = is_space c ≡ false

trim_left-StartsTight : (s : Text) → StartsTight (trim_left s)
unfolding trim_left
trim_left-StartsTight [] = tt
trim_left-StartsTight (c ∷ s) = ground (arith, trim_left-StartsTight s)

trim_right-StartsTight : (s : Text) → StartsTight s → StartsTight (trim_right s)
unfolding trim_right
trim_right-StartsTight [] h = tt
trim_right-StartsTight (c ∷ s) h = ground arith

trim_left-of_StartsTight : (s : Text) → StartsTight s → trim_left s ≡ s
unfolding trim_left
trim_left-of_StartsTight [] h = refl
trim_left-of_StartsTight (c ∷ s) h = ground arith

to_upper-StartsTight : (s : Text) → StartsTight s → StartsTight (to_upper s)
unfolding to_upper
to_upper-StartsTight [] h = tt
to_upper-StartsTight (c ∷ s) h = ground (arith, is_space-upper c)

trim_right_idem : (s : Text) → trim_right (trim_right s) ≡ trim_right s
unfolding trim_right
trim_right_idem [] = refl
trim_right_idem (c ∷ s) = ground (arith, trim_right_idem s)

trim_right-to_upper : (s : Text) → trim_right (to_upper s) ≡ to_upper (trim_right s)
unfolding trim_right to_upper
trim_right-to_upper [] = refl
trim_right-to_upper (c ∷ s) = ground (arith, trim_right-to_upper s, is_space-upper c)

to_upper_idem : (s : Text) → to_upper (to_upper s) ≡ to_upper s
unfolding to_upper
to_upper_idem [] = refl
to_upper_idem (c ∷ s) = cc (upper_idem c, to_upper_idem s)

trim_space-capitals : (s : Text) → trim_space (to_upper (trim_space s)) ≡ to_upper (trim_space s)
unfolding trim_space
trim_space-capitals s =
    let t = trim_right-StartsTight (trim_left s) (trim_left-StartsTight s) in
    rw (
      trim_left-of_StartsTight (to_upper (trim_right (trim_left s))) (to_upper-StartsTight _ t),
      trim_right-to_upper (trim_right (trim_left s)),
      trim_right_idem (trim_left s),
    )

or_usd-settled :
    (t : Text)
    → to_upper (trim_space t) ≡ t
    → (or_usd (to_upper (trim_space (or_usd t))) ≡ or_usd t) × (or_usd t ≢ [])
unfolding to_upper trim_space
or_usd-settled [] h = (refl, λ e. cc)
or_usd-settled (c ∷ s) h = (ap or_usd h, λ e. cc)

-- Normalising a currency code twice is normalising it once, and the result is never empty: two
-- spellings of a code that normalise alike give one instrument key, and stay so.
pub normalize_currency_idem :
    (c : Text)
    → (normalize_currency (normalize_currency c) ≡ normalize_currency c)
      × (normalize_currency c ≢ [])
unfolding normalize_currency
normalize_currency_idem c =
    or_usd-settled (to_upper (trim_space c)) (rw trim_space-capitals (to_upper_idem (trim_space c)))
