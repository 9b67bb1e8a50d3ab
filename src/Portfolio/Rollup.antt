-- ===== src/Portfolio/Rollup.antt =====
-- The first loop of `Compute`, and `FallbackNLV` (internal/portfolio/concentration.go). A map is the
-- list of its entries.
pub mod Total
use optix.Base.{
  ℕ, suc, ◌+◌, Bool, true, false, ◌&&◌, not, List, [], ◌∷◌, ◌==◌, ltb, if◌then◌else◌, map,
}
use optix.Base.Keyed.{change}
use optix.Base.Int.{ℤ, pos, pos_part, neg_part, ◌+ℤ◌, eqb_ℤ}
use optix.Base.Text.{Text, text_eq, to_upper, codes}
use optix.Portfolio.Types.{Mark, finite, not_finite, Position, UnderlyingGroup}

abbrev pub is_option : Position → Bool
is_option p = text_eq p.sec_type (codes "OPT")

abbrev pub magnitude : ℤ → ℕ
magnitude z = pos_part z + neg_part z

-- Less than one unit of 1e-9.
unfoldable pub is_residual : Position → Bool
is_residual p = ltb (magnitude p.quantity) 1

abbrev is_blank : Text → Bool
is_blank [] = true
is_blank (c ∷ s) = false

-- `strings.EqualFold` on ASCII letters.
unfoldable pub is_non_usd : Position → Bool
unfolding text_eq to_upper
is_non_usd p = not (is_blank p.currency) && not (text_eq (to_upper p.currency) (codes "USD"))

abbrev pub value_of : Mark → ℕ
value_of (finite v) = magnitude v
value_of not_finite = 0

unfoldable pub fallback_nlv : List Position → ℕ
unfolding is_residual is_non_usd
fallback_nlv [] = 0
fallback_nlv (p ∷ ps) =
    let rest = fallback_nlv ps in
    if is_residual p then rest else if is_non_usd p then rest else value_of p.market_value + rest

-- An option leg that has a value of zero.
abbrev pub is_zero : Mark → Bool
is_zero (finite v) = eqb_ℤ v (pos 0)
is_zero not_finite = false

unfoldable pub is_missing_mark : Position → Bool
unfolding text_eq
is_missing_mark p = is_option p && is_zero p.market_value && not (eqb_ℤ p.quantity (pos 0))

abbrev pub empty_group : Text → UnderlyingGroup
empty_group t = record {
  ticker = t;
  abs_market_value = 0;
  net_market_value = pos 0;
  weight_pct = 0;
  stock_leg_count = 0;
  option_leg_count = 0;
  has_missing_mark = false;
}

unfoldable pub count_leg : Position → UnderlyingGroup → UnderlyingGroup
unfolding text_eq
count_leg p g =
    if is_option p
    then record g { option_leg_count = suc g.option_leg_count }
    else record g { stock_leg_count = suc g.stock_leg_count }

unfoldable pub add_value : Mark → UnderlyingGroup → UnderlyingGroup
unfolding ◌+ℤ◌
add_value not_finite g = record g { has_missing_mark = true }
add_value (finite v) g = record g {
  abs_market_value = g.abs_market_value + magnitude v;
  net_market_value = g.net_market_value +ℤ v;
}

unfoldable pub add_leg : Position → UnderlyingGroup → UnderlyingGroup
unfolding is_missing_mark count_leg add_value
add_leg p g =
    let counted = count_leg p g in
    if is_missing_mark p
    then record counted { has_missing_mark = true }
    else add_value p.market_value counted

abbrev pub abs_of : UnderlyingGroup → ℕ
abs_of g = g.abs_market_value

abbrev pub ticker_of : UnderlyingGroup → Text
ticker_of g = g.ticker

-- `byTicker[t]`
unfoldable pub change_group :
    Text → (UnderlyingGroup → UnderlyingGroup) → List UnderlyingGroup → List UnderlyingGroup
unfolding change
change_group t f gs = change ticker_of (empty_group t) f t gs

abbrev pub name_of {ℓ} : {A : Type ℓ} → Text × A → Text
name_of (t, a) = t

-- `missingLegsByTicker[t]++`
unfoldable pub count_missing : Text → List (Text × ℕ) → List (Text × ℕ)
unfolding change
count_missing t m = change name_of (t, 0) (λ (e : Text × ℕ). (e.0, suc e.1)) t m

-- `mismatchByTicker[t] = currency`
unfoldable pub set_mismatch : Text → Text → List (Text × Text) → List (Text × Text)
unfolding change
set_mismatch t currency m = change name_of (t, []) (λ (e : Text × Text). (e.0, currency)) t m

pub record Rollup : Type 0 where
  pub by_ticker : List UnderlyingGroup
  pub missing_legs : List (Text × ℕ)
  pub mismatch : List (Text × Text)

unfoldable pub add_position : Position → Rollup → Rollup
unfolding is_residual is_non_usd set_mismatch change_group add_leg is_missing_mark count_missing
    to_upper
add_position p r =
    let t = to_upper p.symbol in
    if is_residual p
    then r
    else if is_non_usd p
    then record r { mismatch = set_mismatch t (to_upper p.currency) r.mismatch }
    else record r {
      by_ticker = change_group t (add_leg p) r.by_ticker;
      missing_legs = if is_missing_mark p then count_missing t r.missing_legs else r.missing_legs;
    }

unfoldable pub add_positions : List Position → Rollup → Rollup
unfolding add_position
add_positions [] r = r
add_positions (p ∷ ps) r = add_positions ps (add_position p r)

unfoldable pub roll_up : List Position → Rollup
unfolding add_positions
roll_up ps = add_positions ps (record { by_ticker = []; missing_legs = []; mismatch = [] })
