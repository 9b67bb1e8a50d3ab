-- ===== src/Portfolio/Rollup/Total.antt =====
-- What the groups sum to, and that their tickers differ.
use optix.Base.{ℕ, suc, ◌+◌, ◌≡◌, refl, List, [], ◌∷◌, arith, total, Bool-cases, inl, inr}
use optix.Base.Text.{Text, to_upper}
use optix.Base.Keyed.{IsDistinct, change-IsDistinct, total-change}
use optix.Portfolio.Types.{Position, UnderlyingGroup}
use optix.Portfolio.Rollup.{
  is_residual, is_non_usd, fallback_nlv, value_of, is_missing_mark, count_leg, add_value, add_leg,
  change_group, count_missing, set_mismatch, Rollup, add_position, add_positions, roll_up,
  empty_group, abs_of, ticker_of, name_of,
}

add_leg-abs :
    (p : Position) (g : UnderlyingGroup) → abs_of (add_leg p g) ≡ abs_of g + value_of p.market_value
unfolding add_leg is_missing_mark count_leg add_value
add_leg-abs p g = ground arith

add_leg-ticker : (p : Position) (g : UnderlyingGroup) → ticker_of (add_leg p g) ≡ ticker_of g
unfolding add_leg count_leg add_value
add_leg-ticker p g = ground arith

add_position-abs :
    (p : Position) (r : Rollup)
    → total abs_of (add_position p r).by_ticker ≡ total abs_of r.by_ticker + fallback_nlv (p ∷ [])
unfolding add_position fallback_nlv change_group
add_position-abs p r =
    let t = to_upper p.symbol in
    ground (
      arith,
      total-change ticker_of (empty_group t) (add_leg p) t (add_leg-ticker p) refl abs_of
          (value_of p.market_value) refl (add_leg-abs p) r.by_ticker,
    )

fallback_nlv-cons :
    (p : Position) (ps : List Position)
    → fallback_nlv (p ∷ ps) ≡ fallback_nlv (p ∷ []) + fallback_nlv ps
unfolding fallback_nlv
fallback_nlv-cons p ps = ground arith

add_positions-abs :
    (ps : List Position) (r : Rollup)
    → total abs_of (add_positions ps r).by_ticker ≡ total abs_of r.by_ticker + fallback_nlv ps
unfolding add_positions
add_positions-abs [] r = unfold fallback_nlv in omega arith
add_positions-abs (p ∷ ps) r =
    omega
      (arith, add_positions-abs ps (add_position p r), add_position-abs p r, fallback_nlv-cons p ps)

pub roll_up-abs : (ps : List Position) → total abs_of (roll_up ps).by_ticker ≡ fallback_nlv ps
unfolding roll_up
roll_up-abs ps = omega (arith, add_positions-abs ps _)

-- The keys of the three maps differ.
pub record IsKeyed (r : Rollup) : Type 0 where
  pub groups : IsDistinct ticker_of r.by_ticker
  pub missing : IsDistinct name_of r.missing_legs
  pub mismatches : IsDistinct name_of r.mismatch

add_position-IsKeyed : (p : Position) (r : Rollup) → IsKeyed r → IsKeyed (add_position p r)
unfolding add_position change_group count_missing set_mismatch
add_position-IsKeyed p r h =
    let t = to_upper p.symbol in
    let groups =
      change-IsDistinct ticker_of (empty_group t) (add_leg p) t (add_leg-ticker p) refl r.by_ticker
        h.groups in
    let mismatches =
      change-IsDistinct name_of (t, []) (λ (e : Text × Text). (e.0, to_upper p.currency)) t
        (λ e. refl) refl r.mismatch h.mismatches in
    let missing =
      change-IsDistinct name_of (t, 0) (λ (e : Text × ℕ). (e.0, suc e.1)) t (λ e. refl) refl
        r.missing_legs h.missing in
    elim (Bool-cases (is_residual p)) [
      | inl e ↦ rw e h
      | inr e ↦ elim (Bool-cases (is_non_usd p)) [
        | inl k ↦
            rw e (rw k (record { groups = h.groups; missing = h.missing; mismatches = mismatches }))
        | inr k ↦ elim (Bool-cases (is_missing_mark p)) [
          | inl m ↦
              rw e (
                rw k
                  (record { groups = groups; missing = rw m missing; mismatches = h.mismatches }))
          | inr m ↦ rw e (
              rw k
                (record { groups = groups; missing = rw m h.missing; mismatches = h.mismatches }))
        ]
      ]
    ]

add_positions-IsKeyed : (ps : List Position) (r : Rollup) → IsKeyed r → IsKeyed (add_positions ps r)
unfolding add_positions
add_positions-IsKeyed [] r h = h
add_positions-IsKeyed (p ∷ ps) r h =
    add_positions-IsKeyed ps (add_position p r) (add_position-IsKeyed p r h)

pub roll_up-IsKeyed : (ps : List Position) → IsKeyed (roll_up ps)
unfolding roll_up
roll_up-IsKeyed ps =
    add_positions-IsKeyed ps (record { by_ticker = []; missing_legs = []; mismatch = [] })
      (record {
        groups = λ t. omega arith;
        missing = λ t. omega arith;
        mismatches = λ t. omega arith;
      })
