-- ===== src/Portfolio/Report/Top.antt =====
-- The largest shares of the report.
use mathlib.Core.List.{Perm}
use mathlib.Core.List.Perm
use optix.Base.{
  ℕ, zero, suc, ◌+◌, ◌≡◌, ◌≤◌, refl, sym, ◌∙◌, subst, Bool, true, false, not, List, [], ◌∷◌, Option,
  ◌==◌, total, take, arith, All, All-Perm,
}
use optix.Base.Sort.{insert, stable_sort}
use optix.Base.Int.{ℤ, pos_part}
use optix.Portfolio.Types.{Position, Config, SectorMap, UnderlyingGroup}
use optix.Portfolio.Rollup.{Rollup, roll_up, abs_of, ticker_of}
use optix.Portfolio.Rollup.Total.{IsKeyed, roll_up-IsKeyed}
use optix.Portfolio.Config.{apply_config_defaults}
use optix.Portfolio.Report.{
  weight, weighed, weigh, weight_of, heavier_by, heavier, sum_top_k, Walks, IsWalk, underlyings_of,
  compute, report_of,
}
use optix.Portfolio.Report.Order.{heavier_by_unique, map-IsDistinct, UnderlyingGroup_set}
use optix.Portfolio.Report.Sums.{underlyings_of-perm}

-- The first items of a list measure no more than those of its descending order.
module _ {A : Type 0} (less : A → A → Bool) (m : A → ℕ)
    (largest : (a b : A) → less b a ≡ true → m a ≤ m b) where
  insert-take :
      (x : A) (k : ℕ) (ys : List A)
      → m x + total m (take k ys) ≤ total m (take (suc k) (insert less x ys))
  unfolding insert
  insert-take x k [] = omega arith
  insert-take x zero (y ∷ ys) = ground (arith, largest x y)
  insert-take x (suc k) (y ∷ ys) = ground (arith, largest x y, insert-take x k ys)

  sort-take : (k : ℕ) (xs : List A) → total m (take k xs) ≤ total m (take k (stable_sort less xs))
  unfolding stable_sort
  sort-take zero xs = omega arith
  sort-take (suc k) [] = omega arith
  sort-take (suc k) (x ∷ xs) = omega (arith, sort-take k xs, insert-take x k (stable_sort less xs))

heavier-abs : (u v : UnderlyingGroup) → heavier v u ≡ true → abs_of u ≤ abs_of v
unfolding heavier heavier_by
heavier-abs u v h = ground arith

abbrev is_weighed : ℕ → UnderlyingGroup → Bool
is_weighed n u = weight_of u == weight n (abs_of u)

weigh-All :
    (n : ℕ) (gs : List UnderlyingGroup) → All (λ u. not (is_weighed n u) ≡ false) (weigh n gs)
unfolding weigh
weigh-All n [] = tt
weigh-All n (g ∷ gs) = (ground arith, weigh-All n gs)

sum_top_k-weight :
    (n k : ℕ) (us : List UnderlyingGroup)
    → All (λ u. not (is_weighed n u) ≡ false) us
    → sum_top_k us k ≡ weight n (total abs_of (take k us))
unfolding sum_top_k
sum_top_k-weight n zero us h = ground arith
sum_top_k-weight n (suc k) [] h = ground arith
sum_top_k-weight n (suc k) (u ∷ us) h = ground (arith, h.0, sum_top_k-weight n k us h.1)

module _ (w : Walks) (walks : IsWalk w) where
  underlyings_of-All :
      (n : ℕ) (r : Rollup) → All (λ u. not (is_weighed n u) ≡ false) (underlyings_of w n r)
  underlyings_of-All n r =
      All-Perm (λ u. not (is_weighed n u)) (Perm.symm (underlyings_of-perm w walks n r))
        (weigh-All n r.by_ticker)

  -- Any order of the underlyings, sorted, is the report's.
  sort-underlyings_of :
      (n : ℕ) (r : Rollup) (xs : List UnderlyingGroup)
      → IsKeyed r
      → Perm xs (underlyings_of w n r)
      → stable_sort heavier xs ≡ underlyings_of w n r
  unfolding heavier underlyings_of weigh
  sort-underlyings_of n r xs keyed p =
      let back = Perm.symm (Perm.trans p (underlyings_of-perm w walks n r)) in
      let distinct =
        map-IsDistinct ticker_of ticker_of (weighed n) (λ g. refl) r.by_ticker keyed.groups in
      sym (heavier_by_unique abs_of ticker_of UnderlyingGroup_set back distinct)
      ∙ heavier_by_unique abs_of ticker_of UnderlyingGroup_set (Perm.symm (walks.groups _)) distinct

  sum_top_k-largest :
      (n : ℕ) (r : Rollup) (xs : List UnderlyingGroup)
      → IsKeyed r
      → Perm xs (underlyings_of w n r)
      → (k : ℕ) → weight n (total abs_of (take k xs)) ≤ sum_top_k (underlyings_of w n r) k
  sum_top_k-largest n r xs keyed p k =
      let us = underlyings_of w n r in
      let most : total abs_of (take k xs) ≤ total abs_of (take k us) =
        subst (λ ys. total abs_of (take k xs) ≤ total abs_of (take k ys))
          (sort-underlyings_of n r xs keyed p) (sort-take heavier abs_of heavier-abs k xs) in
      rw (sum_top_k-weight n k us (underlyings_of-All n r)) (ground (arith, most))

  -- The top percentages are the largest: no two underlyings, in whichever order they are listed, weigh
  -- more than the report's top 2, no five more than its top 5, and no top N more than its top N.
  pub compute_top :
      (ps : List Position) (net_liq : ℤ) (cfg : Config) (sm : Option SectorMap)
      → (xs : List UnderlyingGroup) → Perm xs (compute w ps net_liq cfg sm).underlyings
      → let r = compute w ps net_liq cfg sm in
        let weight_in = λ (k : ℕ). weight (pos_part net_liq) (total abs_of (take k xs)) in
        (weight_in 2 ≤ r.top2_pct) × (weight_in 5 ≤ r.top5_pct) × (weight_in r.top_n ≤ r.top_n_pct)
  unfolding compute report_of
  compute_top ps net_liq cfg sm xs p =
      let most = sum_top_k-largest (pos_part net_liq) (roll_up ps) xs (roll_up-IsKeyed ps) p in
      (most 2, most 5, most (apply_config_defaults cfg).top_n)
