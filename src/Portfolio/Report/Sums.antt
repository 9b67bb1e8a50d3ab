-- ===== src/Portfolio/Report/Sums.antt =====
-- What the report sums: the value deployed, and the shares of the sectors.
use mathlib.Core.List.{Perm}
use mathlib.Core.List.Perm
use native.Mathlib.Nat.{zero-add}
use optix.Base.{
  ℕ, ◌+◌, ◌*◌, ◌≡◌, refl, ◌∙◌, List, [], ◌∷◌, Option, if◌then◌else◌, map, total, total-append,
  total-Perm, arith,
}
use optix.Base.Sort.{stable_sort-perm}
use optix.Base.Keyed.{change, count, total-change}
use optix.Base.Int.{ℤ, pos, pos_part}
use optix.Base.Text.{Text, text_eq, text_lt}
use optix.Portfolio.Types.{Position, Config, SectorMap, UnderlyingGroup, SectorGroup}
use optix.Portfolio.Rollup.{Rollup, roll_up, abs_of, ticker_of, fallback_nlv}
use optix.Portfolio.Rollup.Total.{roll_up-abs}
use optix.Portfolio.Config.{sector_of}
use optix.Portfolio.Report.{
  weighed, weigh, heavier, heavier_sector, sector_abs_of, sector_id_of, new_sector, add_to_sector,
  by_sector, finish_sector, Walks, IsWalk, underlyings_of, sectors_of, compute, report_of,
}

total-map :
    {A B : Type 0} (m : B → ℕ) (m' : A → ℕ) (f : A → B)
    → ((a : A) → m (f a) ≡ m' a)
    → (xs : List A) → total m (map f xs) ≡ total m' xs
total-map m m' f h [] = refl
total-map m m' f h (x ∷ xs) = omega (arith, h x, total-map m m' f h xs)

module _ (w : Walks) (walks : IsWalk w) where
  pub underlyings_of-perm : (n : ℕ) (r : Rollup) → Perm (underlyings_of w n r) (weigh n r.by_ticker)
  unfolding underlyings_of
  underlyings_of-perm n r = Perm.trans (stable_sort-perm heavier _) (walks.groups _)

  underlyings_of-abs :
      (n : ℕ) (ps : List Position)
      → total abs_of (underlyings_of w n (roll_up ps)) ≡ fallback_nlv ps
  underlyings_of-abs n ps =
      total-Perm abs_of (underlyings_of-perm n (roll_up ps))
      ∙ unfold weigh in
        total-map abs_of abs_of (weighed n) (λ g. refl) (roll_up ps).by_ticker ∙ roll_up-abs ps

  compute-deployed :
      (ps : List Position) (net_liq : ℤ) (cfg : Config) (sm : Option SectorMap)
      → (compute w ps net_liq cfg sm).deployed ≡ fallback_nlv ps
  unfolding compute report_of
  compute-deployed ps net_liq cfg sm = underlyings_of-abs (pos_part net_liq) ps

  -- What is deployed is the sum of `FallbackNLV` over the same positions, for any net liquidation
  -- value. With that sum as the net liquidation value, all of it is deployed and no cash is left.
  pub compute_fallback :
      (ps : List Position) (net_liq : ℤ) (cfg : Config) (sm : Option SectorMap)
      → ((compute w ps net_liq cfg sm).deployed ≡ fallback_nlv ps)
        × ((compute w ps (pos (fallback_nlv ps)) cfg sm).deployed_pct ≡ 10000 * fallback_nlv ps)
        × ((compute w ps (pos (fallback_nlv ps)) cfg sm).cash ≡ 0)
  compute_fallback ps net_liq cfg sm =
      let same = compute-deployed ps (pos (fallback_nlv ps)) cfg sm in
      (
        compute-deployed ps net_liq cfg sm,
        unfold compute report_of in ground (arith, same),
        unfold compute report_of in ground (arith, same),
      )

  -- A measure that a sector sums over its underlyings.
  module _ (m : SectorGroup → ℕ) (v : UnderlyingGroup → ℕ)
      (fresh : (sm : Option SectorMap) (t : Text) → m (new_sector sm t) ≡ 0)
      (adds : (u : UnderlyingGroup) (s : SectorGroup) → m (add_to_sector u s) ≡ m s + v u)
      (ends : (n : ℕ) (s : SectorGroup) → m (finish_sector n s) ≡ m s) where
    by_sector-total :
        (sm : Option SectorMap) (us : List UnderlyingGroup) (ss : List SectorGroup)
        → total m (by_sector sm us ss) ≡ total m ss + total v us
    unfolding by_sector
    by_sector-total sm [] ss = omega arith
    by_sector-total sm (u ∷ us) ss =
        let t = sector_of sm u.ticker in
        omega (
          arith,
          by_sector-total sm us (change sector_id_of (new_sector sm t) (add_to_sector u) t ss),
          total-change sector_id_of (new_sector sm t) (add_to_sector u) t (λ s. refl) refl m (v u)
              (fresh sm t) (adds u) ss,
        )

    sectors_of-total :
        (n : ℕ) (sm : Option SectorMap) (us : List UnderlyingGroup)
        → total m (sectors_of w n sm us) ≡ total v us
    unfolding sectors_of
    sectors_of-total n sm us =
        total-Perm m (stable_sort-perm heavier_sector _)
        ∙ total-map m m (finish_sector n) (ends n) _
        ∙ total-Perm m (walks.sectors _)
        ∙ by_sector-total sm us []
        ∙ zero-add _

  finish_sector-count :
      (t : Text) (n : ℕ) (s : SectorGroup)
      → count (λ u. u) t (finish_sector n s).tickers ≡ count (λ u. u) t s.tickers
  unfolding finish_sector
  finish_sector-count t n s = total-Perm _ (stable_sort-perm text_lt s.tickers)

  add_to_sector-count :
      (t : Text) (u : UnderlyingGroup) (s : SectorGroup)
      → count (λ u. u) t (add_to_sector u s).tickers
        ≡ count (λ u. u) t s.tickers + (if text_eq t u.ticker then 1 else 0)
  add_to_sector-count t u s =
      omega (arith, total-append (λ u. if text_eq t u then 1 else 0) s.tickers (u.ticker ∷ []))

  -- The sectors share out the underlyings: their values sum to what is deployed, and a ticker is
  -- listed as often among all the sectors as it is among the underlyings.
  pub compute_sectors :
      (ps : List Position) (net_liq : ℤ) (cfg : Config) (sm : Option SectorMap) (t : Text)
      → let r = compute w ps net_liq cfg sm in
        (total sector_abs_of r.sectors ≡ r.deployed)
        × (total (λ (s : SectorGroup). count (λ u. u) t s.tickers) r.sectors
            ≡ count ticker_of t r.underlyings)
  unfolding compute report_of
  compute_sectors ps net_liq cfg sm t =
      let n = pos_part net_liq in
      let us = underlyings_of w n (roll_up ps) in
      (
        sectors_of-total sector_abs_of abs_of (λ sm t. refl) (λ u s. refl)
            (λ n s. unfold finish_sector in refl) n sm us,
        sectors_of-total (λ (s : SectorGroup). count (λ u. u) t s.tickers)
            (λ (u : UnderlyingGroup). if text_eq t u.ticker then 1 else 0) (λ sm t. refl)
            (add_to_sector-count t) (finish_sector-count t) n sm us,
      )
