-- ===== src/Portfolio/Report/Order.antt =====
-- The report does not depend on the orders of the maps.
use mathlib.Core.List.{Perm}
use mathlib.Core.List.Perm
use native.Mathlib.Nat.{ℕ_set}
use optix.Base.{ℕ, ◌+◌, ◌≡◌, refl, sym, ◌∙◌, ap, true, false, List, [], ◌∷◌, Option, map, arith}
use optix.Base.Sort.{stable_sort}
use optix.Base.Keyed.{count, IsDistinct, change-IsDistinct, stable_sort_unique}
use optix.Base.Int.{ℤ, pos_part}
use optix.Base.Text.{Text, text_lt, text_lt_asym, text_le_trans, text_lt_total}
use optix.Portfolio.Types.{Position, Config, SectorMap, UnderlyingGroup, SectorGroup}
use optix.Portfolio.Rollup.{Rollup, roll_up, abs_of, ticker_of, name_of}
use optix.Portfolio.Rollup.Total.{IsKeyed, roll_up-IsKeyed}
use optix.Portfolio.Config.{sector_of, apply_config_defaults}
use optix.Portfolio.Report.{
  weighed, weigh, heavier_by, heavier, heavier_sector, sector_abs_of, sector_id_of, new_sector,
  add_to_sector, by_sector, finish_sector, Walks, IsWalk, underlyings_of, sectors_of, compute,
  report_of, sorted_names,
}

module _ {A : Type 0} (value : A → ℕ) (name : A → Text) where
  heavier_by_asym : (a b : A) → heavier_by value name a b ≡ true → heavier_by value name b a ≡ false
  unfolding heavier_by
  heavier_by_asym a b h = ground (arith, text_lt_asym (name a) (name b))

  heavier_by_trans :
      (a b c : A)
      → heavier_by value name b a ≡ false
      → heavier_by value name c b ≡ false
      → heavier_by value name c a ≡ false
  unfolding heavier_by
  heavier_by_trans a b c h k = ground (arith, text_le_trans (name a) (name b) (name c))

  heavier_by_total :
      (a b : A)
      → heavier_by value name a b ≡ false
      → heavier_by value name b a ≡ false
      → name a ≡ name b
  unfolding heavier_by
  heavier_by_total a b h k = ground (arith, text_lt_total (name a) (name b))

  -- One order of such a sort.
  pub heavier_by_unique :
      (set : IsSet A) {xs ys : List A}
      → Perm xs ys
      → IsDistinct name xs
      → stable_sort (heavier_by value name) xs ≡ stable_sort (heavier_by value name) ys
  heavier_by_unique set p h =
      stable_sort_unique name (heavier_by value name) heavier_by_asym heavier_by_trans
        heavier_by_total set p h

Text_set : IsSet Text
Text_set = hlevel ℕ_set

pub UnderlyingGroup_set : IsSet UnderlyingGroup
UnderlyingGroup_set = hlevel ℕ_set

SectorGroup_set : IsSet SectorGroup
SectorGroup_set = hlevel ℕ_set

-- A map that keeps the keys.
map-count :
    {A B : Type 0} (key : A → Text) (key' : B → Text) (f : A → B)
    → ((a : A) → key' (f a) ≡ key a)
    → (t : Text) (xs : List A) → count key' t (map f xs) ≡ count key t xs
map-count key key' f h t [] = refl
map-count key key' f h t (x ∷ xs) = rw (h x) (ap (◌+◌ _) (map-count key key' f h t xs))

pub map-IsDistinct :
    {A B : Type 0} (key : A → Text) (key' : B → Text) (f : A → B)
    → ((a : A) → key' (f a) ≡ key a)
    → (xs : List A) → IsDistinct key xs
    → IsDistinct key' (map f xs)
map-IsDistinct key key' f h xs distinct t = omega (arith, map-count key key' f h t xs, distinct t)

by_sector-IsDistinct :
    (sm : Option SectorMap) (us : List UnderlyingGroup) (ss : List SectorGroup)
    → IsDistinct sector_id_of ss
    → IsDistinct sector_id_of (by_sector sm us ss)
unfolding by_sector
by_sector-IsDistinct sm [] ss h = h
by_sector-IsDistinct sm (u ∷ us) ss h =
    let s = sector_of sm u.ticker in
    by_sector-IsDistinct sm us _
      (change-IsDistinct sector_id_of (new_sector sm s) (add_to_sector u) s (λ x. refl) refl ss h)

module _ (w : Walks) (walks : IsWalk w) where
  underlyings_of-sorted :
      (n : ℕ) (r : Rollup)
      → IsKeyed r
      → stable_sort heavier (weigh n r.by_ticker) ≡ underlyings_of w n r
  unfolding underlyings_of weigh heavier
  underlyings_of-sorted n r keyed =
      heavier_by_unique abs_of ticker_of UnderlyingGroup_set (Perm.symm (walks.groups _))
        (map-IsDistinct ticker_of ticker_of (weighed n) (λ g. refl) r.by_ticker keyed.groups)

  sectors_of-sorted :
      (n : ℕ) (sm : Option SectorMap) (us : List UnderlyingGroup)
      → stable_sort heavier_sector (map (finish_sector n) (by_sector sm us []))
        ≡ sectors_of w n sm us
  unfolding sectors_of heavier_sector finish_sector
  sectors_of-sorted n sm us =
      let ss = by_sector sm us [] in
      heavier_by_unique sector_abs_of sector_id_of SectorGroup_set
        (Perm.map (finish_sector n) (Perm.symm (walks.sectors ss)))
        (map-IsDistinct sector_id_of sector_id_of (finish_sector n) (λ s. refl) ss
          (by_sector-IsDistinct sm us [] (λ t. omega arith)))

  sorted_names_walk :
      {A : Type 0} (walk : List (Text × A) → List (Text × A)) (m : List (Text × A))
      → Perm (walk m) m
      → IsDistinct name_of m
      → sorted_names m ≡ sorted_names (walk m)
  unfolding sorted_names
  sorted_names_walk walk m p h =
      stable_sort_unique (λ t. t) text_lt text_lt_asym text_le_trans text_lt_total Text_set
        (Perm.map name_of (Perm.symm p)) (map-IsDistinct name_of (λ t. t) name_of (λ e. refl) m h)

  -- The report of sorted lists that take every map as it stands.
  compute-sorted :
      (ps : List Position) (net_liq : ℤ) (cfg : Config) (sm : Option SectorMap)
      → let n = pos_part net_liq in
        let r = roll_up ps in
        let us = stable_sort heavier (weigh n r.by_ticker) in
        report_of net_liq
          (apply_config_defaults cfg)
          r
          us
          (stable_sort heavier_sector (map (finish_sector n) (by_sector sm us [])))
          (sorted_names r.missing_legs)
          (sorted_names r.mismatch)
        ≡ compute w ps net_liq cfg sm
  compute-sorted ps net_liq cfg sm =
      let n = pos_part net_liq in
      let r = roll_up ps in
      let cfg' = apply_config_defaults cfg in
      let keyed = roll_up-IsKeyed ps in
      let us = underlyings_of w n r in
      let whole : report_of net_liq cfg' r us (sectors_of w n sm us)
            (sorted_names (w.missing r.missing_legs)) (sorted_names (w.mismatches r.mismatch))
          ≡ compute w ps net_liq cfg sm =
        unfold compute in refl in
      rw (underlyings_of-sorted n r keyed) (
        rw (sectors_of-sorted n sm us) (
          rw (sorted_names_walk w.missing r.missing_legs (walks.missing _) keyed.missing) (
            rw (sorted_names_walk w.mismatches r.mismatch (walks.mismatches _) keyed.mismatches)
              whole)))

-- The report is the same whatever the orders in which the maps of tickers, sectors, missing marks and
-- foreign currencies are walked.
pub compute_walks :
    (w w' : Walks)
    → IsWalk w
    → IsWalk w'
    → (ps : List Position) (net_liq : ℤ) (cfg : Config) (sm : Option SectorMap)
    → compute w ps net_liq cfg sm ≡ compute w' ps net_liq cfg sm
compute_walks w w' walks walks' ps net_liq cfg sm =
    sym (compute-sorted w walks ps net_liq cfg sm) ∙ compute-sorted w' walks' ps net_liq cfg sm
