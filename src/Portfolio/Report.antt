-- ===== src/Portfolio/Report.antt =====
-- `Compute` after its first loop
-- (internal/portfolio/concentration.go). The orders in which Go walks the maps are parameters; the
-- time of the snapshot and the text of the messages are left out.
pub mod Order
pub mod Sums
pub mod Top
use mathlib.Core.List.{Perm}
use optix.Base.{
  ℕ, zero, suc, ◌+◌, ◌-◌, ◌*◌, Bool, true, false, ◌&&◌, not, List, [], ◌∷◌, ◌++◌, Option, none,
  some, ◌==◌, ltb, leb, if◌then◌else◌, map, total, take,
}
use optix.Base.Sort.{stable_sort}
use optix.Base.Keyed.{change}
use optix.Base.Int.{ℤ, pos_part}
use optix.Base.Text.{Text, text_eq, text_lt, to_upper, codes}
use optix.Portfolio.Types.{
  Position, Config, SectorMap, UnderlyingGroup, SectorGroup, Level, warn, red, Breach, single, top2,
  top5, Flag, HhiBucket, diversified, moderate, concentrated, Report,
}
use optix.Portfolio.Config.{
  default_config, or_default, apply_config_defaults, entry_of, sector_of, label_of,
}
use optix.Portfolio.Rollup.{Rollup, roll_up, abs_of, ticker_of, name_of}

-- The weight of a value where the net liquidation value is `n`: none where that is not positive.
abbrev pub weight : ℕ → ℕ → ℕ
weight n value = if ltb 0 n then 10000 * value else 0

abbrev pub weighed : ℕ → UnderlyingGroup → UnderlyingGroup
weighed n g = record g { weight_pct = weight n g.abs_market_value }

unfoldable pub weigh : ℕ → List UnderlyingGroup → List UnderlyingGroup
weigh n gs = map (weighed n) gs

-- The larger value first, then by the name.
unfoldable pub heavier_by : {A : Type 0} → (A → ℕ) → (A → Text) → A → A → Bool
unfolding text_lt
heavier_by value name a b =
    if value a == value b then text_lt (name a) (name b) else ltb (value b) (value a)

abbrev pub sector_abs_of : SectorGroup → ℕ
sector_abs_of s = s.abs_market_value

abbrev pub sector_id_of : SectorGroup → Text
sector_id_of s = s.sector_id

unfoldable pub heavier : UnderlyingGroup → UnderlyingGroup → Bool
unfolding heavier_by
heavier = heavier_by abs_of ticker_of

unfoldable pub heavier_sector : SectorGroup → SectorGroup → Bool
unfolding heavier_by
heavier_sector = heavier_by sector_abs_of sector_id_of

abbrev pub weight_of : UnderlyingGroup → ℕ
weight_of u = u.weight_pct

unfoldable pub sum_top_k : List UnderlyingGroup → ℕ → ℕ
sum_top_k us k = total weight_of (take k us)

abbrev pub square_of : UnderlyingGroup → ℕ
square_of u = u.weight_pct * u.weight_pct

unfoldable pub bucket_of : ℕ → ℕ → Config → HhiBucket
bucket_of n hhi cfg =
    if leb hhi (cfg.hhi_diversified_max * (n * n))
    then diversified
    else if leb (cfg.hhi_concentrated_min * (n * n)) hhi
    then concentrated
    else moderate

abbrev pub new_sector : Option SectorMap → Text → SectorGroup
new_sector sm s = record {
  sector_id = s;
  sector_label = label_of sm s;
  abs_market_value = 0;
  weight_pct = 0;
  tickers = [];
}

abbrev pub add_to_sector : UnderlyingGroup → SectorGroup → SectorGroup
add_to_sector u s = record s {
  abs_market_value = s.abs_market_value + u.abs_market_value;
  tickers = s.tickers ++ u.ticker ∷ [];
}

-- `bySector`
unfoldable pub by_sector :
    Option SectorMap → List UnderlyingGroup → List SectorGroup → List SectorGroup
unfolding change sector_of label_of
by_sector sm [] ss = ss
by_sector sm (u ∷ us) ss =
    let s = sector_of sm u.ticker in
    by_sector sm us (change sector_id_of (new_sector sm s) (add_to_sector u) s ss)

unfoldable pub finish_sector : ℕ → SectorGroup → SectorGroup
unfolding stable_sort text_lt
finish_sector n s = record s {
  weight_pct = weight n s.abs_market_value;
  tickers = stable_sort text_lt s.tickers;
}

abbrev pub over : ℕ → ℕ → ℕ → Bool
over n limit pct = ltb (limit * n) pct

unfoldable pub single_flags : ℕ → Config → List UnderlyingGroup → List Flag
single_flags n cfg [] = []
single_flags n cfg (u ∷ us) =
    let rest = single_flags n cfg us in
    if over n cfg.red_pct u.weight_pct
    then record { level = red; message = single u.ticker u.weight_pct cfg.red_pct } ∷ rest
    else if over n cfg.warn_pct u.weight_pct
    then record { level = warn; message = single u.ticker u.weight_pct cfg.warn_pct } ∷ rest
    else rest

unfoldable pub flag_all : ℕ → Config → List UnderlyingGroup → List Flag
unfolding single_flags sum_top_k
flag_all n cfg us =
    let pct2 = sum_top_k us 2 in
    let pct5 = sum_top_k us 5 in
    let flags2 : List Flag =
      if over n cfg.top2_warn_pct pct2
      then record { level = warn; message = top2 pct2 cfg.top2_warn_pct } ∷ []
      else [] in
    let flags5 : List Flag =
      if over n cfg.top5_warn_pct pct5
      then record { level = warn; message = top5 pct5 cfg.top5_warn_pct } ∷ []
      else [] in
    single_flags n cfg us ++ flags2 ++ flags5

-- The orders in which the four maps are walked.
pub record Walks : Type 0 where
  pub groups : List UnderlyingGroup → List UnderlyingGroup
  pub sectors : List SectorGroup → List SectorGroup
  pub missing : List (Text × ℕ) → List (Text × ℕ)
  pub mismatches : List (Text × Text) → List (Text × Text)

pub record IsWalk (w : Walks) : Type 0 where
  pub groups : (xs : List UnderlyingGroup) → Perm (w.groups xs) xs
  pub sectors : (xs : List SectorGroup) → Perm (w.sectors xs) xs
  pub missing : (xs : List (Text × ℕ)) → Perm (w.missing xs) xs
  pub mismatches : (xs : List (Text × Text)) → Perm (w.mismatches xs) xs

unfoldable pub underlyings_of : Walks → ℕ → Rollup → List UnderlyingGroup
unfolding stable_sort weigh heavier
underlyings_of w n r = stable_sort heavier (w.groups (weigh n r.by_ticker))

unfoldable pub sectors_of : Walks → ℕ → Option SectorMap → List UnderlyingGroup → List SectorGroup
unfolding stable_sort by_sector finish_sector heavier_sector
sectors_of w n sm us =
    stable_sort heavier_sector (map (finish_sector n) (w.sectors (by_sector sm us [])))

abbrev pub cash_of : ℕ → ℕ → ℕ
cash_of n deployed = if ltb n deployed then 0 else n - deployed

-- The report of the configuration with its defaults, the rolled up positions, and the sorted lists.
unfoldable pub report_of :
    ℤ → Config → Rollup → List UnderlyingGroup → List SectorGroup → List Text → List Text → Report
unfolding sum_top_k bucket_of flag_all
report_of net_liq cfg r us ss missing mismatches =
    let n = pos_part net_liq in
    let deployed = total abs_of us in
    let hhi = total square_of us in
    record {
      net_liq = net_liq;
      deployed = deployed;
      deployed_pct = weight n deployed;
      cash = cash_of n deployed;
      cash_pct = weight n (cash_of n deployed);
      underlyings = us;
      sectors = ss;
      top2_pct = sum_top_k us 2;
      top5_pct = sum_top_k us 5;
      top_n_pct = sum_top_k us cfg.top_n;
      top_n = cfg.top_n;
      hhi = hhi;
      hhi_bucket = bucket_of n hhi cfg;
      flags = flag_all n cfg us;
      missing_mark_tickers = missing;
      missing_mark_leg_counts = r.missing_legs;
      currency_mismatch_tickers = mismatches;
      currency_mismatch_by_ticker = r.mismatch;
      used_config = cfg;
    }

-- `sort.Strings` of the keys of a map.
unfoldable pub sorted_names : {A : Type 0} → List (Text × A) → List Text
unfolding stable_sort text_lt
sorted_names m = stable_sort text_lt (map name_of m)

unfoldable pub compute : Walks → List Position → ℤ → Config → Option SectorMap → Report
unfolding roll_up underlyings_of sectors_of sorted_names report_of apply_config_defaults
compute w positions net_liq config sm =
    let n = pos_part net_liq in
    let r = roll_up positions in
    let us = underlyings_of w n r in
    report_of net_liq (apply_config_defaults config) r us (sectors_of w n sm us)
      (sorted_names (w.missing r.missing_legs)) (sorted_names (w.mismatches r.mismatch))
