-- ===== src/Portfolio/Stress/Run.antt =====
-- A stress test over a report of the Greeks (internal/portfolio/stress.go), by the Greeks of its groups
-- or by pricing its legs again. A P&L is in units of 5e-9 of an amount, in which every one of its terms
-- is whole; a percentage of the net liquidation value is 100 times the P&L that it is of, over that
-- value. The walks of the maps and the sort of the scenarios are parameters, and so is what the
-- pricer answers at each of its calls.
pub mod Totals
pub mod Balance
pub mod Agree
use optix.Base.{
  ℕ, suc, ◌+◌, ◌≡◌, Bool, true, false, ◌&&◌, ◌||◌, not, List, [], ◌∷◌, ◌++◌, Option, none, some,
  if◌then◌else◌, length, ltb,
}
use optix.Base.Int.{ℤ, pos, ◌+ℤ◌, ◌-ℤ◌, ◌*ℤ◌, ltb_ℤ, eqb_ℤ}
use optix.Base.Keyed.{change}
use optix.Base.Sort.{stable_sort}
use optix.Base.Text.{Text, text_eq, text_lt}
use optix.Base.Time.{Instant}
use optix.Portfolio.Types.{Mark, finite, not_finite}
use optix.Portfolio.Greeks.{GreeksGroup, SkippedLeg, StressStockLeg, StressOptionLeg, GreeksReport}
use optix.Portfolio.Stress.{
  StressShock, StressScenario, StressBetaSource, Axes, stress_axes_for_group,
  default_stress_scenarios,
}

pub record StressPositionPnl : Type 0 where
  pub key : Text
  pub pnl : ℤ

pub record StressScenarioResult : Type 0 where
  pub id : Text
  pub label : Text
  pub shocks : List StressShock
  pub total_pnl : ℤ
  pub pct_nlv : ℤ
  pub worst_position : StressPositionPnl
  pub positions : List StressPositionPnl

pub record StressReport : Type 0 where
  pub snapshot_at : Instant
  pub net_liq : ℤ
  pub scenarios : List StressScenarioResult
  pub beta_sources : List StressBetaSource
  pub skipped_leg_count : ℕ
  pub skipped_legs : List SkippedLeg

-- What the pricer answers, and the test of its price.
pub data Answer : Type 0 where
  failed : Answer
  priced : Mark → Answer

-- The calls are numbered; a call is of a leg, a spot in 1e-6 of its unit, and a volatility.
abbrev pub Pricer : Type 0
Pricer = ℕ → StressOptionLeg → ℤ → ℤ → Answer

pub record Walks : Type 0 where
  pub pnls : List StressPositionPnl → List StressPositionPnl
  pub betas : List StressBetaSource → List StressBetaSource
  pub sort : List StressScenarioResult → List StressScenarioResult

-- `taylorOptionLegPnL`, which is also the P&L of a group by its Greeks
unfoldable pub taylor_pnl : ℤ → ℤ → ℤ → ℤ → ℤ → ℤ
unfolding ◌+ℤ◌ ◌*ℤ◌
taylor_pnl delta gamma vega price_pct iv_points =
    delta *ℤ price_pct *ℤ pos 200
    +ℤ gamma *ℤ (price_pct *ℤ price_pct)
    +ℤ vega *ℤ iv_points *ℤ pos 20000

abbrev pub taylor_leg : StressOptionLeg → ℤ → ℤ → ℤ
taylor_leg leg price_pct iv_points =
    taylor_pnl leg.fallback_dollar_delta leg.fallback_dollar_gamma leg.fallback_vega price_pct
      iv_points

-- `(g.Price - leg.BasePrice) * leg.SignedQty * leg.Multiplier`
unfoldable pub repriced : StressOptionLeg → ℤ → ℤ
unfolding ◌-ℤ◌ ◌*ℤ◌
repriced leg price = (price -ℤ leg.base_price) *ℤ leg.signed_qty *ℤ leg.multiplier *ℤ pos 200000000

abbrev above_zero : ℤ → Bool
above_zero x = ltb_ℤ (pos 0) x

-- The shocked spot and volatility.
unfoldable pub shocked_spot : StressOptionLeg → ℤ → ℤ
unfolding ◌+ℤ◌ ◌*ℤ◌
shocked_spot leg price_pct = leg.spot *ℤ (pos 1000000 +ℤ price_pct)

unfoldable pub shocked_iv : StressOptionLeg → ℤ → ℤ
unfolding ◌+ℤ◌
shocked_iv leg iv_points = leg.iv +ℤ iv_points

unfoldable pub can_reprice : StressOptionLeg → ℤ → ℤ → Bool
unfolding shocked_spot shocked_iv
can_reprice leg price_pct iv_points =
    above_zero (shocked_spot leg price_pct)
    && above_zero (shocked_iv leg iv_points)
    && above_zero leg.base_price

-- What is made of an answer: the P&L, and whether the pricer failed.
unfoldable pub read_answer : StressOptionLeg → ℤ → ℤ → Answer → ℤ × Bool
unfolding taylor_pnl repriced
read_answer leg price_pct iv_points failed = (taylor_leg leg price_pct iv_points, true)
read_answer leg price_pct iv_points (priced not_finite) =
    (taylor_leg leg price_pct iv_points, false)
read_answer leg price_pct iv_points (priced (finite p)) =
    if ltb_ℤ p (pos 0) then (taylor_leg leg price_pct iv_points, false) else (repriced leg p, false)

-- What a scenario has met of the pricer: whether it failed, and the calls of it so far.
pub record Repricing : Type 0 where
  pub disabled : Bool
  pub calls : ℕ

-- `repriceOptionLeg`, under the flag of the loop around it.
unfoldable pub reprice_option_leg : Pricer → StressOptionLeg → ℤ → ℤ → Repricing → ℤ × Repricing
unfolding taylor_pnl can_reprice read_answer
reprice_option_leg pricer leg price_pct iv_points r =
    let answer = pricer r.calls leg (shocked_spot leg price_pct) (shocked_iv leg iv_points) in
    let (pnl, is_failed) = read_answer leg price_pct iv_points answer in
    if r.disabled
    then (taylor_leg leg price_pct iv_points, r)
    else if can_reprice leg price_pct iv_points
    then (pnl, record { disabled = is_failed; calls = suc r.calls })
    else (taylor_leg leg price_pct iv_points, r)

abbrev pub key_of_pnl : StressPositionPnl → Text
key_of_pnl e = e.key

-- `pnlByGroup[key] += v`
unfoldable pub add_pnl : Text → ℤ → List StressPositionPnl → List StressPositionPnl
unfolding change ◌+ℤ◌
add_pnl k v pnls =
    change key_of_pnl (record { key = k; pnl = pos 0 }) (λ e. record e { pnl = e.pnl +ℤ v }) k pnls

abbrev pub stress_shock_key : Text → Text → Text
stress_shock_key key_ [] = key_
stress_shock_key key_ (c ∷ s) = c ∷ s

-- `if res.WorstPosition.Key == "" || pnl < res.WorstPosition.PnLUSD`
unfoldable pub worse_of : StressPositionPnl → StressPositionPnl → StressPositionPnl
unfolding text_eq
worse_of worst p = if text_eq worst.key [] || ltb_ℤ p.pnl worst.pnl then p else worst

abbrev pub no_position : StressPositionPnl
no_position = record { key = []; pnl = pos 0 }

unfoldable pub worst_of : StressPositionPnl → List StressPositionPnl → StressPositionPnl
unfolding worse_of
worst_of worst [] = worst
worst_of worst (p ∷ ps) = worst_of (worse_of worst p) ps

unfoldable pub sum_pnls : List StressPositionPnl → ℤ
unfolding ◌+ℤ◌
sum_pnls [] = pos 0
sum_pnls (p ∷ ps) = p.pnl +ℤ sum_pnls ps

unfoldable pub position_before : StressPositionPnl → StressPositionPnl → Bool
unfolding text_lt
position_before a b = if eqb_ℤ a.pnl b.pnl then text_lt a.key b.key else ltb_ℤ a.pnl b.pnl

-- A scenario's result over its positions, in the order in which they come.
unfoldable pub result_of : ℤ → StressScenario → List StressPositionPnl → StressScenarioResult
unfolding worst_of sum_pnls position_before stable_sort ◌*ℤ◌
result_of net_liq sc ps = record {
  id = sc.id;
  label = sc.label;
  shocks = sc.shocks;
  total_pnl = sum_pnls ps;
  pct_nlv = if above_zero net_liq then sum_pnls ps *ℤ pos 100 else pos 0;
  worst_position = worst_of no_position ps;
  positions = stable_sort position_before ps;
}

module _ (provider : Option (Text → Option StressBetaSource)) where
  -- The positions of a scenario by the Greeks, and the betas that were used.
  unfoldable pub group_positions :
      List StressShock
      → List GreeksGroup
      → List StressBetaSource
      → List StressPositionPnl × List StressBetaSource
  unfolding stress_axes_for_group taylor_pnl
  group_positions shocks [] used = ([], used)
  group_positions shocks (g ∷ gs) used =
      let a = stress_axes_for_group provider g.key shocks used in
      let (ps, used') = group_positions shocks gs a.used in
      (
        record {
          key = g.key;
          pnl = taylor_pnl g.dollar_delta g.dollar_gamma g.vega a.price_pct a.iv_points;
        }
            ∷ ps,
        used',
      )

  unfoldable pub run_groups :
      GreeksReport
      → List StressScenario
      → List StressBetaSource
      → List StressScenarioResult × List StressBetaSource
  unfolding group_positions result_of
  run_groups g [] used = ([], used)
  run_groups g (sc ∷ scs) used =
      let (ps, used') = group_positions sc.shocks g.groups used in
      let (rs, used'') = run_groups g scs used' in (result_of g.net_liq sc ps ∷ rs, used'')

  -- The two loops over the legs.
  unfoldable pub add_stock_legs :
      List StressShock
      → List StressStockLeg
      → List StressPositionPnl
      → List StressBetaSource
      → List StressPositionPnl × List StressBetaSource
  unfolding stress_axes_for_group add_pnl ◌*ℤ◌
  add_stock_legs shocks [] pnls used = (pnls, used)
  add_stock_legs shocks (l ∷ ls) pnls used =
      let a = stress_axes_for_group provider (stress_shock_key l.key l.shock_key) shocks used in
      add_stock_legs shocks ls (add_pnl l.key (l.market_value *ℤ a.price_pct *ℤ pos 200) pnls)
        a.used

  unfoldable pub add_option_legs :
      Pricer
      → List StressShock
      → List StressOptionLeg
      → Repricing
      → List StressPositionPnl
      → List StressBetaSource
      → (List StressPositionPnl × List StressBetaSource) × ℕ
  unfolding stress_axes_for_group add_pnl reprice_option_leg
  add_option_legs pricer shocks [] r pnls used = ((pnls, used), r.calls)
  add_option_legs pricer shocks (l ∷ ls) r pnls used =
      let a = stress_axes_for_group provider (stress_shock_key l.key l.shock_key) shocks used in
      let (pnl, r') = reprice_option_leg pricer l a.price_pct a.iv_points r in
      add_option_legs pricer shocks ls r' (add_pnl l.key pnl pnls) a.used

  -- `pnlByGroup[key] = 0`
  unfoldable pub start_pnls : List GreeksGroup → List StressPositionPnl → List StressPositionPnl
  unfolding add_pnl
  start_pnls [] pnls = pnls
  start_pnls (g ∷ gs) pnls = start_pnls gs (add_pnl g.key (pos 0) pnls)

  unfoldable pub leg_positions :
      Pricer
      → GreeksReport
      → List StressShock
      → ℕ
      → List StressBetaSource
      → (List StressPositionPnl × List StressBetaSource) × ℕ
  unfolding start_pnls add_stock_legs add_option_legs
  leg_positions pricer g shocks calls_ used =
      let (pnls, used') = add_stock_legs shocks g.stress_stock_legs (start_pnls g.groups []) used in
      add_option_legs pricer shocks g.stress_option_legs
        (record { disabled = false; calls = calls_ }) pnls used'

  unfoldable pub run_legs :
      Walks
      → Pricer
      → GreeksReport
      → List StressScenario
      → ℕ
      → List StressBetaSource
      → List StressScenarioResult × List StressBetaSource
  unfolding leg_positions result_of
  run_legs w pricer g [] calls used = ([], used)
  run_legs w pricer g (sc ∷ scs) calls used =
      let ((pnls, used'), calls') = leg_positions pricer g sc.shocks calls used in
      let (rs, used'') = run_legs w pricer g scs calls' used' in
      (result_of g.net_liq sc (w.pnls pnls) ∷ rs, used'')

abbrev scenarios_or_default : List StressScenario → List StressScenario
scenarios_or_default [] = default_stress_scenarios
scenarios_or_default (sc ∷ scs) = sc ∷ scs

abbrev beta_before : StressBetaSource → StressBetaSource → Bool
beta_before a b = text_lt a.key b.key

unfoldable pub stress_report :
    Walks → GreeksReport → List StressScenarioResult × List StressBetaSource → StressReport
unfolding stable_sort text_lt
stress_report w g (results, used) = record {
  snapshot_at = g.snapshot_at;
  net_liq = g.net_liq;
  scenarios = w.sort results;
  beta_sources = stable_sort beta_before (w.betas used);
  skipped_leg_count = length g.skipped_legs;
  skipped_legs = g.skipped_legs;
}

-- `RunStressWithBetaProvider`; `RunStress` has no provider.
unfoldable pub run_stress :
    Walks
    → Option (Text → Option StressBetaSource)
    → GreeksReport
    → List StressScenario
    → StressReport
unfolding run_groups stress_report
run_stress w provider g scenarios =
    stress_report w g (run_groups provider g (scenarios_or_default scenarios) [])

abbrev has_legs : GreeksReport → Bool
has_legs g = ltb 0 (length g.stress_stock_legs + length g.stress_option_legs)

-- `RunStressWithRepricing`
unfoldable pub run_stress_with_repricing :
    Walks
    → Option (Text → Option StressBetaSource)
    → Option Pricer
    → GreeksReport
    → List StressScenario
    → StressReport
unfolding run_stress run_legs stress_report
run_stress_with_repricing w provider none g scenarios = run_stress w provider g scenarios
run_stress_with_repricing w provider (some pricer) g scenarios =
    if has_legs g
    then stress_report w g (run_legs provider w pricer g (scenarios_or_default scenarios) 0 [])
    else run_stress w provider g scenarios
