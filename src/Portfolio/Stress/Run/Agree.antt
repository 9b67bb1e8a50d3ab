-- ===== src/Portfolio/Stress/Run/Agree.antt =====
-- The two stress tests of one portfolio: by the legs, where the pricer fails, and by the groups.
use mathlib.Core.List.{Perm}
use optix.Base.{ℕ, ◌≡◌, refl, sym, ap, ap₂, ◌∙◌, List, [], ◌∷◌, Option, if◌then◌else◌, map}
use optix.Base.Int.{ℤ, pos, ◌+ℤ◌, ◌*ℤ◌, ltb_ℤ}
use optix.Base.Time.{Instant}
use optix.Base.Text.{Text}
use optix.Portfolio.Types.{Position}
use optix.Portfolio.Greeks.{
  GreeksGroup, GreeksReport, SkippedLeg, StressOptionLeg, PricedLeg, aggregate, greeks_report,
}
use optix.Portfolio.Stress.{StressShock, StressScenario, StressBetaSource}
use optix.Portfolio.Stress.Run.{
  StressPositionPnl, StressScenarioResult, Walks, Pricer, failed, sum_pnls, leg_positions,
  group_positions, run_legs, run_groups, result_of,
}
use optix.Portfolio.Stress.Run.Totals.{
  sum_ℤ, stock_pnl, taylor_of, group_pnl, add_stock_legs-sum, group_positions-sum,
  add_option_legs-sum,
}
use optix.Portfolio.Stress.Run.Balance.{
  sum_ℤ-Perm, start_pnls-sum, no_pnls, sum_pnls-Perm, by_legs, aggregate-Balances,
}

-- What a result says of the whole portfolio.
abbrev pub figures : StressScenarioResult → Text × ℤ × ℤ
figures r = (r.id, r.total_pnl, r.pct_nlv)

figures-result_of :
    (net_liq : ℤ) (sc : StressScenario) (ps qs : List StressPositionPnl)
    → sum_pnls ps ≡ sum_pnls qs
    → figures (result_of net_liq sc ps) ≡ figures (result_of net_liq sc qs)
unfolding result_of
figures-result_of net_liq sc ps qs h =
    ap (λ (s : ℤ). (sc.id, s, if ltb_ℤ (pos 0) net_liq then s *ℤ pos 100 else pos 0)) h

module _ (w : Walks) (provider : Option (Text → Option StressBetaSource)) (pricer : Pricer)
    (order : List GreeksGroup → List GreeksGroup)
    (order_skipped : List SkippedLeg → List SkippedLeg) (now : Instant) (net_liq : ℤ)
    (stocks : List Position) (legs : List PricedLeg) where
  -- The report of a portfolio that is grouped by underlying.
  abbrev pub by_underlying : GreeksReport
  by_underlying = greeks_report order order_skipped now net_liq (aggregate (λ u. u) stocks legs)

  module _ (orders : (gs : List GreeksGroup) → Perm (order gs) gs)
      (walks : (ps : List StressPositionPnl) → Perm (w.pnls ps) ps)
      (down : (n : ℕ) (l : StressOptionLeg) (spot iv : ℤ) → pricer n l spot iv ≡ failed) where
    legs-total :
        (shs : List StressShock) (calls_ : ℕ) (used_ : List StressBetaSource)
        → sum_pnls (w.pnls (leg_positions provider pricer by_underlying shs calls_ used_).0.0)
          ≡ by_legs provider shs (aggregate (λ u. u) stocks legs)
    unfolding leg_positions greeks_report
    legs-total shs calls_ used_ =
        sum_pnls-Perm (walks _)
        ∙ add_option_legs-sum provider pricer down shs
            (aggregate (λ u. u) stocks legs).stress_option_legs _ _ _
        ∙ ap
            (◌+ℤ sum_ℤ (taylor_of provider shs) (aggregate (λ u. u) stocks legs).stress_option_legs)
            (add_stock_legs-sum provider shs (aggregate (λ u. u) stocks legs).stress_stock_legs _ _
              ∙ ap
                  (◌+ℤ sum_ℤ (stock_pnl provider shs)
                    (aggregate (λ u. u) stocks legs).stress_stock_legs)
                  (start_pnls-sum provider (order (aggregate (λ u. u) stocks legs).groups) [])
              ∙ no_pnls (
                  sum_ℤ (stock_pnl provider shs)
                    (aggregate (λ u. u) stocks legs).stress_stock_legs))

    groups-total :
        (shs : List StressShock) (used_ : List StressBetaSource)
        → sum_pnls (group_positions provider shs by_underlying.groups used_).0
          ≡ by_legs provider shs (aggregate (λ u. u) stocks legs)
    unfolding greeks_report
    groups-total shs used_ =
        group_positions-sum provider shs _ used_
        ∙ sum_ℤ-Perm (group_pnl provider shs) (orders _)
        ∙ aggregate-Balances provider shs stocks legs

    -- Where the pricer fails at every call, and the report is grouped by underlying: the stress test
    -- that prices the legs again and the one by the Greeks of the groups give every scenario the same
    -- total P&L and the same percentage of the net liquidation value, whatever the orders of the
    -- groups and of the map of the positions.
    pub run_legs-run_groups :
        (scs : List StressScenario) (calls_ : ℕ) (used_ used' : List StressBetaSource)
        → map figures (run_legs provider w pricer by_underlying scs calls_ used_).0
          ≡ map figures (run_groups provider by_underlying scs used').0
    unfolding run_legs run_groups greeks_report
    run_legs-run_groups [] calls_ used_ used' = refl
    run_legs-run_groups (sc ∷ scs) calls_ used_ used' =
        let ((pnls, used_legs), calls') =
          leg_positions provider pricer by_underlying sc.shocks calls_ used_ in
        let (groups_, used_groups) =
          group_positions provider sc.shocks by_underlying.groups used' in
        ap₂ ◌∷◌
          (figures-result_of net_liq sc (w.pnls pnls) groups_
            (legs-total sc.shocks calls_ used_ ∙ sym (groups-total sc.shocks used')))
          (run_legs-run_groups scs calls' used_legs used_groups)
