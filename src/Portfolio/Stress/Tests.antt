-- ===== src/Portfolio/Stress/Tests.antt =====
-- A stock and a call of one underlying, under the default scenarios.

use mathlib.Core.List.Perm
use optix.Base.{◌≡◌, refl, List, [], ◌∷◌, Option, none, some, map}
use optix.Base.Int.{pos, negsuc, neg}
use optix.Base.Text.{Text, codes, text_eq}
use optix.Portfolio.Types.{Position, finite}
use optix.Portfolio.Greeks.{PricedLeg, priced_leg, StressOptionLeg}
use optix.Portfolio.Stress.{StressBetaSource, default_stress_scenarios, beta_for_stress}
use optix.Portfolio.Stress.Run.{
  Walks, Pricer, failed, StressPositionPnl, worst_of, no_position, run_legs, run_groups,
}
use optix.Portfolio.Stress.Run.Agree.{by_underlying, figures, run_legs-run_groups}

abbrev stock : Position
stock = record {
  symbol = codes "aapl";
  sec_type = codes "STK";
  expiration = [];
  strike = pos 0;
  right = [];
  quantity = pos 10;
  currency = codes "USD";
  market_value = finite (pos 2000);
}

abbrev bought_call : StressOptionLeg
bought_call = record {
  key = [];
  shock_key = codes "AAPL";
  spot = pos 200;
  strike = pos 210;
  t_years = 1;
  risk_free_rate = pos 0;
  iv = pos 300000;
  base_price = pos 5;
  signed_qty = pos 1;
  multiplier = pos 100;
  option_type = codes "call";
  fallback_dollar_delta = pos 900;
  fallback_dollar_gamma = pos 30;
  fallback_vega = pos 40;
}

abbrev legs : List PricedLeg
legs = priced_leg 500 (pos 45) (pos 2) (neg (pos 3)) (codes "chain") bought_call ∷ []

abbrev as_they_come : Walks
as_they_come = record { pnls = λ ps. ps; betas = λ bs. bs; sort = λ rs. rs }

abbrev down : Pricer
down n l spot iv = failed

-- A beta of 1.2 that is kept without its key.
abbrev betas : Text → Option StressBetaSource
betas = beta_for_stress (
    (
      codes "AAPL",
      record {
        key = [];
        beta = finite (pos 120);
        source = codes "historical";
        observations = 250;
        as_of = none;
        updated_at = none;
      },
    )
    ∷ [])

run_legs-run_groups_example :
    map figures
      (run_legs
        (some betas)
        as_they_come
        down
        (by_underlying as_they_come
          (some betas)
          down
          (λ gs. gs)
          (λ ss. ss)
          1000
          (pos 5000)
          (stock ∷ [])
          legs)
        default_stress_scenarios
        0
        []).0
    ≡ map figures
        (run_groups
          (some betas)
          (by_underlying as_they_come
            (some betas)
            down
            (λ gs. gs)
            (λ ss. ss)
            1000
            (pos 5000)
            (stock ∷ [])
            legs)
          default_stress_scenarios
          []).0
run_legs-run_groups_example =
    run_legs-run_groups as_they_come (some betas) down (λ gs. gs) (λ ss. ss) 1000 (pos 5000)
      (stock ∷ []) legs (λ gs. Perm.refl gs) (λ ps. Perm.refl ps) (λ n l spot iv. refl)
      default_stress_scenarios 0 [] []

-- Of two positions with one P&L, the one that the map's walk comes to first is the worst.
abbrev position : Text → StressPositionPnl
position k = record { key = k; pnl = negsuc 4 }

first_is_worst :
    (worst_of no_position (position (codes "KO") ∷ position (codes "XOM") ∷ [])).key ≡ codes "KO"
unfolding worst_of text_eq
first_is_worst = refl

other_is_worst :
    (worst_of no_position (position (codes "XOM") ∷ position (codes "KO") ∷ [])).key ≡ codes "XOM"
unfolding worst_of text_eq
other_is_worst = refl
