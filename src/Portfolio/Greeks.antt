-- ===== src/Portfolio/Greeks.antt =====
-- The aggregation of the Greeks (internal/portfolio/greeks.go), from the legs that are priced on.
-- Amounts are whole numbers of a smallest unit; a dollar delta is in hundredths of it, since that of a
-- stock is a hundredth of its value. A map is the list of its entries.
use optix.Base.{ℕ, suc, ◌+◌, ◌&&◌, not, List, [], ◌∷◌, ◌++◌, if◌then◌else◌}
use optix.Base.Int.{ℤ, pos, ◌+ℤ◌, eqb_ℤ}
use optix.Base.Keyed.{change}
use optix.Base.Text.{Text, text_eq, to_upper, codes}
use optix.Base.Time.{Instant}
use optix.Portfolio.Types.{finite, not_finite, Position}
use optix.Portfolio.Rollup.{magnitude}

-- A weight is left out here.
pub record GreeksGroup : Type 0 where
  pub key : Text
  pub mv_usd : ℕ
  pub net_delta : ℤ
  pub dollar_delta : ℤ
  pub gamma : ℤ
  pub dollar_gamma : ℤ
  pub vega : ℤ
  pub theta : ℤ
  pub leg_count : ℕ
  pub skipped_leg_count : ℕ
  pub iv_source : Text

pub record SkippedLeg : Type 0 where
  pub symbol : Text
  pub sec_type : Text
  pub expiration : Text
  pub right : Text
  pub strike : ℤ
  pub reason : Text

pub record StressStockLeg : Type 0 where
  pub key : Text
  pub shock_key : Text
  pub market_value : ℤ

-- A volatility is in 1e-6.
pub record StressOptionLeg : Type 0 where
  pub key : Text
  pub shock_key : Text
  pub spot : ℤ
  pub strike : ℤ
  pub t_years : ℕ
  pub risk_free_rate : ℤ
  pub iv : ℤ
  pub base_price : ℤ
  pub signed_qty : ℤ
  pub multiplier : ℤ
  pub option_type : Text
  pub fallback_dollar_delta : ℤ
  pub fallback_dollar_gamma : ℤ
  pub fallback_vega : ℤ

pub record GreeksReport : Type 0 where
  pub snapshot_at : Instant
  pub net_liq : ℤ
  pub groups : List GreeksGroup
  pub skipped_legs : List SkippedLeg
  pub stress_stock_legs : List StressStockLeg
  pub stress_option_legs : List StressOptionLeg

-- A leg that was skipped, with its underlying and its value, or priced; priceOneLeg gives a priced leg
-- the underlying, the dollar delta, the dollar gamma and the vega of its stress leg.
pub data PricedLeg : Type 0 where
  skipped_leg : Text → ℕ → SkippedLeg → PricedLeg
  priced_leg : ℕ → ℤ → ℤ → ℤ → Text → StressOptionLeg → PricedLeg

pub record Aggregation : Type 0 where
  pub groups : List GreeksGroup
  pub skipped_legs : List SkippedLeg
  pub stress_stock_legs : List StressStockLeg
  pub stress_option_legs : List StressOptionLeg

abbrev pub group_key : GreeksGroup → Text
group_key g = g.key

abbrev pub new_group : Text → GreeksGroup
new_group k = record {
  key = k;
  mv_usd = 0;
  net_delta = pos 0;
  dollar_delta = pos 0;
  gamma = pos 0;
  dollar_gamma = pos 0;
  vega = pos 0;
  theta = pos 0;
  leg_count = 0;
  skipped_leg_count = 0;
  iv_source = [];
}

-- `mergeIVSource`
unfoldable pub merge_iv_source : Text → Text → Text
unfolding text_eq
merge_iv_source src old =
    if text_eq old [] then src else if text_eq old src then old else codes "mixed"

-- `skipForPosition`
unfoldable pub skip_for_position : Position → Text → SkippedLeg
unfolding to_upper
skip_for_position p reason_ = record {
  symbol = to_upper p.symbol;
  sec_type = p.sec_type;
  expiration = p.expiration;
  right = p.right;
  strike = p.strike;
  reason = reason_;
}

abbrev pub count_skipped : ℕ → GreeksGroup → GreeksGroup
count_skipped mv g = record g {
  mv_usd = g.mv_usd + mv;
  skipped_leg_count = suc g.skipped_leg_count;
}

-- What a stock leg and a priced leg add to their group.
unfoldable pub count_stock : ℤ → ℤ → GreeksGroup → GreeksGroup
unfolding merge_iv_source ◌+ℤ◌
count_stock quantity market_value g = record g {
  net_delta = g.net_delta +ℤ quantity;
  dollar_delta = g.dollar_delta +ℤ market_value;
  mv_usd = g.mv_usd + magnitude market_value;
  leg_count = suc g.leg_count;
  iv_source = merge_iv_source (codes "stock") g.iv_source;
}

unfoldable pub count_option : ℕ → ℤ → ℤ → ℤ → Text → StressOptionLeg → GreeksGroup → GreeksGroup
unfolding merge_iv_source ◌+ℤ◌
count_option mv net_delta_ gamma_ theta_ src stress g = record g {
  net_delta = g.net_delta +ℤ net_delta_;
  dollar_delta = g.dollar_delta +ℤ stress.fallback_dollar_delta;
  gamma = g.gamma +ℤ gamma_;
  dollar_gamma = g.dollar_gamma +ℤ stress.fallback_dollar_gamma;
  vega = g.vega +ℤ stress.fallback_vega;
  theta = g.theta +ℤ theta_;
  mv_usd = g.mv_usd + mv;
  leg_count = suc g.leg_count;
  iv_source = merge_iv_source src g.iv_source;
}

abbrev pub change_greeks : Text → (GreeksGroup → GreeksGroup) → List GreeksGroup → List GreeksGroup
change_greeks k f groups = change group_key (new_group k) f k groups

abbrev skip_stock : Text → SkippedLeg → Aggregation → Aggregation
skip_stock k leg a = record a {
  groups = change_greeks k (count_skipped 0) a.groups;
  skipped_legs = a.skipped_legs ++ leg ∷ [];
}

-- The loop over the stock legs; `key_of` gives the sector or the underlying.
unfoldable pub add_stock : (Text → Text) → Position → Aggregation → Aggregation
unfolding change count_stock skip_for_position to_upper
add_stock key_of p a =
    let underlying = to_upper p.symbol in
    let k = key_of underlying in
    elim p.market_value [
      | not_finite ↦ skip_stock k (skip_for_position p (codes "non_finite")) a
      | finite v ↦
          if eqb_ℤ v (pos 0) && not (eqb_ℤ p.quantity (pos 0))
          then skip_stock k (skip_for_position p (codes "no_mark")) a
          else record a {
            groups = change_greeks k (count_stock p.quantity v) a.groups;
            stress_stock_legs =
                a.stress_stock_legs
                ++ record { key = k; shock_key = underlying; market_value = v } ∷ [];
          }
    ]

unfoldable pub add_stocks : (Text → Text) → List Position → Aggregation → Aggregation
unfolding add_stock
add_stocks key_of [] a = a
add_stocks key_of (p ∷ ps) a = add_stocks key_of ps (add_stock key_of p a)

-- The loop over the priced legs.
unfoldable pub add_priced : (Text → Text) → PricedLeg → Aggregation → Aggregation
unfolding change count_option
add_priced key_of (skipped_leg underlying mv leg) a = record a {
  groups = change_greeks (key_of underlying) (count_skipped mv) a.groups;
  skipped_legs = a.skipped_legs ++ leg ∷ [];
}
add_priced key_of (priced_leg mv net_delta_ gamma_ theta_ src stress) a =
    let k = key_of stress.shock_key in
    record a {
      groups = change_greeks k (count_option mv net_delta_ gamma_ theta_ src stress) a.groups;
      stress_option_legs = a.stress_option_legs ++ record stress { key = k } ∷ [];
    }

unfoldable pub add_all_priced : (Text → Text) → List PricedLeg → Aggregation → Aggregation
unfolding add_priced
add_all_priced key_of [] a = a
add_all_priced key_of (l ∷ ls) a = add_all_priced key_of ls (add_priced key_of l a)

unfoldable pub aggregate : (Text → Text) → List Position → List PricedLeg → Aggregation
unfolding add_stocks add_all_priced
aggregate key_of stocks legs = add_all_priced key_of legs (
    add_stocks key_of stocks
      (record { groups = []; skipped_legs = []; stress_stock_legs = []; stress_option_legs = [] }))

-- The report that the stress test reads; the walk of the groups and the sorts are `order`.
unfoldable pub greeks_report :
    (List GreeksGroup → List GreeksGroup)
    → (List SkippedLeg → List SkippedLeg)
    → Instant
    → ℤ
    → Aggregation
    → GreeksReport
greeks_report order order_skipped now net_liq_ a = record {
  snapshot_at = now;
  net_liq = net_liq_;
  groups = order a.groups;
  skipped_legs = order_skipped a.skipped_legs;
  stress_stock_legs = a.stress_stock_legs;
  stress_option_legs = a.stress_option_legs;
}
