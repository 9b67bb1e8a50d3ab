-- ===== src/ShockIntel/Service/Tests.antt =====
-- A bundle of a falling market.
use optix.Base.{ℕ, ◌+◌, ◌*◌, ◌≡◌, refl, [], ◌∷◌, none, some, map}
use optix.Base.Int.{ℤ, pos, negsuc}
use optix.Base.Text.{Text, codes, text_eq}
use optix.Base.Sort.{stable_sort}
use optix.ShockIntel.Types.{ShockQuote}
use optix.ShockIntel.Cache.Bundle.{new_bundle}
use optix.ShockIntel.Service.{MarketSource, shock_bundle}

abbrev quote_of : Text → ℤ → ShockQuote
quote_of i change = record {
  id = i;
  label = i;
  price = pos 500000;
  change_pct = change;
  bid = pos 499990;
  ask = pos 500010;
  bid_size = pos 1000;
  ask_size = pos 1000;
  source = codes "IBKR";
  basis = codes "realtime";
  as_of = 1000;
}

-- The S&P falls by 3%, the VIX rises by 38%, and the source has no depth and an error.
abbrev market : MarketSource ℕ
market = record {
  quotes = λ n ids. (
    (codes "SPY", quote_of (codes "SPY") (negsuc 2999))
        ∷ (codes "VIX", quote_of (codes "VIX") (pos 38000))
        ∷ [],
    none,
  );
  depth = λ n ids. ([], some 7);
  option_metrics = λ n ids. ([], none);
}

abbrev digit : ℕ → Text
digit n = (b'0' + n) ∷ []

abbrev minutes : ℕ → ℕ
minutes n = n * 60

-- The analogs, the most alike first.
closest :
    map (λ r. r.name) (shock_bundle (some market) digit minutes stable_sort).0.analogs.rows
    ≡ codes "Growth demand scare"
      ∷ codes "Inflation policy shock"
      ∷ codes "COVID liquidity shock"
      ∷ codes "Oil supply shock"
      ∷ []
unfolding shock_bundle stable_sort text_eq new_bundle
closest = refl

shocked :
    (shock_bundle (some market) digit minutes stable_sort).0.regime.triggered_view ≡ codes "shock"
unfolding shock_bundle text_eq new_bundle
shocked = refl
