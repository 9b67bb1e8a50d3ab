-- ===== src/ShockIntel/Tests.antt =====
-- Runs of the caches over a source of two symbols.
use optix.Base.{
  ℕ, ◌≡◌, ◌≤◌, refl, arith, Bool, true, false, List, [], ◌∷◌, Option, none, if◌then◌else◌,
}
use optix.Base.Int.{pos}
use optix.Base.Text.{Text, text_eq, codes}
use optix.Base.{◌+◌, All, map, length, total, leb, ◌<◌}
use optix.Base.Int.{ℤ, negsuc}
use optix.ShockIntel.Types.{ShockQuote}
use optix.ShockIntel.Liquidity.{LiquidityDto, liquidity_assets, build_liquidity_state}
use optix.ShockIntel.Liquidity.Rows.{IsSound, all_warnings, build_liquidity_state-rows}
use optix.ShockIntel.Regime.{min, build_regime_trigger}
use optix.ShockIntel.Regime.Score.{contribution_of, build_regime_trigger_lem}
use optix.ShockIntel.Cache.{seen_text, unique_strings}
use optix.ShockIntel.Cache.Keys.{find_value, key}
use optix.ShockIntel.Cache.Ttl.{TtlMarketCache, ttl_call}
use optix.ShockIntel.Cache.Bundle.{Request, bundle_call, bundle_calls, asked_keys, new_bundle}
use optix.ShockIntel.Cache.Bundle.Once.{asked_times, asked_keys-once, bundle_call-agrees}

-- The price of each symbol that the source is asked for.
abbrev priced : ℕ → List Text → List (Text × ℕ)
priced price [] = []
priced price (i ∷ is) = (i, price) ∷ priced price is

abbrev source : ℕ → List Text → List (Text × ℕ) × Option ℕ
source price ids = (priced price ids, none)

priced-IsAbout :
    (price : ℕ) (ids : List Text) (i : Text)
    → seen_text i ids ≡ false
    → find_value i (priced price ids) ≡ none
unfolding seen_text
priced-IsAbout price [] i h = refl
priced-IsAbout price (j ∷ ids) i h = ground (arith, h, priced-IsAbout price ids i)

abbrev spy : Text
spy = codes "SPY"

abbrev first_request : Request ℕ ℕ
first_request = record { levels = pos 0; ids = spy ∷ spy ∷ []; answer = source 500 }

abbrev second_request : Request ℕ ℕ
second_request = record { levels = pos 0; ids = codes "QQQ" ∷ spy ∷ []; answer = source 501 }

spy_seen : seen_text spy (unique_strings (spy ∷ spy ∷ [])) ≡ true
unfolding seen_text unique_strings
spy_seen = refl

spy_seen_again : seen_text spy (unique_strings (codes "QQQ" ∷ spy ∷ [])) ≡ true
unfolding seen_text unique_strings
spy_seen_again = refl

asked_keys-once_example :
    asked_times (key (pos 0) spy) (asked_keys (first_request ∷ second_request ∷ []) new_bundle) ≤ 1
asked_keys-once_example =
    asked_keys-once ℕ ℕ (first_request ∷ second_request ∷ []) (key (pos 0) spy)

bundle_call-agrees_example :
    find_value spy (bundle_call first_request new_bundle).0.0
    ≡ find_value spy
        (bundle_call second_request (bundle_calls [] (bundle_call first_request new_bundle).1)).0.0
bundle_call-agrees_example =
    bundle_call-agrees ℕ ℕ new_bundle first_request second_request [] spy tt (priced-IsAbout 501)
      refl spy_seen spy_seen_again

-- Each error is a cancellation.
abbrev always : ℕ → Bool
always e = true

abbrev empty_cache : TtlMarketCache ℕ ℕ
empty_cache = record { entries = []; fetched = []; failure = none; expiry = 0 }

-- A price of time 1000 and a time to live of 60: another symbol's fetch at 1050 keeps it until 1110.
abbrev after_spy : TtlMarketCache ℕ ℕ
after_spy = record {
  entries = (key (pos 0) spy, 500) ∷ [];
  fetched = key (pos 0) spy ∷ [];
  failure = none;
  expiry = 1060;
}

served_late :
    let c' = (ttl_call always 60 (source 501) (pos 0) (codes "QQQ" ∷ []) 1050 after_spy).1 in
    (ttl_call always 60 (source 502) (pos 0) (spy ∷ []) 1110 c').0.0 ≡ (spy, 500) ∷ []
unfolding ttl_call text_eq
served_late = refl

abbrev quote_of : Text → ℤ → ShockQuote
quote_of i change = record {
  id = i;
  label = i;
  price = pos 500000;
  change_pct = change;
  bid = pos 499990;
  ask = pos 500010;
  bid_size = pos 1000;
  ask_size = pos 1000;
  source = codes "IBKR";
  basis = codes "realtime";
  as_of = 1000;
}

-- The market falls by 3%, the VIX rises by 20%.
abbrev falling : List (Text × ShockQuote)
falling = (spy, quote_of spy (negsuc 2999)) ∷ (codes "VIX", quote_of (codes "VIX") (pos 20000)) ∷ []

abbrev thin : LiquidityDto
thin = build_liquidity_state falling [] 1000

build_liquidity_state-rows_example :
    All IsSound (build_liquidity_state falling [] 1000).rows
    × (map (λ r. r.id) (build_liquidity_state falling [] 1000).rows
        ≡ map (λ a. a.id) liquidity_assets)
    × ((build_liquidity_state falling [] 1000).warnings
        ≡ all_warnings falling (build_liquidity_state falling [] 1000).rows)
build_liquidity_state-rows_example = build_liquidity_state-rows falling [] 1000

build_regime_trigger_lem_example :
    let out = build_regime_trigger falling thin 1000 in
    (out.score ≡ min (total contribution_of out.confirmations) 100000)
    × All (λ c. 0 < c.contribution) out.confirmations
    × (length out.confirmations ≤ 8 + length thin.rows)
    × (out.triggered_view ≡ (if leb 55000 out.score then codes "shock" else []))
build_regime_trigger_lem_example = build_regime_trigger_lem falling thin 1000

falling_shocks : (build_regime_trigger falling thin 1000).triggered_view ≡ codes "shock"
unfolding build_regime_trigger text_eq build_liquidity_state
falling_shocks = refl
