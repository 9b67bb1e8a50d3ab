-- ===== src/ShockIntel/Service/Reports.antt =====
-- The four reports of a bundle, which are of one market.
use optix.Base.{ℕ, Bool, List, [], ◌∷◌, ◌++◌, Option, some, ◌≡◌}
use optix.Base.Int.{pos}
use optix.Base.Text.{Text, codes}
use optix.Base.Time.{Instant}
use optix.ShockIntel.Types.{ShockQuote, DepthSnapshot}
use optix.ShockIntel.Liquidity.{LiquidityDto, build_liquidity_state}
use optix.ShockIntel.Regime.{RegimeDto, build_regime_trigger}
use optix.ShockIntel.Fingerprint.{build_shock_fingerprint, OptionStress, FingerprintDto}
use optix.ShockIntel.Analogs.{
  AnalogRow, AnalogsDto, build_shock_vector, build_shock_analogs, default_analog_templates,
}
use optix.ShockIntel.Service.Once.{kept, answered, failed_with}
use optix.ShockIntel.Service.{
  MarketSource, Kept, BundleState, BundleDto, shock_quote_ids, option_stress_underlyings,
  liquidity_ids, cached_call, options_of, warning, shock_bundle,
}

abbrev report :
    {E : Type 0}
    → RegimeDto
    → FingerprintDto
    → AnalogsDto
    → LiquidityDto
    → BundleState E
    → BundleDto × BundleState E
report regime_ fingerprint_ analogs_ liquidity_ s = (
  record {
    regime = regime_;
    fingerprint = fingerprint_;
    analogs = analogs_;
    liquidity = liquidity_;
  },
  s,
)

module _ {E : Type 0} (m : MarketSource E) (error_text : E → Text) (clock : ℕ → Instant)
    (sort : (AnalogRow → AnalogRow → Bool) → List AnalogRow → List AnalogRow) where
  abbrev pub bundle : BundleDto × BundleState E
  bundle = shock_bundle (some m) error_text clock sort

  -- What the source answered, and the warnings of it.
  abbrev pub quotes_answered : List Text → List (Text × ShockQuote)
  quotes_answered ids = answered (pos 0) m.quotes shock_quote_ids ids

  abbrev pub depth_answered : List (Text × DepthSnapshot)
  depth_answered = answered (pos 5) m.depth liquidity_ids liquidity_ids

  abbrev pub options_answered : List OptionStress
  options_answered =
      options_of option_stress_underlyings
        (answered (pos 0) m.option_metrics option_stress_underlyings option_stress_underlyings)

  abbrev warning_of : Text → Option E → List Text
  warning_of about failure = warning (some m) error_text clock sort about failure

  abbrev pub quote_warnings : List Text
  quote_warnings = warning_of (codes "quotes: ") (failed_with (pos 0) m.quotes shock_quote_ids)

  abbrev pub depth_warnings : List Text
  depth_warnings = warning_of (codes "depth: ") (failed_with (pos 5) m.depth liquidity_ids)

  abbrev pub option_warnings : List Text
  option_warnings =
      warning_of (codes "option stress: ")
        (failed_with (pos 0) m.option_metrics option_stress_underlyings)

  -- The state once the quotes are there.
  abbrev state : Kept DepthSnapshot E → Kept OptionStress E → ℕ → BundleState E
  state d o n = record {
    quotes = kept (pos 0) m.quotes shock_quote_ids;
    depth = d;
    options = o;
    readings = n;
  }

  abbrev depth_kept : Kept DepthSnapshot E
  depth_kept = kept (pos 5) m.depth liquidity_ids

  abbrev options_kept : Kept OptionStress E
  options_kept = kept (pos 0) m.option_metrics option_stress_underlyings

  IsDepth : Kept DepthSnapshot E → Type 0
  IsDepth d =
      cached_call (pos 5) m.depth liquidity_ids d
      ≡ ((depth_answered, failed_with (pos 5) m.depth liquidity_ids), depth_kept)

  -- The report of the liquidity in a bundle, at a reading of the clock.
  abbrev pub liquidity_at : ℕ → LiquidityDto
  liquidity_at n =
      let out = build_liquidity_state (quotes_answered liquidity_ids) depth_answered (clock n) in
      record out { warnings = (quote_warnings ++ depth_warnings) ++ out.warnings }

  -- The other reports.
  abbrev pub regime_of : LiquidityDto → RegimeDto
  regime_of liquidity_ =
      let out = build_regime_trigger (quotes_answered shock_quote_ids) liquidity_ (clock 0) in
      record out { warnings = quote_warnings ++ out.warnings }

  abbrev pub fingerprint_of : LiquidityDto → FingerprintDto
  fingerprint_of liquidity_ =
      let out =
        build_shock_fingerprint (quotes_answered shock_quote_ids) liquidity_ options_answered
          (clock 2) in
      record out { warnings = (quote_warnings ++ out.warnings) ++ option_warnings }

  abbrev pub analogs_of : AnalogsDto
  analogs_of =
      let out =
        build_shock_analogs sort (build_shock_vector (quotes_answered shock_quote_ids))
          default_analog_templates (clock 4) in
      record out { warnings = quote_warnings ++ out.warnings }

  -- The calls of the source, and what the reports are of.
  abbrev pub IsOneMarket : Type 0
  IsOneMarket =
      (bundle.1.quotes.calls ≡ shock_quote_ids ∷ [])
      × (bundle.1.depth.calls ≡ liquidity_ids ∷ [])
      × (bundle.1.options.calls ≡ option_stress_underlyings ∷ [])
      × (bundle.0.regime ≡ regime_of bundle.0.liquidity)
      × (bundle.0.fingerprint ≡ fingerprint_of bundle.0.liquidity)
      × (bundle.0.analogs ≡ analogs_of)
      × (bundle.0.liquidity ≡ liquidity_at 5)
