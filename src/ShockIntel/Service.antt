-- ===== src/ShockIntel/Service.antt =====
-- The shock service (internal/shockintel/service.go). What the market source answers at each of its
-- calls of a kind, a context's timeout included, the clock, the texts of the errors and `sort.Slice`
-- are parameters. A bundle is a state: what its cache keeps of each kind with the identifiers of the
-- calls of the source, in their order, and how often the clock was read.
pub mod Once
pub mod Reports
mod Tests
use optix.Base.{ℕ, suc, Bool, List, [], ◌∷◌, ◌++◌, Option, none, some, map, length}
use optix.Base.Int.{ℤ, pos}
use optix.Base.Text.{Text, codes}
use optix.Base.Time.{Instant}
use optix.ShockIntel.Types.{ShockQuote, DepthSnapshot, value_at}
use optix.ShockIntel.Liquidity.{LiquidityDto, liquidity_assets, build_liquidity_state}
use optix.ShockIntel.Regime.{RegimeDto, build_regime_trigger}
use optix.ShockIntel.Fingerprint.{OptionStress, FingerprintDto, build_shock_fingerprint}
use optix.ShockIntel.Analogs.{
  AnalogRow, AnalogsDto, build_shock_vector, build_shock_analogs, default_analog_templates,
}
use optix.ShockIntel.Cache.Bundle.{BundleMarketCache, Request, asked_of, bundle_call, new_bundle}

-- An answer is of a kind, the number of the call, and its identifiers.
pub record MarketSource (E : Type 0) : Type 0 where
  pub quotes : ℕ → List Text → List (Text × ShockQuote) × Option E
  pub depth : ℕ → List Text → List (Text × DepthSnapshot) × Option E
  pub option_metrics : ℕ → List Text → List (Text × OptionStress) × Option E

-- What is kept of one kind.
pub record Kept (A E : Type 0) : Type 0 where
  pub cache : BundleMarketCache A E
  pub calls : List (List Text)

pub record BundleState (E : Type 0) : Type 0 where
  pub quotes : Kept ShockQuote E
  pub depth : Kept DepthSnapshot E
  pub options : Kept OptionStress E
  pub readings : ℕ

pub record BundleDto : Type 0 where
  pub regime : RegimeDto
  pub fingerprint : FingerprintDto
  pub analogs : AnalogsDto
  pub liquidity : LiquidityDto

abbrev pub shock_quote_ids : List Text
shock_quote_ids =
    codes "VIX"
    ∷ codes "SPY"
    ∷ codes "QQQ"
    ∷ codes "IWM"
    ∷ codes "TLT"
    ∷ codes "HYG"
    ∷ codes "LQD"
    ∷ codes "GLD"
    ∷ codes "USO"
    ∷ codes "UUP"
    ∷ codes "VIXY"
    ∷ codes "US10Y"
    ∷ []

abbrev pub option_stress_underlyings : List Text
option_stress_underlyings = codes "SPY" ∷ codes "QQQ" ∷ codes "IWM" ∷ codes "VIXY" ∷ []

abbrev pub liquidity_ids : List Text
liquidity_ids = map (λ a. a.id) liquidity_assets

abbrev note_call : List Text → List (List Text) → List (List Text)
note_call [] calls = calls
note_call (i ∷ is) calls = calls ++ (i ∷ is) ∷ []

-- A call of the cache in front of the source.
unfoldable pub cached_call :
    {A E : Type 0}
    → ℤ
    → (ℕ → List Text → List (Text × A) × Option E)
    → List Text
    → Kept A E
    → (List (Text × A) × Option E) × Kept A E
unfolding bundle_call asked_of
cached_call levels answer ids k =
    let r : Request _ _ = record { levels = levels; ids = ids; answer = answer (length k.calls) } in
    let (found, cache') = bundle_call r k.cache in
    (found, record { cache = cache'; calls = note_call (asked_of r k.cache) k.calls })

abbrev pub fresh : {A E : Type 0} → Kept A E
fresh = record { cache = new_bundle; calls = [] }

-- The options that the source has, in the order of the underlyings.
unfoldable pub options_of : List Text → List (Text × OptionStress) → List OptionStress
unfolding value_at
options_of [] metrics = []
options_of (u ∷ us) metrics =
    let rest = options_of us metrics in
    elim (value_at u metrics) [ none ↦ rest | some row ↦ row ∷ rest ]

module _ {E : Type 0} (source : Option (MarketSource E)) (error_text : E → Text)
    (clock : ℕ → Instant)
    (sort : (AnalogRow → AnalogRow → Bool) → List AnalogRow → List AnalogRow) where
  abbrev pub new_state : BundleState E
  new_state = record { quotes = fresh; depth = fresh; options = fresh; readings = 0 }

  abbrev pub tick : BundleState E → BundleState E
  tick s = record s { readings = suc s.readings }

  abbrev pub warning : Text → Option E → List Text
  warning about none = []
  warning about (some e) = (about ++ error_text e) ∷ []

  -- `quotes`
  unfoldable pub read_quotes :
      List Text → BundleState E → (List (Text × ShockQuote) × List Text) × BundleState E
  unfolding cached_call
  read_quotes ids s = elim source [
    | none ↦ (([], codes "quotes: shock source unavailable" ∷ []), s)
    | some m ↦
        let ((found, failure), k) = cached_call (pos 0) m.quotes ids s.quotes in
        ((found, warning (codes "quotes: ") failure), record s { quotes = k })
  ]

  -- The middle of Liquidity.
  unfoldable pub read_depth :
      BundleState E → (List (Text × DepthSnapshot) × List Text) × BundleState E
  unfolding cached_call
  read_depth s = elim source [
    | none ↦ (([], codes "depth: shock source unavailable" ∷ []), s)
    | some m ↦
        let ((found, failure), k) = cached_call (pos 5) m.depth liquidity_ids s.depth in
        ((found, warning (codes "depth: ") failure), record s { depth = k })
  ]

  -- `optionStress`
  unfoldable pub option_stress :
      List Text → BundleState E → (List OptionStress × List Text) × BundleState E
  unfolding cached_call options_of
  option_stress underlyings s = elim source [
    | none ↦ (([], codes "option stress: shock source unavailable" ∷ []), s)
    | some m ↦
        let ((metrics, failure), k) = cached_call (pos 0) m.option_metrics underlyings s.options in
        (
          (options_of underlyings metrics, warning (codes "option stress: ") failure),
          record s { options = k },
        )
  ]

  unfoldable pub liquidity_report : BundleState E → LiquidityDto × BundleState E
  unfolding read_quotes read_depth build_liquidity_state
  liquidity_report s =
      let now = clock s.readings in
      let ((quotes_, ws), s1) = read_quotes liquidity_ids (tick s) in
      let ((depth_, ws'), s2) = read_depth s1 in
      let out = build_liquidity_state quotes_ depth_ now in
      (record out { warnings = (ws ++ ws') ++ out.warnings }, s2)

  unfoldable pub regime_report : BundleState E → RegimeDto × BundleState E
  unfolding read_quotes liquidity_report build_regime_trigger
  regime_report s =
      let now = clock s.readings in
      let ((quotes_, ws), s1) = read_quotes shock_quote_ids (tick s) in
      let (liquidity_, s2) = liquidity_report s1 in
      let out = build_regime_trigger quotes_ liquidity_ now in
      (record out { warnings = ws ++ out.warnings }, s2)

  unfoldable pub fingerprint_report : BundleState E → FingerprintDto × BundleState E
  unfolding read_quotes liquidity_report option_stress build_shock_fingerprint
  fingerprint_report s =
      let now = clock s.readings in
      let ((quotes_, ws), s1) = read_quotes shock_quote_ids (tick s) in
      let (liquidity_, s2) = liquidity_report s1 in
      let ((options_, ws'), s3) = option_stress option_stress_underlyings s2 in
      let out = build_shock_fingerprint quotes_ liquidity_ options_ now in
      (record out { warnings = (ws ++ out.warnings) ++ ws' }, s3)

  unfoldable pub analogs_report : BundleState E → AnalogsDto × BundleState E
  unfolding read_quotes build_shock_vector build_shock_analogs default_analog_templates
  analogs_report s =
      let now = clock s.readings in
      let ((quotes_, ws), s1) = read_quotes shock_quote_ids (tick s) in
      let out =
        build_shock_analogs sort (build_shock_vector quotes_) default_analog_templates now in
      (record out { warnings = ws ++ out.warnings }, s1)

  -- `Regime` and `Fingerprint` of a service that is not within a bundle have a cache of their own.
  unfoldable pub lone_regime : RegimeDto
  unfolding regime_report
  lone_regime = (regime_report new_state).0

  unfoldable pub lone_fingerprint : FingerprintDto
  unfolding fingerprint_report
  lone_fingerprint = (fingerprint_report new_state).0

  unfoldable pub shock_bundle : BundleDto × BundleState E
  unfolding regime_report fingerprint_report analogs_report liquidity_report
  shock_bundle =
      let (regime_, s1) = regime_report new_state in
      let (fingerprint_, s2) = fingerprint_report s1 in
      let (analogs_, s3) = analogs_report s2 in
      let (liquidity_, s4) = liquidity_report s3 in
      (
        record {
          regime = regime_;
          fingerprint = fingerprint_;
          analogs = analogs_;
          liquidity = liquidity_;
        },
        s4,
      )
