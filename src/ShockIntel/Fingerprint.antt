-- ===== src/ShockIntel/Fingerprint.antt =====
-- The fingerprint of a shock (internal/shockintel/fingerprint.go). Points are whole; the normalised
-- score is the score over 100.
pub mod Points
use optix.Base.{
  ℕ, ◌+◌, Bool, true, false, ◌&&◌, ◌||◌, not, List, [], ◌∷◌, ◌++◌, Option, none, some, leb,
  if◌then◌else◌,
}
use optix.Base.Int.{ℤ, pos, negsuc, ltb_ℤ}
use optix.Base.Text.{Text, text_eq, codes}
use optix.Base.Time.{Instant}
use optix.ShockIntel.Types.{ShockQuote, value_at, aggregate_source}
use optix.ShockIntel.Liquidity.{LiquidityState, LiquidityRow, LiquidityDto}
use optix.ShockIntel.Regime.{min, is_stressed}

pub record OptionStress : Type 0 where
  pub underlying : Text
  pub missing_metrics : List Text
  pub iv_skew : ℤ

pub record FingerprintRow : Type 0 where
  pub kind : Text
  pub label : Text
  pub score : ℕ
  pub active : Bool
  pub evidence : List Text
  pub missing : List Text

pub record FingerprintDto : Type 0 where
  pub as_of : Instant
  pub source : Text
  pub rows : List FingerprintRow
  pub option_stress : List OptionStress
  pub warnings : List Text

-- A rule of addIf: what it looks at, the threshold and its side, the points, and the evidence.
pub record Rule : Type 0 where
  pub id : Text
  pub threshold : ℤ
  pub above : Bool
  pub points : ℕ
  pub evidence : Text

abbrev pub rule : Text → ℤ → Bool → ℕ → Text → Rule
rule i t b n e = record { id = i; threshold = t; above = b; points = n; evidence = e }

-- `q.ChangePct >= threshold`, or `<=` below
abbrev pub passes : Rule → ℤ → Bool
passes r x = if r.above then not (ltb_ℤ x r.threshold) else not (ltb_ℤ r.threshold x)

abbrev pub scored : ℕ → Text → FingerprintRow → FingerprintRow
scored n e row = record row { score = row.score + n; evidence = row.evidence ++ e ∷ [] }

abbrev pub lacking : Text → FingerprintRow → FingerprintRow
lacking m row = record row { missing = row.missing ++ m ∷ [] }

unfoldable pub add_if : Rule → Option ShockQuote → FingerprintRow → FingerprintRow
add_if r none row = lacking r.id row
add_if r (some q) row = if passes r q.change_pct then scored r.points r.evidence row else row

unfoldable pub add_all : List (Text × ShockQuote) → List Rule → FingerprintRow → FingerprintRow
unfolding add_if value_at
add_all quotes [] row = row
add_all quotes (r ∷ rs) row = add_all quotes rs (add_if r (value_at r.id quotes) row)

abbrev pub empty_row : Text → Text → FingerprintRow
empty_row kind_ label_ = record {
  kind = kind_;
  label = label_;
  score = 0;
  active = false;
  evidence = [];
  missing = [];
}

abbrev pub supply_rules : List Rule
supply_rules =
    rule (codes "USO") (pos 3000) true 35 (codes "oil up")
    ∷ rule (codes "US10Y") (pos 750) true 25 (codes "rates up")
    ∷ rule (codes "UUP") (pos 750) true 20 (codes "dollar up")
    ∷ rule (codes "GLD") (pos 500) true 10 (codes "gold firm")
    ∷ []

abbrev pub demand_rules : List Rule
demand_rules =
    rule (codes "SPY") (negsuc 999) false 25 (codes "equities down")
    ∷ rule (codes "QQQ") (negsuc 999) false 20 (codes "growth down")
    ∷ rule (codes "HYG") (negsuc 749) false 25 (codes "credit weak")
    ∷ rule (codes "USO") (negsuc 1999) false 20 (codes "oil down")
    ∷ []

abbrev pub liquidity_rules : List Rule
liquidity_rules =
    rule (codes "VIX") (pos 10000) true 30 (codes "VIX up")
    ∷ rule (codes "HYG") (negsuc 749) false 25 (codes "credit ETF weak")
    ∷ []

abbrev pub policy_rules : List Rule
policy_rules =
    rule (codes "US10Y") (pos 750) true 35 (codes "rates up")
    ∷ rule (codes "UUP") (pos 750) true 25 (codes "dollar up")
    ∷ rule (codes "SPY") (negsuc 999) false 20 (codes "equities down")
    ∷ rule (codes "QQQ") (negsuc 999) false 20 (codes "growth down")
    ∷ []

unfoldable pub score_supply : List (Text × ShockQuote) → FingerprintRow
unfolding add_all
score_supply quotes =
    add_all quotes supply_rules (empty_row (codes "supply") (codes "Supply shock"))

unfoldable pub score_demand : List (Text × ShockQuote) → FingerprintRow
unfolding add_all
score_demand quotes =
    add_all quotes demand_rules (empty_row (codes "demand") (codes "Demand shock"))

unfoldable pub score_policy : List (Text × ShockQuote) → FingerprintRow
unfolding add_all
score_policy quotes =
    add_all quotes policy_rules (empty_row (codes "policy") (codes "Policy shock"))

-- The first row of the liquidity that is stressed ends the loop.
unfoldable pub add_liquidity : List LiquidityRow → FingerprintRow → FingerprintRow
add_liquidity [] row = row
add_liquidity (l ∷ ls) row =
    let rest = add_liquidity ls row in
    if is_stressed l.state || not (ltb_ℤ l.spread_ratio (pos 3500))
    then scored 35 (l.id ++ codes " spread/depth stressed") row
    else rest

unfoldable pub add_missing : Text → List Text → FingerprintRow → FingerprintRow
add_missing u [] row = row
add_missing u (m ∷ ms) row = add_missing u ms (lacking (u ++ codes " " ++ m) row)

-- `slices.Contains`
unfoldable pub contains : List Text → Text → Bool
unfolding text_eq
contains [] t = false
contains (u ∷ us) t = text_eq u t || contains us t

-- The loop over the options; the flag tells that an elevated skew was found.
unfoldable pub add_options : Bool → List OptionStress → FingerprintRow → FingerprintRow
unfolding add_missing contains
add_options elevated [] row = row
add_options elevated (o ∷ os) row =
    let row' = add_missing o.underlying o.missing_metrics row in
    let found =
      add_options true os (scored 20 (o.underlying ++ codes " option IV skew elevated") row') in
    let rest = add_options elevated os row' in
    if not elevated
      && not (contains o.missing_metrics (codes "iv_skew"))
      && not (ltb_ℤ o.iv_skew (pos 50))
    then found
    else rest

abbrev lacking_if_none : {A : Type 0} → List A → Text → FingerprintRow → FingerprintRow
lacking_if_none [] m row = lacking m row
lacking_if_none (x ∷ xs) m row = row

unfoldable pub score_liquidity :
    List (Text × ShockQuote) → List LiquidityRow → List OptionStress → FingerprintRow
unfolding add_all add_liquidity add_options
score_liquidity quotes rows options = add_options false options (
    lacking_if_none options (codes "option stress") (
      lacking_if_none rows (codes "liquidity") (
        add_liquidity rows (
          add_all quotes liquidity_rules
            (empty_row (codes "liquidity") (codes "Liquidity shock"))))))

-- The clamp, and the flag.
unfoldable pub finish_fingerprint : FingerprintRow → FingerprintRow
finish_fingerprint row = record row {
  score = min row.score 100;
  active = leb 50 (min row.score 100);
}

unfoldable pub build_shock_fingerprint :
    List (Text × ShockQuote) → LiquidityDto → List OptionStress → Instant → FingerprintDto
unfolding score_supply score_demand score_liquidity score_policy finish_fingerprint aggregate_source
build_shock_fingerprint quotes liquidity options as_of_ = record {
  as_of = as_of_;
  source = aggregate_source (codes "computed") quotes;
  rows =
      finish_fingerprint (score_supply quotes)
      ∷ finish_fingerprint (score_demand quotes)
      ∷ finish_fingerprint (score_liquidity quotes liquidity.rows options)
      ∷ finish_fingerprint (score_policy quotes)
      ∷ [];
  option_stress = options;
  warnings = [];
}
