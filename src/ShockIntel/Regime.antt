-- ===== src/ShockIntel/Regime.antt =====
-- The regime of a shock (internal/shockintel/regime.go). The unit of the VIX ratio is a tenth of that of
-- the percentages, and a weight is in tenths.
pub mod Score
use optix.Base.{
  ℕ, ◌+◌, ◌-◌, ◌*◌, Bool, true, false, ◌||◌, not, List, [], ◌∷◌, ◌++◌, Option, none, some, ltb, leb,
  if◌then◌else◌,
}
use optix.Base.Int.{ℤ, pos, ltb_ℤ, pos_part, neg_part}
use optix.Base.Text.{Text, text_eq, codes}
use optix.Base.Time.{Instant}
use optix.ShockIntel.Types.{ShockQuote, value_at, non_empty, aggregate_source}
use optix.ShockIntel.Liquidity.{
  LiquidityState, LiquidityRow, LiquidityDto, missing, severe, stressed,
}

pub data RegimeState : Type 0 where
  normal watch shock critical : RegimeState

pub record RegimeConfirmation : Type 0 where
  pub id : Text
  pub label : Text
  pub dimension : Text
  pub change_pct : ℤ
  pub weight : ℕ
  pub contribution : ℕ
  pub source : Text
  pub basis : Text
  pub as_of : Instant
  pub note : Text

pub record RegimeDto : Type 0 where
  pub as_of : Instant
  pub source : Text
  pub state : RegimeState
  pub score : ℕ
  pub vix_change_ratio : ℕ
  pub triggered_view : Text
  pub confirmations : List RegimeConfirmation
  pub warnings : List Text

abbrev pub min : ℕ → ℕ → ℕ
min a b = if ltb b a then b else a

-- The score and the confirmations so far.
pub record Evidence : Type 0 where
  pub score : ℕ
  pub confirmations : List RegimeConfirmation

abbrev pub no_evidence : Evidence
no_evidence = record { score = 0; confirmations = [] }

unfoldable pub confirmation : ShockQuote → Text → ℕ → ℕ → Text → RegimeConfirmation
confirmation q dimension weight contribution note = record {
  id = q.id;
  label = non_empty q.label q.id;
  dimension = dimension;
  change_pct = q.change_pct;
  weight = weight;
  contribution = contribution;
  source = q.source;
  basis = q.basis;
  as_of = q.as_of;
  note = note;
}

unfoldable pub confirmed : RegimeConfirmation → Evidence → Evidence
confirmed c e = record {
  score = e.score + c.contribution;
  confirmations = e.confirmations ++ c ∷ [];
}

-- `math.Max(0, vix.ChangePct/10)`, and 20 times that
abbrev pub vix_ratio : Option ShockQuote → ℕ
vix_ratio none = 0
vix_ratio (some q) = pos_part q.change_pct

unfoldable pub add_vix : Option ShockQuote → Evidence → Evidence
unfolding confirmation confirmed
add_vix none e = e
add_vix (some q) e =
    let c =
      confirmation q (codes "volatility") 12 (pos_part q.change_pct * 2)
        (codes "VIX change stress") in
    if ltb 0 (pos_part q.change_pct * 2) then confirmed c e else e

-- A quote whose change is at most `limit` below 0 adds a multiple of its size, up to a most.
unfoldable pub add_fall : ℕ → ℕ → ℕ → Text → Text → Option ShockQuote → Evidence → Evidence
unfolding confirmation confirmed
add_fall limit factor most dimension note none e = e
add_fall limit factor most dimension note (some q) e =
    let c = confirmation q dimension 10 (min (neg_part q.change_pct * factor) most) note in
    if leb limit (neg_part q.change_pct) then confirmed c e else e

unfoldable pub dimension_for : Text → Text
unfolding text_eq
dimension_for i =
    if text_eq i (codes "TLT") || text_eq i (codes "US10Y")
    then codes "rates"
    else if text_eq i (codes "UUP")
    then codes "dollar"
    else if text_eq i (codes "USO")
    then codes "oil"
    else if text_eq i (codes "GLD")
    then codes "gold"
    else codes "cross_asset"

-- A change of 1% or more, either way.
unfoldable pub add_cross : Text → Option ShockQuote → Evidence → Evidence
unfolding confirmation confirmed dimension_for
add_cross i none e = e
add_cross i (some q) e =
    let size = pos_part q.change_pct + neg_part q.change_pct in
    let c =
      confirmation q (dimension_for i) 8 (min (size * 3) 12000)
        (codes "cross-asset confirmation") in
    if leb 1000 size then confirmed c e else e

abbrev pub is_stressed : LiquidityState → Bool
is_stressed stressed = true
is_stressed severe = true
is_stressed missing = false
is_stressed LiquidityState.watch = false
is_stressed LiquidityState.normal = false

unfoldable pub add_row : LiquidityRow → Evidence → Evidence
unfolding confirmed
add_row row e =
    let c : RegimeConfirmation = record {
      id = row.id;
      label = non_empty row.label row.id;
      dimension = codes "liquidity";
      change_pct = pos 0;
      weight = 11;
      contribution = min (8000 + (pos_part row.spread_ratio - 1000) * 3) 22000;
      source = row.source;
      basis = row.basis;
      as_of = row.as_of;
      note = codes "spread/depth stress";
    } in
    if is_stressed row.state then confirmed c e else e

unfoldable pub add_rows : List LiquidityRow → Evidence → Evidence
unfolding add_row
add_rows [] e = e
add_rows (row ∷ rows) e = add_rows rows (add_row row e)

unfoldable pub add_equities : List (Text × ShockQuote) → List Text → Evidence → Evidence
unfolding add_fall value_at
add_equities quotes [] e = e
add_equities quotes (i ∷ is) e =
    add_equities quotes is
      (add_fall 1000 5 22000 (codes "equity") (codes "equity drawdown") (value_at i quotes) e)

unfoldable pub add_cross_assets : List (Text × ShockQuote) → List Text → Evidence → Evidence
unfolding add_cross value_at
add_cross_assets quotes [] e = e
add_cross_assets quotes (i ∷ is) e = add_cross_assets quotes is (add_cross i (value_at i quotes) e)

abbrev pub equities : List Text
equities = codes "SPY" ∷ codes "QQQ" ∷ []

abbrev pub cross_assets : List Text
cross_assets = codes "TLT" ∷ codes "UUP" ∷ codes "USO" ∷ codes "GLD" ∷ []

-- The VIX and the equities, the credit, the other assets, and the liquidity.
unfoldable pub gather_equities : List (Text × ShockQuote) → Evidence
unfolding add_vix add_equities
gather_equities quotes =
    add_equities quotes equities (add_vix (value_at (codes "VIX") quotes) no_evidence)

unfoldable pub gather_quotes : List (Text × ShockQuote) → Evidence
unfolding add_fall add_cross_assets gather_equities
gather_quotes quotes = add_cross_assets quotes cross_assets (
    add_fall 750 7 18000 (codes "credit") (codes "credit ETF weak") (value_at (codes "HYG") quotes)
      (gather_equities quotes))

unfoldable pub gather_evidence : List (Text × ShockQuote) → List LiquidityRow → Evidence
unfolding gather_quotes add_rows
gather_evidence quotes rows = add_rows rows (gather_quotes quotes)

-- The `switch` on the score, which is at most 100.
unfoldable pub regime_state : ℕ → RegimeState
regime_state s =
    if leb 80000 s
    then critical
    else if leb 55000 s
    then shock
    else if leb 25000 s
    then watch
    else normal

abbrev pub view_of_state : RegimeState → Text
view_of_state shock = codes "shock"
view_of_state critical = codes "shock"
view_of_state RegimeState.normal = []
view_of_state RegimeState.watch = []

abbrev vix_warnings : Option ShockQuote → List Text
vix_warnings none = codes "VIX quote missing" ∷ []
vix_warnings (some q) = []

unfoldable pub build_regime_trigger : List (Text × ShockQuote) → LiquidityDto → Instant → RegimeDto
unfolding gather_evidence regime_state aggregate_source
build_regime_trigger quotes liquidity as_of_ =
    let e = gather_evidence quotes liquidity.rows in
    let s = min e.score 100000 in
    record {
      as_of = as_of_;
      source = aggregate_source (codes "computed") quotes;
      state = regime_state s;
      score = s;
      vix_change_ratio = vix_ratio (value_at (codes "VIX") quotes);
      triggered_view = view_of_state (regime_state s);
      confirmations = e.confirmations;
      warnings = vix_warnings (value_at (codes "VIX") quotes);
    }
