-- ===== src/ShockIntel/Liquidity.antt =====
-- The state of the liquidity (internal/shockintel/liquidity.go).
pub mod Rows
use optix.Base.{
  ℕ, zero, suc, ◌+◌, ◌*◌, Bool, true, false, ◌&&◌, ◌||◌, not, List, [], ◌∷◌, ◌++◌, Option, none,
  some, ltb, if◌then◌else◌,
}
use optix.Base.Int.{ℤ, pos, ◌+ℤ◌, ◌-ℤ◌, ◌*ℤ◌, ltb_ℤ, eqb_ℤ, pos_part}
use optix.Base.Text.{Text, text_eq, codes}
use optix.Base.Time.{Instant, zero_time}
use optix.ShockIntel.Types.{
  ShockQuote, ShockDepthLevel, DepthSnapshot, value_at, over, non_empty, aggregate_source,
}

pub record LiquidityAsset : Type 0 where
  pub id : Text
  pub normal_spread_bps : ℕ

-- The labels are the identifiers.
abbrev pub liquidity_assets : List LiquidityAsset
liquidity_assets =
    record { id = codes "SPY"; normal_spread_bps = 4000 }
    ∷ record { id = codes "QQQ"; normal_spread_bps = 4000 }
    ∷ record { id = codes "IWM"; normal_spread_bps = 2000 }
    ∷ record { id = codes "TLT"; normal_spread_bps = 2000 }
    ∷ record { id = codes "HYG"; normal_spread_bps = 8000 }
    ∷ record { id = codes "LQD"; normal_spread_bps = 5000 }
    ∷ []

pub data LiquidityState : Type 0 where
  missing severe stressed watch normal : LiquidityState

pub record LiquidityRow : Type 0 where
  pub id : Text
  pub label : Text
  pub source : Text
  pub basis : Text
  pub as_of : Instant
  pub bid : ℤ
  pub ask : ℤ
  pub mid : ℤ
  pub spread_bps : ℤ
  pub normal_spread_bps : ℕ
  pub spread_ratio : ℤ
  pub top_bid_size : ℤ
  pub top_ask_size : ℤ
  pub top5_bid_depth : ℤ
  pub top5_ask_depth : ℤ
  pub depth_available : Bool
  pub state : LiquidityState
  pub is_missing : Bool
  pub note : Text

pub record LiquidityDto : Type 0 where
  pub as_of : Instant
  pub source : Text
  pub rows : List LiquidityRow
  pub warnings : List Text

-- `x > 0`
abbrev pub is_above_zero : ℤ → Bool
is_above_zero x = ltb_ℤ (pos 0) x

unfoldable pub midpoint : ℤ → ℤ → ℤ → ℤ
unfolding ◌+ℤ◌
midpoint price bid ask =
    if is_above_zero bid && is_above_zero ask then over (bid +ℤ ask) 2 else price

-- The numerator of the spread in its units: with `mid` written out, the fraction is that of twice the
-- difference over the sum. The spread has the sign of its numerator.
abbrev pub spread_part : ℤ → ℤ → ℤ
spread_part bid ask =
    if is_above_zero bid && is_above_zero ask then (ask -ℤ bid) *ℤ pos 20000000 else pos 0

unfoldable pub spread_bps_of : ℤ → ℤ → ℤ
unfolding ◌-ℤ◌ ◌*ℤ◌
spread_bps_of bid ask = over (spread_part bid ask) (pos_part bid + pos_part ask)

unfoldable pub spread_ratio_of : ℤ → ℕ → ℤ
unfolding ◌*ℤ◌
spread_ratio_of spread normal_ =
    if is_above_zero spread && ltb 0 normal_ then over (spread *ℤ pos 1000) normal_ else pos 0

unfoldable pub liquidity_state : ℤ → ℤ → LiquidityState
liquidity_state ratio spread =
    if not (ltb_ℤ ratio (pos 8000)) || not (ltb_ℤ spread (pos 75000))
    then severe
    else if not (ltb_ℤ ratio (pos 3500)) || not (ltb_ℤ spread (pos 20000))
    then stressed
    else if not (ltb_ℤ ratio (pos 2500))
    then watch
    else normal

-- The first levels of a side, `n` at most.
unfoldable pub depth_total : Text → ℕ → List ShockDepthLevel → ℤ
unfolding text_eq ◌+ℤ◌
depth_total side n [] = pos 0
depth_total side zero (l ∷ ls) = pos 0
depth_total side (suc n) (l ∷ ls) =
    let more = depth_total side n ls in
    let skipped = depth_total side (suc n) ls in
    if text_eq l.side side then l.size +ℤ more else skipped

unfoldable pub best_bid_ask : List ShockDepthLevel → ℤ → ℤ → ℤ × ℤ
unfolding text_eq
best_bid_ask [] bid ask = (bid, ask)
best_bid_ask (l ∷ ls) bid ask =
    if text_eq l.side (codes "bid")
    then best_bid_ask ls (if ltb_ℤ bid l.price then l.price else bid) ask
    else if text_eq l.side (codes "ask")
    then best_bid_ask ls bid (if eqb_ℤ ask (pos 0) || ltb_ℤ l.price ask then l.price else ask)
    else best_bid_ask ls bid ask

abbrev no_row : LiquidityAsset → LiquidityRow
no_row a = record {
  id = a.id;
  label = a.id;
  source = [];
  basis = [];
  as_of = zero_time;
  bid = pos 0;
  ask = pos 0;
  mid = pos 0;
  spread_bps = pos 0;
  normal_spread_bps = a.normal_spread_bps;
  spread_ratio = pos 0;
  top_bid_size = pos 0;
  top_ask_size = pos 0;
  top5_bid_depth = pos 0;
  top5_ask_depth = pos 0;
  depth_available = false;
  state = missing;
  is_missing = false;
  note = [];
}

unfoldable pub quoted_row : LiquidityAsset → ShockQuote → LiquidityRow
quoted_row a q = record (no_row a) {
  label = non_empty q.label a.id;
  source = q.source;
  basis = q.basis;
  as_of = q.as_of;
  bid = q.bid;
  ask = q.ask;
  top_bid_size = q.bid_size;
  top_ask_size = q.ask_size;
}

unfoldable pub with_levels : List ShockDepthLevel → LiquidityRow → LiquidityRow
unfolding depth_total best_bid_ask
with_levels levels row =
    let (bid, ask) = best_bid_ask levels (pos 0) (pos 0) in
    let is_quoted = is_above_zero row.bid && is_above_zero row.ask in
    record row {
      depth_available = true;
      top5_bid_depth = depth_total (codes "bid") 5 levels;
      top5_ask_depth = depth_total (codes "ask") 5 levels;
      bid = if is_quoted then row.bid else bid;
      ask = if is_quoted then row.ask else ask;
    }

unfoldable pub with_source : DepthSnapshot → LiquidityRow → LiquidityRow
unfolding text_eq
with_source d row =
    if text_eq d.source []
    then row
    else record row { source = d.source; basis = d.basis; as_of = d.as_of }

abbrev without_depth : LiquidityRow → LiquidityRow
without_depth row = record row { note = codes "depth unavailable" }

unfoldable pub with_depth : Option DepthSnapshot → LiquidityRow → LiquidityRow
unfolding with_levels with_source
with_depth none row = without_depth row
with_depth (some d) row = elim d.levels [
  | [] ↦ without_depth row
  | l ∷ ls ↦ with_source d (with_levels (l ∷ ls) row)
]

abbrev noted : Text → Text
noted [] = codes "bid/ask unavailable"
noted (c ∷ s) = (c ∷ s) ++ codes "; bid/ask unavailable"

-- The rows with a spread, and without.
unfoldable pub priced_row : LiquidityRow → LiquidityRow
unfolding spread_bps_of spread_ratio_of liquidity_state
priced_row row =
    let ratio = spread_ratio_of (spread_bps_of row.bid row.ask) row.normal_spread_bps in
    record row {
      spread_ratio = ratio;
      state = liquidity_state ratio (spread_bps_of row.bid row.ask);
    }

unfoldable pub unpriced_row : LiquidityRow → LiquidityRow
unpriced_row row = record row { is_missing = true; state = missing; note = noted row.note }

-- The row from its spread on, with the warning of that branch. `SpreadBps > 0` is tested of the spread
-- before it is cut to its units.
unfoldable pub finish_row : ShockQuote → LiquidityRow → LiquidityRow × List Text
unfolding midpoint priced_row unpriced_row
finish_row q row =
    let row' = record row {
      mid = midpoint q.price row.bid row.ask;
      spread_bps = spread_bps_of row.bid row.ask;
    } in
    if is_above_zero (spread_part row.bid row.ask)
    then (priced_row row', [])
    else (unpriced_row row', (row.id ++ codes ": bid/ask unavailable") ∷ [])

-- The row of an asset, and what is appended to the warnings with it.
unfoldable pub row_of_asset :
    List (Text × ShockQuote)
    → List (Text × DepthSnapshot)
    → LiquidityAsset
    → LiquidityRow × List Text
unfolding value_at quoted_row with_depth finish_row
row_of_asset quotes depth a = elim (value_at a.id quotes) [
  | none ↦ (
    record (no_row a) { is_missing = true; note = codes "quote missing" },
    (a.id ++ codes ": quote missing") ∷ [],
  )
  | some q ↦ finish_row q (with_depth (value_at a.id depth) (quoted_row a q))
]

-- The loop: the rows and the warnings, in the order in which they are appended.
unfoldable pub build_rows :
    List (Text × ShockQuote)
    → List (Text × DepthSnapshot)
    → List LiquidityAsset
    → List LiquidityRow × List Text
unfolding row_of_asset
build_rows quotes depth [] = ([], [])
build_rows quotes depth (a ∷ as_) =
    let (row, warned) = row_of_asset quotes depth a in
    let (rows, warnings) = build_rows quotes depth as_ in (row ∷ rows, warned ++ warnings)

unfoldable pub build_liquidity_state :
    List (Text × ShockQuote) → List (Text × DepthSnapshot) → Instant → LiquidityDto
unfolding build_rows aggregate_source
build_liquidity_state quotes depth as_of_ =
    let (rows_, warnings_) = build_rows quotes depth liquidity_assets in
    record {
      as_of = as_of_;
      source = aggregate_source (codes "computed") quotes;
      rows = rows_;
      warnings = warnings_;
    }
