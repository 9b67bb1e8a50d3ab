-- ===== src/ShockIntel/Liquidity/Rows.antt =====
-- What a row of the liquidity says of its asset.
use optix.Base.{
  ◌≡◌, refl, sym, ◌∙◌, ap, ap₂, subst, Bool, true, false, ◌&&◌, not, List, [], ◌∷◌, ◌++◌, inl, inr,
  Option, none, some, arith, if◌then◌else◌, Bool-cases, Option-cases, All, map,
}
use optix.Base.Int.{ℤ, pos, negsuc, ltb_ℤ, ◌-ℤ◌, ◌*ℤ◌}
use optix.Base.Text.{Text, codes}
use optix.Base.Time.{Instant}
use optix.ShockIntel.Types.{ShockQuote, DepthSnapshot, value_at}
use optix.ShockIntel.Liquidity.{
  LiquidityAsset, LiquidityRow, no_row, missing, is_above_zero, spread_part, liquidity_assets,
  liquidity_state, spread_bps_of, spread_ratio_of, finish_row, priced_row, unpriced_row, midpoint,
  quoted_row, with_depth, with_levels, with_source, row_of_asset, build_rows, build_liquidity_state,
}

-- A market: a bid and an ask above 0, and the bid below the ask.
abbrev pub is_market : ℤ → ℤ → Bool
is_market bid ask = is_above_zero bid && is_above_zero ask && ltb_ℤ bid ask

-- A row is missing where it shows no market, and has the state of its spread where it shows one.
abbrev pub IsSound : LiquidityRow → Type 0
IsSound r =
    (r.is_missing ≡ not (is_market r.bid r.ask))
    × (r.state ≡ (
        if is_market r.bid r.ask
        then liquidity_state (spread_ratio_of (spread_bps_of r.bid r.ask) r.normal_spread_bps)
            (spread_bps_of r.bid r.ask)
        else missing))

-- The warnings of a row: none of one with a market, and else what the asset lacks.
abbrev pub warnings_of : List (Text × ShockQuote) → LiquidityRow → List Text
warnings_of quotes r =
    if is_market r.bid r.ask
    then []
    else (r.id ++ (elim (value_at r.id quotes) [
      | none ↦ codes ": quote missing"
      | some q ↦ codes ": bid/ask unavailable"
    ]))
      ∷ []

abbrev pub all_warnings : List (Text × ShockQuote) → List LiquidityRow → List Text
all_warnings quotes [] = []
all_warnings quotes (r ∷ rs) = warnings_of quotes r ++ all_warnings quotes rs

spread_part-is_market : (bid ask : ℤ) → is_above_zero (spread_part bid ask) ≡ is_market bid ask
unfolding ◌-ℤ◌ ◌*ℤ◌
spread_part-is_market (pos a) (pos b) = ground arith
spread_part-is_market (pos a) (negsuc b) = ground arith
spread_part-is_market (negsuc a) (pos b) = ground arith
spread_part-is_market (negsuc a) (negsuc b) = ground arith

with_depth-kept :
    (d : Option DepthSnapshot) (row : LiquidityRow)
    → ((with_depth d row).is_missing ≡ row.is_missing) × ((with_depth d row).id ≡ row.id)
unfolding with_depth with_levels with_source
with_depth-kept d row = ground arith

module _ (quotes : List (Text × ShockQuote)) (depth : List (Text × DepthSnapshot)) where
  -- What is said of a row and its warnings.
  abbrev IsTold : Text → LiquidityRow × List Text → Type 0
  IsTold i (r, ws) = IsSound r × (r.id ≡ i) × (ws ≡ warnings_of quotes r)

  finish_row-IsTold :
      (q q' : ShockQuote) (row : LiquidityRow)
      → row.is_missing ≡ false
      → value_at row.id quotes ≡ some q'
      → IsTold row.id (finish_row q row)
  finish_row-IsTold q q' row h k =
      let row' = record row {
        mid = midpoint q.price row.bid row.ask;
        spread_bps = spread_bps_of row.bid row.ask;
      } in
      let told : Text = row.id ++ codes ": bid/ask unavailable" in
      let tested = spread_part-is_market row.bid row.ask in
      elim (Bool-cases (is_market row.bid row.ask)) [
        | inl e ↦
            let same : finish_row q row ≡ (priced_row row', []) =
              unfold finish_row in rw (tested ∙ e) refl in
            subst (IsTold row.id) (sym same)
              (unfold priced_row in ((rw e h, rw e refl), refl, rw e refl))
        | inr e ↦
            let same : finish_row q row ≡ (unpriced_row row', told ∷ []) =
              unfold finish_row in rw (tested ∙ e) refl in
            subst (IsTold row.id) (sym same)
              (unfold unpriced_row in ((rw e refl, rw e refl), refl, rw (e, k) refl))
      ]

  row-IsTold : (a : LiquidityAsset) → IsTold a.id (row_of_asset quotes depth a)
  unfolding row_of_asset
  row-IsTold a = elim (Option-cases (value_at a.id quotes)) [
    | inl e ↦
        let row = record (no_row a) { is_missing = true; note = codes "quote missing" } in
        let same : row_of_asset quotes depth a ≡ (row, (a.id ++ codes ": quote missing") ∷ []) =
          rw (e, row_of_asset) refl in
        let said : (a.id ++ codes ": quote missing") ∷ [] ≡ warnings_of quotes row = rw e refl in
        subst (IsTold a.id) (sym same) ((refl, refl), refl, said)
    | inr (q, e) ↦
        let row = with_depth (value_at a.id depth) (quoted_row a q) in
        let (shown, named) = with_depth-kept (value_at a.id depth) (quoted_row a q) in
        let shown' : row.is_missing ≡ false = unfold quoted_row in shown in
        let named' : row.id ≡ a.id = unfold quoted_row in named in
        let same : row_of_asset quotes depth a ≡ finish_row q row = rw (e, row_of_asset) refl in
        subst (IsTold a.id) (sym same) (
          subst (λ i. IsTold i (finish_row q row)) named'
            (finish_row-IsTold q q row shown' (ap (λ i. value_at i quotes) named' ∙ e)))
  ]

  build_rows_lem :
      (as_ : List LiquidityAsset)
      → let (rs, ws) = build_rows quotes depth as_ in
        All IsSound rs × (map (λ r. r.id) rs ≡ map (λ a. a.id) as_) × (ws ≡ all_warnings quotes rs)
  unfolding build_rows
  build_rows_lem [] = (tt, refl, refl)
  build_rows_lem (a ∷ as_) =
      let (one, named, told) = row-IsTold a in
      let (more, names, warned) = build_rows_lem as_ in
      ((one, more), ap₂ ◌∷◌ named names, ap₂ ◌++◌ told warned)

-- The state of the liquidity has one row for each asset, in their order. A row is missing exactly if
-- it does not show a bid and an ask above 0 with the bid below the ask, and has the state of one
-- then; any other row has the state of its spread. The warnings are, in the order of the rows, one
-- for each row that is missing, with its identifier and with what is lacking: the quote, or a bid and
-- an ask.
pub build_liquidity_state-rows :
    (quotes : List (Text × ShockQuote)) (depth : List (Text × DepthSnapshot)) (now : Instant)
    → let out = build_liquidity_state quotes depth now in
      All IsSound out.rows
      × (map (λ r. r.id) out.rows ≡ map (λ a. a.id) liquidity_assets)
      × (out.warnings ≡ all_warnings quotes out.rows)
unfolding build_liquidity_state
build_liquidity_state-rows quotes depth now = build_rows_lem quotes depth liquidity_assets
