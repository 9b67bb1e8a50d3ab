-- ===== src/ShockIntel/Regime/Score.antt =====
-- The score of a regime, as the sum of its confirmations.
use optix.Base.{
  ℕ, ◌+◌, ◌≡◌, ◌≤◌, ◌<◌, refl, ap, Bool, true, false, List, [], ◌∷◌, Option, none, some, arith, leb,
  if◌then◌else◌, All, All-append, length, length-append, total, total-append,
}
use native.Mathlib.Nat.{mul-pos}
use optix.Base.Int.{neg_part}
use optix.Base.Text.{Text, codes}
use optix.Base.Time.{Instant}
use optix.ShockIntel.Types.{ShockQuote, value_at}
use optix.ShockIntel.Liquidity.{LiquidityRow, LiquidityDto}
use optix.ShockIntel.Regime.{
  RegimeConfirmation, Evidence, no_evidence, min, confirmation, confirmed, add_vix, add_fall,
  add_cross, add_row, add_rows, add_equities, add_cross_assets, equities, cross_assets,
  gather_equities, gather_quotes, gather_evidence, regime_state, view_of_state,
  build_regime_trigger,
}

abbrev pub contribution_of : RegimeConfirmation → ℕ
contribution_of c = c.contribution

-- The score is the sum, every part of it is more than 0, and there are at most `n` of them.
abbrev IsBalanced : ℕ → Evidence → Type 0
IsBalanced n e =
    (e.score ≡ total contribution_of e.confirmations)
    × All (λ c. 0 < c.contribution) e.confirmations
    × (length e.confirmations ≤ n)

confirmed-IsBalanced :
    (n : ℕ) (c : RegimeConfirmation) (e : Evidence)
    → 0 < c.contribution
    → IsBalanced n e
    → IsBalanced (n + 1) (confirmed c e)
unfolding confirmed
confirmed-IsBalanced n c e h (sum, positive, few) = (
  omega (arith, sum, total-append contribution_of e.confirmations (c ∷ [])),
  All-append (λ x. 0 < x.contribution) e.confirmations (c ∷ []) positive (h, tt),
  omega (arith, few, length-append e.confirmations (c ∷ [])),
)

-- A confirmation that is added under a test.
either-IsBalanced :
    (n : ℕ) (b : Bool) (c : RegimeConfirmation) (e : Evidence)
    → (b ≡ true → 0 < c.contribution)
    → IsBalanced n e
    → IsBalanced (n + 1) (if b then confirmed c e else e)
either-IsBalanced n true c e h k = confirmed-IsBalanced n c e (h refl) k
either-IsBalanced n false c e h (sum, positive, few) = (sum, positive, omega (arith, few))

more : (n : ℕ) (e : Evidence) → IsBalanced n e → IsBalanced (n + 1) e
more n e (sum, positive, few) = (sum, positive, omega (arith, few))

add_vix-IsBalanced :
    (n : ℕ) (q : Option ShockQuote) (e : Evidence)
    → IsBalanced n e
    → IsBalanced (n + 1) (add_vix q e)
unfolding add_vix confirmation
add_vix-IsBalanced n none e h = more n e h
add_vix-IsBalanced n (some q) e h = either-IsBalanced n _ _ e (λ k. ground (arith, k)) h

add_fall-IsBalanced :
    (n limit factor most : ℕ) (d note : Text) (q : Option ShockQuote) (e : Evidence)
    → 0 < limit
    → 0 < factor
    → 0 < most
    → IsBalanced n e
    → IsBalanced (n + 1) (add_fall limit factor most d note q e)
unfolding add_fall confirmation
add_fall-IsBalanced n limit factor most d note none e l f m h = more n e h
add_fall-IsBalanced n limit factor most d note (some q) e l f m h =
    either-IsBalanced n _ _ e
      (λ k.
        ground
          (arith, mul-pos {m = neg_part q.change_pct} {n = factor} (ground (arith, k, l)) f, m))
      h

add_cross-IsBalanced :
    (n : ℕ) (i : Text) (q : Option ShockQuote) (e : Evidence)
    → IsBalanced n e
    → IsBalanced (n + 1) (add_cross i q e)
unfolding add_cross confirmation
add_cross-IsBalanced n i none e h = more n e h
add_cross-IsBalanced n i (some q) e h = either-IsBalanced n _ _ e (λ k. ground (arith, k)) h

add_row-IsBalanced :
    (n : ℕ) (row : LiquidityRow) (e : Evidence)
    → IsBalanced n e
    → IsBalanced (n + 1) (add_row row e)
unfolding add_row
add_row-IsBalanced n row e h = either-IsBalanced n _ _ e (λ k. ground arith) h

add_rows-IsBalanced :
    (n : ℕ) (rows : List LiquidityRow) (e : Evidence)
    → IsBalanced n e
    → IsBalanced (n + length rows) (add_rows rows e)
unfolding add_rows
add_rows-IsBalanced n [] e h = (h.0, h.1, omega (arith, h.2))
add_rows-IsBalanced n (row ∷ rows) e h =
    let (sum, positive, few) =
      add_rows-IsBalanced (n + 1) rows (add_row row e) (add_row-IsBalanced n row e h) in
    (sum, positive, omega (arith, few))

module _ (quotes : List (Text × ShockQuote)) where
  add_equities-IsBalanced :
      (n : ℕ) (is : List Text) (e : Evidence)
      → IsBalanced n e
      → IsBalanced (n + length is) (add_equities quotes is e)
  unfolding add_equities
  add_equities-IsBalanced n [] e h = (h.0, h.1, omega (arith, h.2))
  add_equities-IsBalanced n (i ∷ is) e h =
      let (sum, positive, few) =
        add_equities-IsBalanced (n + 1) is
          (add_fall 1000 5 22000 (codes "equity") (codes "equity drawdown") (value_at i quotes) e)
          (add_fall-IsBalanced n 1000 5 22000 (codes "equity") (codes "equity drawdown")
            (value_at i quotes) e (omega arith) (omega arith) (omega arith) h) in
      (sum, positive, omega (arith, few))

  add_cross_assets-IsBalanced :
      (n : ℕ) (is : List Text) (e : Evidence)
      → IsBalanced n e
      → IsBalanced (n + length is) (add_cross_assets quotes is e)
  unfolding add_cross_assets
  add_cross_assets-IsBalanced n [] e h = (h.0, h.1, omega (arith, h.2))
  add_cross_assets-IsBalanced n (i ∷ is) e h =
      let (sum, positive, few) =
        add_cross_assets-IsBalanced (n + 1) is (add_cross i (value_at i quotes) e)
          (add_cross-IsBalanced n i (value_at i quotes) e h) in
      (sum, positive, omega (arith, few))

  gather_equities-IsBalanced : IsBalanced 3 (gather_equities quotes)
  unfolding gather_equities
  gather_equities-IsBalanced =
      add_equities-IsBalanced 1 equities (add_vix (value_at (codes "VIX") quotes) no_evidence)
        (add_vix-IsBalanced 0 (value_at (codes "VIX") quotes) no_evidence (refl, tt, omega arith))

  gather_quotes-IsBalanced : IsBalanced 8 (gather_quotes quotes)
  unfolding gather_quotes
  gather_quotes-IsBalanced =
      let credit =
        add_fall 750 7 18000 (codes "credit") (codes "credit ETF weak")
          (value_at (codes "HYG") quotes) (gather_equities quotes) in
      add_cross_assets-IsBalanced 4 cross_assets credit (
        add_fall-IsBalanced 3 750 7 18000 (codes "credit") (codes "credit ETF weak")
          (value_at (codes "HYG") quotes) (gather_equities quotes) (omega arith) (omega arith)
          (omega arith) gather_equities-IsBalanced)

  gather_evidence-IsBalanced :
      (rows : List LiquidityRow) → IsBalanced (8 + length rows) (gather_evidence quotes rows)
  unfolding gather_evidence
  gather_evidence-IsBalanced rows =
      add_rows-IsBalanced 8 rows (gather_quotes quotes) gather_quotes-IsBalanced

view_of_state_lem :
    (s : ℕ) → view_of_state (regime_state s) ≡ (if leb 55000 s then codes "shock" else [])
unfolding regime_state
view_of_state_lem s = ground arith

-- The score of a regime is the sum of what its confirmations contribute, cut to 100; each of them
-- contributes more than 0, and there are at most eight beside those of the rows of the liquidity. The view
-- is the shock view from a score of 55 on, and none below it.
pub build_regime_trigger_lem :
    (quotes : List (Text × ShockQuote)) (liquidity : LiquidityDto) (now : Instant)
    → let out = build_regime_trigger quotes liquidity now in
      (out.score ≡ min (total contribution_of out.confirmations) 100000)
      × All (λ c. 0 < c.contribution) out.confirmations
      × (length out.confirmations ≤ 8 + length liquidity.rows)
      × (out.triggered_view ≡ (if leb 55000 out.score then codes "shock" else []))
unfolding build_regime_trigger
build_regime_trigger_lem quotes liquidity now =
    let (sum, positive, few) = gather_evidence-IsBalanced quotes liquidity.rows in
    (
      ap (λ s. min s 100000) sum,
      positive,
      few,
      view_of_state_lem (min (gather_evidence quotes liquidity.rows).score 100000),
    )
