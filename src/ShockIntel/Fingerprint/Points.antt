-- ===== src/ShockIntel/Fingerprint/Points.antt =====
-- Where the points of a fingerprint come from.
use optix.Base.{
  ℕ, ◌+◌, ◌≡◌, ◌≤◌, refl, ap, List, [], ◌∷◌, Option, none, some, arith, leb, if◌then◌else◌,
  Bool-cases, inl, inr, length, length-append, total,
}
use optix.Base.Text.{Text, codes}
use optix.Base.Time.{Instant}
use optix.ShockIntel.Types.{ShockQuote, value_at}
use optix.ShockIntel.Liquidity.{LiquidityDto}
use optix.ShockIntel.Regime.{min}
use optix.ShockIntel.Fingerprint.{
  OptionStress, FingerprintRow, Rule, passes, add_if, add_all, empty_row, supply_rules,
  demand_rules, policy_rules, score_supply, score_demand, score_liquidity, score_policy,
  finish_fingerprint, build_shock_fingerprint,
}

-- The points of a rule, the count of its evidence, and the count of what it lacks.
abbrev points_on : Rule → Option ShockQuote → ℕ
points_on r none = 0
points_on r (some q) = if passes r q.change_pct then r.points else 0

abbrev passed_on : Rule → Option ShockQuote → ℕ
passed_on r none = 0
passed_on r (some q) = if passes r q.change_pct then 1 else 0

abbrev lacked_on : Rule → Option ShockQuote → ℕ
lacked_on r none = 1
lacked_on r (some q) = 0

abbrev pub points_of : List (Text × ShockQuote) → Rule → ℕ
points_of quotes r = points_on r (value_at r.id quotes)

abbrev pub passed_by : List (Text × ShockQuote) → Rule → ℕ
passed_by quotes r = passed_on r (value_at r.id quotes)

abbrev pub unquoted : List (Text × ShockQuote) → Rule → ℕ
unquoted quotes r = lacked_on r (value_at r.id quotes)

add_if_lem :
    (r : Rule) (o : Option ShockQuote) (row : FingerprintRow)
    → let out = add_if r o row in
      (out.score ≡ row.score + points_on r o)
      × (length out.evidence ≡ length row.evidence + passed_on r o)
      × (length out.missing ≡ length row.missing + lacked_on r o)
unfolding add_if
add_if_lem r none row = (omega arith, omega arith, length-append row.missing (r.id ∷ []))
add_if_lem r (some q) row = elim (Bool-cases (passes r q.change_pct)) [
  | inl e ↦ rw e (refl, length-append row.evidence (r.evidence ∷ []), omega arith)
  | inr e ↦ rw e (omega arith, omega arith, omega arith)
]

add_all_lem :
    (quotes : List (Text × ShockQuote)) (rs : List Rule) (row : FingerprintRow)
    → let out = add_all quotes rs row in
      (out.score ≡ row.score + total (points_of quotes) rs)
      × (length out.evidence ≡ length row.evidence + total (passed_by quotes) rs)
      × (length out.missing ≡ length row.missing + total (unquoted quotes) rs)
unfolding add_all
add_all_lem quotes [] row = (omega arith, omega arith, omega arith)
add_all_lem quotes (r ∷ rs) row =
    let (s, e, m) = add_if_lem r (value_at r.id quotes) row in
    let (s', e', m') = add_all_lem quotes rs (add_if r (value_at r.id quotes) row) in
    (omega (arith, s, s'), omega (arith, e, e'), omega (arith, m, m'))

points-most : (r : Rule) (o : Option ShockQuote) → points_on r o ≤ r.points
points-most r none = omega arith
points-most r (some q) = elim (Bool-cases (passes r q.change_pct)) [
  | inl e ↦ rw e (omega arith)
  | inr e ↦ rw e (omega arith)
]

points-total :
    (quotes : List (Text × ShockQuote)) (rs : List Rule)
    → total (points_of quotes) rs ≤ total (λ r. r.points) rs
points-total quotes [] = omega arith
points-total quotes (r ∷ rs) =
    omega (arith, points-total quotes rs, points-most r (value_at r.id quotes))

-- The score of a row is the sum of the points of the rules that its quotes pass; it is active from 50 points
-- on; there is one piece of evidence for each of those rules, and a missing one for each rule without
-- a quote.
abbrev pub IsScored : List (Text × ShockQuote) → List Rule → FingerprintRow → Type 0
IsScored quotes rules row =
    (row.score ≡ total (points_of quotes) rules)
    × (row.active ≡ leb 50 (total (points_of quotes) rules))
    × (length row.evidence ≡ total (passed_by quotes) rules)
    × (length row.missing ≡ total (unquoted quotes) rules)

finish-IsScored :
    (quotes : List (Text × ShockQuote)) (rules : List Rule) (kind_ label_ : Text)
    → total (λ r. r.points) rules ≤ 100
    → IsScored quotes rules (finish_fingerprint (add_all quotes rules (empty_row kind_ label_)))
unfolding finish_fingerprint
finish-IsScored quotes rules kind_ label_ h =
    let (score_, evidence_, missing_) = add_all_lem quotes rules (empty_row kind_ label_) in
    let uncut : min (add_all quotes rules (empty_row kind_ label_)).score 100
        ≡ total (points_of quotes) rules =
      ground (arith, score_, points-total quotes rules, h) in
    (uncut, ap (leb 50) uncut, omega (arith, evidence_), omega (arith, missing_))

-- A fingerprint has the rows of supply, demand, liquidity and policy. Those of supply, demand and policy are
-- scored by their rules, whose points no clamp cuts; the score of the liquidity is at most 100.
pub build_shock_fingerprint-IsScored :
    (quotes : List (Text × ShockQuote)) (liquidity : LiquidityDto) (options : List OptionStress)
    (now : Instant)
    → (supply : FingerprintRow) × (demand : FingerprintRow) × (liquid : FingerprintRow)
      × (policy : FingerprintRow) × ((build_shock_fingerprint quotes liquidity options now).rows
          ≡ supply ∷ demand ∷ liquid ∷ policy ∷ [])
      × IsScored quotes supply_rules supply
      × IsScored quotes demand_rules demand
      × (liquid.score ≤ 100)
      × IsScored quotes policy_rules policy
unfolding build_shock_fingerprint score_supply score_demand score_policy finish_fingerprint
build_shock_fingerprint-IsScored quotes liquidity options now = (
  finish_fingerprint (score_supply quotes),
  finish_fingerprint (score_demand quotes),
  finish_fingerprint (score_liquidity quotes liquidity.rows options),
  finish_fingerprint (score_policy quotes),
  refl,
  finish-IsScored quotes supply_rules (codes "supply") (codes "Supply shock") (omega arith),
  finish-IsScored quotes demand_rules (codes "demand") (codes "Demand shock") (omega arith),
  ground arith,
  finish-IsScored quotes policy_rules (codes "policy") (codes "Policy shock") (omega arith),
)
