-- ===== src/Intel/Judgments.antt =====
-- The judgments, narratives and settlements of the intel journal (internal/intel/journal.go,
-- internal/datastore/sqlite/intel_journal.go, pkg/model/intel.go). The tables are lists in the order
-- of insertion; what is read in an order of times keeps the order of insertion among equal times.
-- Times are of the wall clock in New York, in whole seconds, as the tables keep them. Identifiers, the
-- list of the assets and the source of the prices are parameters.
pub mod Write
pub mod Settle
pub mod Read
mod Tests
use optix.Base.{
  ℕ, ◌+◌, ◌-◌, ◌==◌, Bool, true, false, ◌&&◌, ◌||◌, not, List, [], ◌∷◌, ◌++◌, Option, none, some,
  ltb, leb, if◌then◌else◌, keep,
}
use optix.Base.Int.{ℤ, pos}
use optix.Base.Sort.{stable_sort}
use optix.Base.Text.{Text, text_eq}
use optix.Base.Time.{Instant, Day}
use optix.Intel.Phase.{Phase}
use optix.Intel.Score.{Outcome}
use optix.ScanJournal.Types.{Ratio}

pub record IntelNarrative : Type 0 where
  pub entry_id : Text
  pub trading_date : Day
  pub checkpoint : Text
  pub phase : Phase
  pub body : Text
  pub created_at : Instant

pub record IntelReconciliation : Type 0 where
  pub judgment_id : Text
  pub expiry_price : ℤ
  pub expiry_basis : Text
  pub outcome : Outcome
  pub delta_pct : Ratio
  pub settled_at : Instant

-- The settlement that a reading adds is beside it.
pub record IntelJudgment : Type 0 where
  pub judgment_id : Text
  pub trading_date : Day
  pub checkpoint : Text
  pub asset_id : Text
  pub asset_class : Text
  pub direction : Text
  pub threshold_pct : ℤ
  pub confidence : ℤ
  pub expiry_checkpoint : Text
  pub expiry_at : Instant
  pub registered_price : ℤ
  pub registered_basis : Text
  pub rationale : Text
  pub supersedes : Text
  pub created_at : Instant

pub record IntelTables : Type 0 where
  pub narratives : List IntelNarrative
  pub judgments : List IntelJudgment
  pub reconciliations : List IntelReconciliation

-- A row of market_pulse_bars.
pub record PulseBar : Type 0 where
  pub asset_id : Text
  pub ts : Instant
  pub close : ℤ

-- The unique columns.
unfoldable pub has_entry : Text → List IntelNarrative → Bool
unfolding text_eq
has_entry i [] = false
has_entry i (n ∷ ns) = text_eq i n.entry_id || has_entry i ns

unfoldable pub has_judgment : Text → List IntelJudgment → Bool
unfolding text_eq
has_judgment i [] = false
has_judgment i (jd ∷ jds) = text_eq i jd.judgment_id || has_judgment i jds

-- The settlement of a judgment; it is none where there is no row.
unfoldable pub settlement_of : Text → List IntelReconciliation → Option IntelReconciliation
unfolding text_eq
settlement_of i [] = none
settlement_of i (r ∷ rs) =
    let rest = settlement_of i rs in if text_eq i r.judgment_id then some r else rest

unfoldable pub is_settled : Text → List IntelReconciliation → Bool
unfolding text_eq
is_settled i [] = false
is_settled i (r ∷ rs) = text_eq i r.judgment_id || is_settled i rs

-- `INSERT OR IGNORE`, of the three tables
unfoldable pub insert_narrative : IntelNarrative → IntelTables → IntelTables
unfolding has_entry
insert_narrative n t =
    if has_entry n.entry_id t.narratives
    then t
    else record t { narratives = t.narratives ++ n ∷ [] }

unfoldable pub insert_judgment : IntelJudgment → IntelTables → IntelTables
unfolding has_judgment
insert_judgment jd t =
    if has_judgment jd.judgment_id t.judgments
    then t
    else record t { judgments = t.judgments ++ jd ∷ [] }

unfoldable pub insert_reconciliation :
    IntelReconciliation → List IntelReconciliation → List IntelReconciliation
unfolding is_settled
insert_reconciliation r rs = if is_settled r.judgment_id rs then rs else rs ++ r ∷ []

unfoldable pub list_narratives : Day → IntelTables → List IntelNarrative
unfolding stable_sort
list_narratives d t =
    stable_sort (λ a b. ltb a.created_at b.created_at)
      (keep (λ n. n.trading_date == d) t.narratives)

unfoldable pub list_judgments : Day → IntelTables → List IntelJudgment
unfolding stable_sort
list_judgments d t =
    stable_sort (λ a b. ltb a.created_at b.created_at) (keep (λ j. j.trading_date == d) t.judgments)

abbrev pub expires_first : IntelJudgment → IntelJudgment → Bool
expires_first a b = ltb a.expiry_at b.expiry_at

abbrev pub is_open : Instant → List IntelReconciliation → IntelJudgment → Bool
is_open now rs jd = leb jd.expiry_at now && not (is_settled jd.judgment_id rs)

unfoldable pub expired_unsettled_judgments : Instant → IntelTables → List IntelJudgment
unfolding stable_sort is_settled
expired_unsettled_judgments now t =
    stable_sort expires_first (keep (is_open now t.reconciliations) t.judgments)

-- The row of the largest `ts`; of two equal ones the first is taken.
unfoldable pub newest : Option PulseBar → List PulseBar → Option PulseBar
newest best [] = best
newest none (b ∷ bs) = newest (some b) bs
newest (some a) (b ∷ bs) = newest (some (if ltb a.ts b.ts then b else a)) bs

abbrev pub is_near : Text → Instant → ℕ → PulseBar → Bool
is_near asset at tolerance b = text_eq b.asset_id asset && leb b.ts at && leb (at - tolerance) b.ts

unfoldable pub pulse_close_near : Text → Instant → ℕ → List PulseBar → Option ℤ
unfolding newest text_eq
pulse_close_near asset at tolerance bars =
    elim (newest none (keep (is_near asset at tolerance) bars)) [
      | none ↦ none
      | some b ↦ some b.close
    ]
