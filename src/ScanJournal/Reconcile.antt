-- ===== src/ScanJournal/Reconcile.antt =====
-- `Reconcile` and `hitRateAll` (internal/scanjournal/reconcile.go). The source of the daily bars is a
-- parameter: it is asked for the symbols, and gives their bars or an error. So are the failures of the
-- database: of the two kinds of reading, and of the insertion for a candidate, which writes nothing then.
pub mod Batch
use optix.Base.{
  ℕ, suc, ◌+◌, Bool, true, false, List, [], ◌∷◌, ◌++◌, Option, none, some, if◌then◌else◌, ◌==◌,
  keep, map, length,
}
use optix.Base.Int.{ℤ, pos, ◌+ℤ◌}
use optix.Base.Text.{Text, text_eq, text_lt}
use optix.Base.Time.{Instant}
use optix.Base.Sort.{stable_sort}
use optix.ScanJournal.Types.{
  CandidateId, ScanCandidate, ScanReconciliation, Outcome, hit, miss, void, Ratio, Bar,
}
use optix.ScanJournal.Settle.{settle_candidate, pending, voided, settled, zero_ratio}
use optix.ScanJournal.Store.{
  Store, has_candidate, insert_scan_reconciliation, expired_unsettled_scan_candidates,
}

pub record SettledRow : Type 0 where
  pub candidate_id : CandidateId
  pub symbol : Text
  pub strike : ℤ
  pub expiry : Text
  pub outcome : Outcome
  pub expiry_close : ℤ
  pub realized_pnl : ℤ
  pub touched : Bool
  pub max_breach_pct : Ratio

pub data Warning : Type 0 where
  bars_unavailable : Warning
  no_bars_in_window : CandidateId → Warning

-- The counts and rows of `ReconcileResult`.
pub record Tally : Type 0 where
  pub settled : ℕ
  pub void : ℕ
  pub pending : ℕ
  pub results : List SettledRow
  pub warnings : List Warning

abbrev pub no_tally : Tally
no_tally = record { settled = 0; void = 0; pending = 0; results = []; warnings = [] }

-- Which accesses the database makes without an error.
pub record Database : Type 0 where
  pub loads : Bool
  pub inserts : CandidateId → Bool
  pub lists : Bool

-- The loop's state: the tally, the rows of the table, and the candidate at whose insertion the loop
-- has returned, if it has.
pub record Run : Type 0 where
  pub out : Tally
  pub rows : List ScanReconciliation
  pub failed : Option CandidateId

unfoldable pub row_of : ScanCandidate → ScanReconciliation → SettledRow
row_of c r = record {
  candidate_id = c.candidate_id;
  symbol = c.symbol;
  strike = c.candidate_id.strike;
  expiry = c.candidate_id.expiry;
  outcome = r.outcome;
  expiry_close = r.expiry_close;
  realized_pnl = r.realized_pnl;
  touched = r.touched;
  max_breach_pct = r.max_breach_pct;
}

unfoldable pub record_row :
    Database → Instant → ScanCandidate → ScanReconciliation → Tally → List ScanReconciliation → Run
unfolding insert_scan_reconciliation row_of
record_row db now c r out rows =
    elim (if db.inserts c.candidate_id
      then insert_scan_reconciliation (record r { settled_at = now }) rows
      else none) [
        | none ↦ record { out = out; rows = rows; failed = some c.candidate_id }
        | some rows' ↦ record {
          out = record out { settled = out.settled + 1; results = out.results ++ row_of c r ∷ [] };
          rows = rows';
          failed = none;
        }
      ]

unfoldable pub settle_one :
    Database
    → Instant
    → Text
    → (Text → List Bar)
    → ScanCandidate
    → Tally
    → List ScanReconciliation
    → Run
unfolding settle_candidate record_row
settle_one db now today bars c out rows = elim (settle_candidate c (bars c.symbol) today) [
  | pending ↦ record { out = record out { pending = out.pending + 1 }; rows = rows; failed = none }
  | voided r ↦ record_row db now c r (record out { void = out.void + 1 }) rows
  | settled r n ↦
      record_row db now c r
        (if n == 0
          then record out { warnings = out.warnings ++ no_bars_in_window c.candidate_id ∷ [] }
          else out)
        rows
]

unfoldable pub settle_each :
    Database
    → Instant
    → Text
    → (Text → List Bar)
    → List ScanCandidate
    → Tally
    → List ScanReconciliation
    → Run
unfolding settle_one
settle_each db now today bars [] out rows = record { out = out; rows = rows; failed = none }
settle_each db now today bars (c ∷ cs) out rows =
    let step = settle_one db now today bars c out rows in
    elim step.failed [ none ↦ settle_each db now today bars cs step.out step.rows | some i ↦ step ]

-- The distinct symbols, sorted.
abbrev has_text : Text → List Text → Bool
has_text s [] = false
has_text s (t ∷ ts) = if text_eq s t then true else has_text s ts

unfoldable pub distinct : List Text → List Text
unfolding text_eq
distinct [] = []
distinct (s ∷ ss) = let rest = distinct ss in if has_text s rest then rest else s ∷ rest

unfoldable pub symbols_of : List ScanCandidate → List Text
unfolding distinct stable_sort text_lt
symbols_of cs = stable_sort text_lt (distinct (map (λ (c : ScanCandidate). c.symbol) cs))

pub record HitRate : Type 0 where
  pub hit : ℕ
  pub miss : ℕ
  pub void : ℕ
  pub pnl_sum : ℤ
  pub rate : Ratio
  pub avg_pnl : Ratio

-- The counts, over all the rows, and the sum of the P&L of the hits and the misses.
unfoldable pub count_rows : List ScanReconciliation → HitRate
unfolding ◌+ℤ◌
count_rows [] = record {
  hit = 0;
  miss = 0;
  void = 0;
  pnl_sum = pos 0;
  rate = zero_ratio;
  avg_pnl = zero_ratio;
}
count_rows (r ∷ rs) =
    let h = count_rows rs in
    elim r.outcome [
      | hit ↦ record h { hit = h.hit + 1; pnl_sum = h.pnl_sum +ℤ r.realized_pnl }
      | miss ↦ record h { miss = h.miss + 1; pnl_sum = h.pnl_sum +ℤ r.realized_pnl }
      | void ↦ record h { void = h.void + 1 }
    ]

-- Void rows count in no denominator.
unfoldable pub hit_rate_all : Store → HitRate
unfolding count_rows has_candidate
hit_rate_all st =
    let h = count_rows (
      keep (λ (r : ScanReconciliation). has_candidate r.candidate_id st.candidates)
        st.reconciliations) in
    let d = h.hit + h.miss in
    if d == 0 then h else record h {
      rate = record { num = pos h.hit; den = pos d };
      avg_pnl = record { num = h.pnl_sum; den = pos d };
    }

pub data ReconcileError : Type 0 where
  not_loaded no_hit_rate : ReconcileError
  not_inserted : CandidateId → ReconcileError

pub record ReconcileResult : Type 0 where
  pub tally : Tally
  pub hit_rate : Option HitRate
  pub failed : Option ReconcileError

-- Where the bars are unavailable, all the candidates stay pending and nothing is written.
unfoldable pub reconcile_batch :
    Database → Instant → Text → (List Text → Option (Text → List Bar)) → Store → Run
unfolding expired_unsettled_scan_candidates symbols_of settle_each
reconcile_batch db now today daily_bars st =
    let cs = expired_unsettled_scan_candidates today st in
    if length cs == 0
    then record { out = no_tally; rows = st.reconciliations; failed = none }
    else elim (daily_bars (symbols_of cs)) [
      | none ↦ record {
        out = record no_tally { pending = length cs; warnings = bars_unavailable ∷ [] };
        rows = st.reconciliations;
        failed = none;
      }
      | some bars ↦ settle_each db now today bars cs no_tally st.reconciliations
    ]

-- The hit rate over the store that a run leaves.
unfoldable pub with_hit_rate : Database → Tally → Store → ReconcileResult
unfolding hit_rate_all
with_hit_rate db out st =
    if db.lists
    then record { tally = out; hit_rate = some (hit_rate_all st); failed = none }
    else record { tally = out; hit_rate = none; failed = some no_hit_rate }

unfoldable pub reconcile :
    Database
    → Instant
    → Text
    → (List Text → Option (Text → List Bar))
    → Store
    → ReconcileResult × Store
unfolding reconcile_batch with_hit_rate
reconcile db now today daily_bars st =
    let run = reconcile_batch db now today daily_bars st in
    let st' = record st { reconciliations = run.rows } in
    if db.loads
    then (
      elim run.failed [
        | none ↦ with_hit_rate db run.out st'
        | some i ↦ record { tally = run.out; hit_rate = none; failed = some (not_inserted i) }
      ],
      st',
    )
    else (record { tally = no_tally; hit_rate = none; failed = some not_loaded }, st)
