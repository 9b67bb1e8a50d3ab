-- ===== src/ScanJournal/Store.antt =====
-- The two tables of the scan journal (internal/datastore/sqlite/scan_journal.go), each as its rows in
-- the order of insertion. The identifier of a candidate is derived from the four columns of the
-- unique index (scan_date, symbol, expiry, strike), so that index and the one on `candidate_id` are
-- the same test. Failures of the database itself are left out.
pub mod Unique
use optix.Base.{
  ℕ, suc, ◌+◌, ◌≡◌, refl, Bool, true, false, ◌&&◌, ◌||◌, not, List, [], ◌∷◌, ◌++◌, Option, none,
  some, arith, if◌then◌else◌, keep,
}
use optix.Base.Int.{ℤ, eqb_ℤ}
use optix.Base.Text.{Text, text_eq, text_lt}
use optix.Base.Sort.{stable_sort}
use optix.ScanJournal.Types.{CandidateId, ScanCandidate, ScanReconciliation}

pub record Store : Type 0 where
  pub candidates : List ScanCandidate
  pub reconciliations : List ScanReconciliation

unfoldable pub same_id : CandidateId → CandidateId → Bool
same_id a b =
    text_eq a.scan_date b.scan_date
    && text_eq a.symbol b.symbol
    && text_eq a.expiry b.expiry
    && eqb_ℤ a.strike b.strike

unfoldable pub has_candidate : CandidateId → List ScanCandidate → Bool
has_candidate i [] = false
has_candidate i (c ∷ cs) = same_id i c.candidate_id || has_candidate i cs

unfoldable pub has_reconciliation : CandidateId → List ScanReconciliation → Bool
has_reconciliation i [] = false
has_reconciliation i (r ∷ rs) = same_id i r.candidate_id || has_reconciliation i rs

-- The rows after an insertion, with the counts of the rows registered and skipped.
pub record Inserted : Type 0 where
  pub rows : List ScanCandidate
  pub registered : ℕ
  pub skipped : ℕ

unfoldable pub insert_one : ScanCandidate → Inserted → Inserted
unfolding has_candidate
insert_one c s =
    if has_candidate c.candidate_id s.rows
    then record s { skipped = s.skipped + 1 }
    else record s { rows = s.rows ++ c ∷ []; registered = s.registered + 1 }

unfoldable pub insert_each : List ScanCandidate → Inserted → Inserted
unfolding insert_one
insert_each [] s = s
insert_each (c ∷ cs) s = insert_each cs (insert_one c s)

unfoldable pub insert_scan_candidates : List ScanCandidate → Store → (ℕ × ℕ) × Store
unfolding insert_each
insert_scan_candidates cs st =
    let s = insert_each cs (record { rows = st.candidates; registered = 0; skipped = 0 }) in
    ((s.registered, s.skipped), record st { candidates = s.rows })

-- `ORDER BY expiry, symbol`
abbrev pub expires_before : ScanCandidate → ScanCandidate → Bool
expires_before a b =
    text_lt a.candidate_id.expiry b.candidate_id.expiry
    || (text_eq a.candidate_id.expiry b.candidate_id.expiry && text_lt a.symbol b.symbol)

abbrev pub is_expired_unsettled : Text → List ScanReconciliation → ScanCandidate → Bool
is_expired_unsettled today rs c =
    text_lt c.candidate_id.expiry today && not (has_reconciliation c.candidate_id rs)

unfoldable pub expired_unsettled_scan_candidates : Text → Store → List ScanCandidate
unfolding stable_sort has_reconciliation
expired_unsettled_scan_candidates today st =
    stable_sort expires_before (keep (is_expired_unsettled today st.reconciliations) st.candidates)

-- A second row of one candidate breaks the unique index: there is none then.
unfoldable pub insert_scan_reconciliation :
    ScanReconciliation → List ScanReconciliation → Option (List ScanReconciliation)
unfolding has_reconciliation
insert_scan_reconciliation r rs =
    if has_reconciliation r.candidate_id rs then none else some (rs ++ r ∷ [])
