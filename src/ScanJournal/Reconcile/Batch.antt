-- ===== src/ScanJournal/Reconcile/Batch.antt =====
-- What a reconciliation does to the table of reconciliations.
use optix.Base.{
  ℕ, ◌⊎◌, ◌<◌, some, subst, ◌+◌, ◌≡◌, ◌≤◌, refl, sym, ◌∙◌, ap, Bool, true, false, List, [], ◌∷◌,
  Option, none, arith, Bool-cases, Option-cases, ◌==◌, inl, inr, length, total, total-append,
  total-Perm, keep,
}
use optix.Base.Text.{Text}
use optix.Base.Time.{Instant}
use optix.Base.Sort.{stable_sort-perm}
use optix.ScanJournal.Types.{CandidateId, ScanCandidate, ScanReconciliation, Bar}
use optix.ScanJournal.Settle.{
  Settlement, pending, voided, settled, settle_candidate, settle_seen, see_bars, nothing_seen,
  void_row, settled_row,
}
use optix.ScanJournal.Store.{
  Store, same_id, has_reconciliation, insert_scan_reconciliation, expired_unsettled_scan_candidates,
  is_expired_unsettled, expires_before,
}
use optix.ScanJournal.Store.Unique.{
  IsWellFormed, is_of, settles, total-settled, total-unsettled, same_id_self, same_id→eq,
}
use optix.ScanJournal.Reconcile.{
  Database, Run, ReconcileError, not_loaded, no_hit_rate, not_inserted, with_hit_rate, Tally,
  no_tally, record_row, settle_one, settle_each, symbols_of, reconcile_batch, reconcile,
}

-- One row of an unsettled candidate is written, with its identifier.
settle_one_lem :
    (db : Database) (now : Instant) (today : Text) (bars : Text → List Bar) (c : ScanCandidate)
    (out : Tally) (rows : List ScanReconciliation)
    → has_reconciliation c.candidate_id rows ≡ false
    → db.inserts c.candidate_id ≡ true
    → let s = settle_one db now today bars c out rows in
      (s.failed ≡ none)
      × (s.out.settled + s.out.pending ≡ out.settled + out.pending + 1)
      × ((i : CandidateId) → total (settles i) s.rows ≤ total (settles i) rows + is_of i c)
unfolding settle_one settle_candidate settle_seen record_row insert_scan_reconciliation settled_row
    void_row
settle_one_lem db now today bars c out rows h k =
    let seen = see_bars c (bars c.symbol) nothing_seen in
    (
      ground arith,
      ground arith,
      λ i. ground (
        arith,
        total-append (settles i) rows (record (void_row c) { settled_at = now } ∷ []),
        total-append (settles i) rows (record (settled_row c seen) { settled_at = now } ∷ []),
      ),
    )

-- What a candidate leaves that is not inserted: it stays pending or ends the loop; nothing is written.
abbrev IsStuck : CandidateId → Tally → List ScanReconciliation → Run → Type 0
IsStuck i out rows s =
    (s.rows ≡ rows)
    × (((s.failed ≡ none) × (s.out.settled + s.out.pending ≡ out.settled + out.pending + 1))
        ⊎ ((s.failed ≡ some i) × (s.out.settled + s.out.pending ≡ out.settled + out.pending)))

stuck_lem :
    (db : Database) (now : Instant) (today : Text) (bars : Text → List Bar) (c : ScanCandidate)
    (out : Tally) (rows : List ScanReconciliation)
    → db.inserts c.candidate_id ≡ false
    → (x : Settlement) → settle_candidate c (bars c.symbol) today ≡ x
    → IsStuck c.candidate_id out rows (settle_one db now today bars c out rows)
unfolding settle_one record_row
stuck_lem db now today bars c out rows h pending e =
    rw (e, settle_one) (refl, inl (refl, omega arith))
stuck_lem db now today bars c out rows h (voided r) e =
    rw (e, settle_one, h, record_row) (refl, inr (refl, refl))
stuck_lem db now today bars c out rows h (settled r n) e =
    rw (e, settle_one, h, record_row) (refl, inr (refl, ground arith))

-- No candidate of the list is settled or is there twice.
abbrev IsOpen : List ScanCandidate → List ScanReconciliation → Type 0
IsOpen cs rows = (i : CandidateId) → total (is_of i) cs + total (settles i) rows ≤ 1

IsOpen-head :
    (c : ScanCandidate) (cs : List ScanCandidate) (rows : List ScanReconciliation)
    → IsOpen (c ∷ cs) rows
    → has_reconciliation c.candidate_id rows ≡ false
IsOpen-head c cs rows open_ =
    total-unsettled c.candidate_id rows
      (ground (arith, open_ c.candidate_id, same_id_self c.candidate_id))

-- A loop over so many candidates counts them all, or has met an insertion that the database refuses.
abbrev IsCounted : Database → ℕ → ℕ → Option CandidateId → Type 0
IsCounted db n counted none = (counted ≡ n)
IsCounted db n counted (some i) = (db.inserts i ≡ false) × (counted < n)

-- What a loop over so many candidates leaves.
abbrev IsRun : Database → ℕ → Run → Type 0
IsRun db n s =
    IsCounted db n (s.out.settled + s.out.pending) s.failed
    × ((i : CandidateId) → total (settles i) s.rows ≤ 1)

settle_each_lem :
    (db : Database) (now : Instant) (today : Text) (bars : Text → List Bar)
    (cs : List ScanCandidate) (out : Tally) (rows : List ScanReconciliation)
    → IsOpen cs rows
    → IsRun db (out.settled + out.pending + length cs) (settle_each db now today bars cs out rows)
unfolding settle_each
settle_each_lem db now today bars [] out rows open_ = (omega arith, λ i. omega (arith, open_ i))
settle_each_lem db now today bars (c ∷ cs) out rows open_ =
    let step = settle_one db now today bars c out rows in
    let more = settle_each db now today bars cs step.out step.rows in
    let next : step.out.settled + step.out.pending ≡ out.settled + out.pending + 1
        → IsOpen cs step.rows
        → IsRun db (out.settled + out.pending + length (c ∷ cs)) more =
      λ count open'.
        subst (λ n. IsRun db n more) (omega (arith, count))
          (settle_each_lem db now today bars cs step.out step.rows open') in
    elim (Bool-cases (db.inserts c.candidate_id)) [
      | inl k ↦
          let (ok, count, few) =
            settle_one_lem db now today bars c out rows (IsOpen-head c cs rows open_) k in
          rw (ok, settle_each) (next count (λ i. omega (arith, open_ i, few i)))
      | inr k ↦
          let (same, end) = stuck_lem db now today bars c out rows k _ refl in
          let kept : (i : CandidateId) → total (settles i) step.rows ≡ total (settles i) rows =
            λ i. ap (total (settles i)) same in
          elim end [
            | inl (ok, count) ↦
                rw (ok, settle_each) (next count (λ i. omega (arith, open_ i, kept i)))
            | inr (bad, count) ↦
                let n = out.settled + out.pending + length (c ∷ cs) in
                let last_ : settle_each db now today bars (c ∷ cs) out rows ≡ step =
                  rw (bad, settle_each) refl in
                subst (IsRun db n) (sym last_) (
                  subst (IsCounted db n (step.out.settled + step.out.pending)) (sym bad)
                      (k, omega (arith, count)),
                  λ i. omega (arith, open_ i, kept i),
                )
          ]
    ]

keep-total :
    (p : ScanCandidate → Bool) (i : CandidateId) (cs : List ScanCandidate)
    → total (is_of i) (keep p cs) ≤ total (is_of i) cs
keep-total p i [] = omega arith
keep-total p i (c ∷ cs) = ground (arith, keep-total p i cs)

-- What is settled is not among the candidates to settle.
settled-total :
    (today : Text) (rows : List ScanReconciliation) (i : CandidateId) (cs : List ScanCandidate)
    → has_reconciliation i rows ≡ true
    → total (is_of i) (keep (is_expired_unsettled today rows) cs) ≡ 0
settled-total today rows i [] h = refl
settled-total today rows i (c ∷ cs) h = elim (Bool-cases (same_id i c.candidate_id)) [
  | inl same ↦
      let there =
        ap (λ j. has_reconciliation j rows) (sym (same_id→eq i c.candidate_id same)) ∙ h in
      ground (arith, settled-total today rows i cs h)
  | inr other ↦ ground (arith, settled-total today rows i cs h)
]

expired-IsOpen :
    (today : Text) (st : Store)
    → IsWellFormed st
    → IsOpen (expired_unsettled_scan_candidates today st) st.reconciliations
unfolding expired_unsettled_scan_candidates
expired-IsOpen today st (unique, once) i =
    let p = is_expired_unsettled today st.reconciliations in
    let sorted = total-Perm (is_of i) (stable_sort-perm expires_before (keep p st.candidates)) in
    elim (Bool-cases (has_reconciliation i st.reconciliations)) [
      | inl there ↦
          omega
            (arith, once i, sorted, settled-total today st.reconciliations i st.candidates there)
      | inr new ↦ omega (
        arith,
        sorted,
        unique i,
        keep-total p i st.candidates,
        total-settled i st.reconciliations new,
      )
    ]

reconcile_batch_lem :
    (db : Database) (now : Instant) (today : Text)
    (daily_bars : List Text → Option (Text → List Bar)) (st : Store)
    → IsWellFormed st
    → IsRun db
        (length (expired_unsettled_scan_candidates today st))
        (reconcile_batch db now today daily_bars st)
unfolding reconcile_batch
reconcile_batch_lem db now today daily_bars st wf =
    let cs = expired_unsettled_scan_candidates today st in
    elim (Bool-cases (length cs == 0)) [
      | inl empty ↦ rw empty (ground arith, wf.1)
      | inr some_ ↦ elim (Option-cases (daily_bars (symbols_of cs))) [
        | inl e ↦ rw (some_, e) (omega arith, wf.1)
        | inr (bars, e) ↦
            rw (some_, e)
              (subst
                (λ n. IsRun db n (settle_each db now today bars cs no_tally st.reconciliations))
                (omega arith)
                (settle_each_lem db now today bars cs no_tally st.reconciliations
                  (expired-IsOpen today st wf)))
      ]
    ]

-- How a reconciliation of so many candidates ends, by its error: each is counted where there is none
-- or only the hit rate could not be read; an error is the database's.
abbrev pub IsReconciled : Database → ℕ → ℕ → Option ReconcileError → Type 0
IsReconciled db n counted none = (counted ≡ n) × (db.loads ≡ true) × (db.lists ≡ true)
IsReconciled db n counted (some not_loaded) = (counted ≡ 0) × (db.loads ≡ false)
IsReconciled db n counted (some no_hit_rate) = (counted ≡ n) × (db.lists ≡ false)
IsReconciled db n counted (some (not_inserted i)) = (counted < n) × (db.inserts i ≡ false)

-- A reconciliation of a well-formed store fails only where the database does: in the loading of the
-- candidates, in an insertion, which then ends it before the next candidate, or in the reading for
-- the hit rate. No insertion meets the unique index. Where there is no error, and where only the hit
-- rate is missing, each candidate that has expired unsettled is counted once, as settled (a void one
-- too) or as pending. With or without an error, no candidate is settled twice, then or in an earlier
-- run.
pub reconcile-IsWellFormed :
    (db : Database) (now : Instant) (today : Text)
    (daily_bars : List Text → Option (Text → List Bar)) (st : Store)
    → IsWellFormed st
    → let (result, st') = reconcile db now today daily_bars st in
      IsReconciled db
        (length (expired_unsettled_scan_candidates today st))
        (result.tally.settled + result.tally.pending)
        result.failed
      × IsWellFormed st'
unfolding reconcile with_hit_rate
reconcile-IsWellFormed db now today daily_bars st wf =
    let run = reconcile_batch db now today daily_bars st in
    let (counted, once) = reconcile_batch_lem db now today daily_bars st wf in
    elim (Bool-cases db.loads) [
      | inr l ↦ rw l ((omega arith, refl), wf)
      | inl l ↦ elim (Option-cases run.failed) [
        | inr (i, e) ↦
            let (refused, few) =
              subst (IsCounted db _ (run.out.settled + run.out.pending)) e counted in
            rw (l, e) ((few, refused), (wf.0, once))
        | inl e ↦
            let all = subst (IsCounted db _ (run.out.settled + run.out.pending)) e counted in
            elim (Bool-cases db.lists) [
              | inl k ↦ rw (l, e, k) ((all, refl, refl), (wf.0, once))
              | inr k ↦ rw (l, e, k) ((all, refl), (wf.0, once))
            ]
      ]
    ]
