-- ===== src/ScanJournal/Store/Unique.antt =====
-- The unique indexes: rows by their identifier, counted.
use optix.Base.{
  ℕ, ◌≡◌, ◌≤◌, refl, ◌∙◌, ap, true, false, ◌||◌, List, [], ◌∷◌, ◌++◌, arith, if◌then◌else◌,
  Bool-cases, inl, inr, total, total-append,
}
use optix.Base.Int.{ℤ, eqb_ℤ}
use optix.Base.Text.{text_eq→eq, text_eq_self}
use optix.ScanJournal.Types.{CandidateId, ScanCandidate, ScanReconciliation}
use optix.ScanJournal.Store.{
  Store, same_id, has_candidate, has_reconciliation, Inserted, insert_one, insert_each,
}

eqb_ℤ→eq : (a b : ℤ) → eqb_ℤ a b ≡ true → a ≡ b
eqb_ℤ→eq a b h = ground arith

pub same_id→eq : (a b : CandidateId) → same_id a b ≡ true → a ≡ b
unfolding same_id
same_id→eq a b h = ground (
  arith,
  text_eq→eq a.scan_date b.scan_date,
  text_eq→eq a.symbol b.symbol,
  text_eq→eq a.expiry b.expiry,
  eqb_ℤ→eq a.strike b.strike,
)

pub same_id_self : (a : CandidateId) → same_id a a ≡ true
unfolding same_id
same_id_self a =
    ground (arith, text_eq_self a.scan_date, text_eq_self a.symbol, text_eq_self a.expiry)

abbrev pub is_of : CandidateId → ScanCandidate → ℕ
is_of i c = if same_id i c.candidate_id then 1 else 0

abbrev pub settles : CandidateId → ScanReconciliation → ℕ
settles i r = if same_id i r.candidate_id then 1 else 0

-- No identifier has two rows.
abbrev pub IsUnique : List ScanCandidate → Type 0
IsUnique cs = (i : CandidateId) → total (is_of i) cs ≤ 1

abbrev pub IsWellFormed : Store → Type 0
IsWellFormed st =
    IsUnique st.candidates × ((i : CandidateId) → total (settles i) st.reconciliations ≤ 1)

pub total-missing :
    (i : CandidateId) (cs : List ScanCandidate)
    → has_candidate i cs ≡ false
    → total (is_of i) cs ≡ 0
unfolding has_candidate
total-missing i [] h = refl
total-missing i (c ∷ cs) h = ground (arith, total-missing i cs)

pub total-unsettled :
    (i : CandidateId) (rs : List ScanReconciliation)
    → total (settles i) rs ≡ 0
    → has_reconciliation i rs ≡ false
unfolding has_reconciliation
total-unsettled i [] h = refl
total-unsettled i (r ∷ rs) h = ground (arith, total-unsettled i rs)

pub total-settled :
    (i : CandidateId) (rs : List ScanReconciliation)
    → has_reconciliation i rs ≡ false
    → total (settles i) rs ≡ 0
unfolding has_reconciliation
total-settled i [] h = refl
total-settled i (r ∷ rs) h = ground (arith, total-settled i rs)

insert_one-IsUnique :
    (c : ScanCandidate) (s : Inserted) → IsUnique s.rows → IsUnique (insert_one c s).rows
unfolding insert_one
insert_one-IsUnique c s u i = elim (Bool-cases (has_candidate c.candidate_id s.rows)) [
  | inl there ↦ rw there (u i)
  | inr new ↦ rw new (elim (Bool-cases (same_id i c.candidate_id)) [
    | inl same ↦ ground (
      arith,
      total-append (is_of i) s.rows (c ∷ []),
      total-missing i s.rows
          (ap (λ j. has_candidate j s.rows) (same_id→eq i c.candidate_id same) ∙ new),
    )
    | inr other ↦ ground (arith, total-append (is_of i) s.rows (c ∷ []), u i)
  ])
]

pub insert_each-IsUnique :
    (cs : List ScanCandidate) (s : Inserted) → IsUnique s.rows → IsUnique (insert_each cs s).rows
unfolding insert_each
insert_each-IsUnique [] s u = u
insert_each-IsUnique (c ∷ cs) s u =
    insert_each-IsUnique cs (insert_one c s) (insert_one-IsUnique c s u)

pub has_candidate-append :
    (i : CandidateId) (cs ds : List ScanCandidate)
    → has_candidate i (cs ++ ds) ≡ (has_candidate i cs || has_candidate i ds)
unfolding has_candidate
has_candidate-append i [] ds = refl
has_candidate-append i (c ∷ cs) ds = ground (arith, has_candidate-append i cs ds)

insert_one-has :
    (c : ScanCandidate) (s : Inserted) → has_candidate c.candidate_id (insert_one c s).rows ≡ true
unfolding insert_one has_candidate
insert_one-has c s =
    ground (arith, has_candidate-append c.candidate_id s.rows (c ∷ []), same_id_self c.candidate_id)

insert_one-keeps :
    (i : CandidateId) (c : ScanCandidate) (s : Inserted)
    → has_candidate i s.rows ≡ true
    → has_candidate i (insert_one c s).rows ≡ true
unfolding insert_one
insert_one-keeps i c s h = ground (arith, has_candidate-append i s.rows (c ∷ []))

insert_each-keeps :
    (i : CandidateId) (cs : List ScanCandidate) (s : Inserted)
    → has_candidate i s.rows ≡ true
    → has_candidate i (insert_each cs s).rows ≡ true
unfolding insert_each
insert_each-keeps i [] s h = h
insert_each-keeps i (c ∷ cs) s h =
    insert_each-keeps i cs (insert_one c s) (insert_one-keeps i c s h)

-- All of the candidates are among the rows.
abbrev pub AllThere : List ScanCandidate → List ScanCandidate → Type 0
AllThere [] rows = Unit
AllThere (c ∷ cs) rows = (has_candidate c.candidate_id rows ≡ true) × AllThere cs rows

pub insert_each-AllThere :
    (cs : List ScanCandidate) (s : Inserted) → AllThere cs (insert_each cs s).rows
unfolding insert_each
insert_each-AllThere [] s = tt
insert_each-AllThere (c ∷ cs) s = (
  insert_each-keeps c.candidate_id cs (insert_one c s) (insert_one-has c s),
  insert_each-AllThere cs (insert_one c s),
)
