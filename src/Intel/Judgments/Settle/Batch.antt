-- ===== src/Intel/Judgments/Settle/Batch.antt =====
-- What a run of the settlement does to the table of settlements.
use optix.Base.{
  ℕ, suc, ◌+◌, ◌≡◌, ◌≤◌, refl, sym, ◌∙◌, ap, subst, true, false, ◌||◌, List, [], ◌∷◌, ◌++◌, none,
  some, arith, Bool-cases, Option-cases, inl, inr, length, take, map, append-nil, append_assoc, All,
}
use optix.Base.Keyed.{count, IsDistinct}
use optix.Base.Text.{Text, text_eq_self, text_eq_sym}
use optix.Base.Time.{Instant}
use mathlib.Core.Bool.{false≢true}
use optix.Intel.Judgments.{
  IntelJudgment, IntelReconciliation, PulseBar, is_settled, insert_reconciliation,
}
use optix.Intel.Judgments.Settle.{Database, ReconcileResult, settlement, settle_all}

abbrev pub id_of : IntelJudgment → Text
id_of jd = jd.judgment_id

pub settlement-id :
    (bars : List PulseBar) (now : Instant) (jd : IntelJudgment)
    → (settlement bars now jd).judgment_id ≡ jd.judgment_id
unfolding settlement
settlement-id bars now jd = ground arith

pub is_settled-append :
    (i : Text) (rs xs : List IntelReconciliation)
    → is_settled i (rs ++ xs) ≡ (is_settled i rs || is_settled i xs)
unfolding is_settled
is_settled-append i [] xs = refl
is_settled-append i (r ∷ rs) xs = ground (arith, is_settled-append i rs xs)

-- The row of a judgment, from the bars that the database finds for it.
abbrev pub row_of : Database → Instant → IntelJudgment → IntelReconciliation
row_of db now jd = settlement (elim (db.bars_for jd) [ none ↦ [] | some bars ↦ bars ]) now jd

pub row_id :
    (db : Database) (now : Instant) (jd : IntelJudgment) → (row_of db now jd).judgment_id ≡ id_of jd
row_id db now jd = settlement-id _ now jd

abbrev pub IsUnsettled : List IntelReconciliation → List IntelJudgment → Type 0
IsUnsettled rs jds = All (λ jd. is_settled (id_of jd) rs ≡ false) jds

-- The others are not settled by the row of the first.
others :
    (rs : List IntelReconciliation) (r : IntelReconciliation) (jds : List IntelJudgment)
    → count id_of r.judgment_id jds ≡ 0
    → IsUnsettled rs jds
    → IsUnsettled (rs ++ r ∷ []) jds
unfolding is_settled
others rs r [] h k = tt
others rs r (jd ∷ jds) h k = (
  ground (
    arith,
    h,
    k.0,
    is_settled-append (id_of jd) rs (r ∷ []),
    text_eq_sym r.judgment_id (id_of jd),
  ),
  others rs r jds (ground arith) k.1,
)

pub head-alone :
    (jd : IntelJudgment) (jds : List IntelJudgment)
    → IsDistinct id_of (jd ∷ jds)
    → count id_of (id_of jd) jds ≡ 0
head-alone jd jds h = ground (arith, h (id_of jd), text_eq_self (id_of jd))

abbrev pub HasSettled :
    Database
    → Instant
    → List IntelJudgment
    → ℕ
    → List IntelReconciliation
    → ReconcileResult × List IntelReconciliation
    → Type 0
HasSettled db now jds n rs (out, rs') =
    (k : ℕ) × (out.settled ≡ n + k)
    × (k ≤ length jds)
    × (rs' ≡ rs ++ map (row_of db now) (take k jds))
    × (out.failed ≡ false → k ≡ length jds)

module _ (db : Database) (now : Instant) (jd : IntelJudgment) (jds : List IntelJudgment) (n : ℕ)
    (rs : List IntelReconciliation) where
  settle_failed :
      db.bars_for jd ≡ none
      → settle_all db now (jd ∷ jds) n rs ≡ (record { settled = n; failed = true }, rs)
  unfolding settle_all
  settle_failed e = rw (e, settle_all) refl

  settle_refused :
      {bars : List PulseBar}
      → db.bars_for jd ≡ some bars
      → db.takes jd ≡ false
      → settle_all db now (jd ∷ jds) n rs ≡ (record { settled = n; failed = true }, rs)
  unfolding settle_all
  settle_refused e k = rw (e, k, settle_all) refl

  settle_taken :
      {bars : List PulseBar}
      → db.bars_for jd ≡ some bars
      → db.takes jd ≡ true
      → is_settled (id_of jd) rs ≡ false
      → settle_all db now (jd ∷ jds) n rs
        ≡ settle_all db now jds (suc n) (rs ++ row_of db now jd ∷ [])
  unfolding settle_all
  settle_taken {bars} e k new =
      let same : (settlement bars now jd).judgment_id ≡ id_of jd = settlement-id bars now jd in
      let open_ : is_settled (settlement bars now jd).judgment_id rs ≡ false =
        ap (λ i. is_settled i rs) same ∙ new in
      let inserted : insert_reconciliation (settlement bars now jd) rs
          ≡ rs ++ settlement bars now jd ∷ [] =
        unfold insert_reconciliation in ground (arith, open_) in
      rw (e, k, inserted, settle_all) refl

  stopped :
      settle_all db now (jd ∷ jds) n rs ≡ (record { settled = n; failed = true }, rs)
      → HasSettled db now (jd ∷ jds) n rs (settle_all db now (jd ∷ jds) n rs)
  stopped e =
      subst (HasSettled db now (jd ∷ jds) n rs) (sym e)
        (0, omega arith, omega arith, sym (append-nil rs), λ k. absurd (false≢true (sym k)))

pub settle_all_lem :
    (db : Database) (now : Instant) (jds : List IntelJudgment) (n : ℕ)
    (rs : List IntelReconciliation)
    → IsDistinct id_of jds
    → IsUnsettled rs jds
    → HasSettled db now jds n rs (settle_all db now jds n rs)
unfolding settle_all
settle_all_lem db now [] n rs h k = (0, omega arith, omega arith, sym (append-nil rs), λ e. refl)
settle_all_lem db now (jd ∷ jds) n rs h k = elim (Option-cases (db.bars_for jd)) [
  | inl failed ↦ stopped db now jd jds n rs (settle_failed db now jd jds n rs failed)
  | inr (bars, found) ↦ elim (Bool-cases (db.takes jd)) [
    | inr refused ↦ stopped db now jd jds n rs (settle_refused db now jd jds n rs found refused)
    | inl taken ↦
        let r = row_of db now jd in
        let alone : count id_of r.judgment_id jds ≡ 0 =
          ap (λ i. count id_of i jds) (settlement-id _ now jd) ∙ head-alone jd jds h in
        let (m, counted, short, rows, all_) =
          settle_all_lem db now jds (suc n) (rs ++ r ∷ []) (λ t. omega (arith, h t))
            (others rs r jds alone k.1) in
        subst (HasSettled db now (jd ∷ jds) n rs)
          (sym (settle_taken db now jd jds n rs found taken k.0))
          (
            suc m,
            omega (arith, counted),
            omega (arith, short),
            rows ∙ append_assoc rs (r ∷ []) (map (row_of db now) (take m jds)),
            λ e. omega (arith, all_ e),
          )
  ]
]
