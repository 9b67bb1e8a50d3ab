-- ===== src/Intel/Judgments/Settle/Run.antt =====
-- A whole run of the settlement, and what the next one finds.
use optix.Base.{
  ℕ, ◌≡◌, ◌≤◌, refl, sym, ◌∙◌, ap, subst, Bool, true, false, not, List, [], ◌∷◌, ◌++◌, arith, ◌⊎◌,
  Bool-cases, inl, inr, length, take, map, append-nil, append_assoc, All, All-Perm, keep,
  if◌then◌else◌,
}
use mathlib.Core.List.Perm
use optix.Base.Keyed.{count, IsDistinct, IsDistinct-Perm}
use optix.Base.Sort.{stable_sort, stable_sort-perm}
use optix.Base.Text.{Text, text_eq, text_eq_self}
use optix.Base.Time.{Instant}
use optix.Intel.Judgments.{
  IntelJudgment, IntelReconciliation, IntelTables, is_settled, is_open, expires_first,
  expired_unsettled_judgments,
}
use optix.Intel.Judgments.Settle.{Database, ReconcileResult, settle_all, reconcile_judgments}
use optix.Intel.Judgments.Settle.Batch.{
  id_of, is_settled-append, row_of, IsUnsettled, HasSettled, settle_all_lem, settlement-id,
}

pub keep-count :
    (p : IntelJudgment → Bool) (i : Text) (jds : List IntelJudgment)
    → count id_of i (keep p jds) ≤ count id_of i jds
keep-count p i [] = omega arith
keep-count p i (jd ∷ jds) = ground (arith, keep-count p i jds)

keep-IsUnsettled :
    (now : Instant) (rs : List IntelReconciliation) (jds : List IntelJudgment)
    → IsUnsettled rs (keep (is_open now rs) jds)
keep-IsUnsettled now rs [] = tt
keep-IsUnsettled now rs (jd ∷ jds) = ground (arith, keep-IsUnsettled now rs jds)

pub take-all : {A : Type 0} (xs : List A) → take (length xs) xs ≡ xs
take-all [] = refl
take-all (x ∷ xs) = ap (◌∷◌ x) (take-all xs)

-- The rows of judgments settle them.
IsSettledBy : List IntelReconciliation → List IntelJudgment → Type 0
IsSettledBy rs jds = All (λ jd. not (is_settled (id_of jd) rs) ≡ false) jds

row-settles :
    (db : Database) (now : Instant) (jd : IntelJudgment) (rs more : List IntelReconciliation)
    → not (is_settled (id_of jd) (rs ++ row_of db now jd ∷ more)) ≡ false
unfolding is_settled
row-settles db now jd rs more =
    let same : text_eq (id_of jd) (row_of db now jd).judgment_id ≡ true =
      ap (text_eq (id_of jd)) (settlement-id _ now jd) ∙ text_eq_self (id_of jd) in
    ground (arith, same, is_settled-append (id_of jd) rs (row_of db now jd ∷ more))

rows-settle :
    (db : Database) (now : Instant) (jds : List IntelJudgment) (rs : List IntelReconciliation)
    → IsSettledBy (rs ++ map (row_of db now) jds) jds
unfolding IsSettledBy
rows-settle db now [] rs = tt
rows-settle db now (jd ∷ jds) rs = (
  row-settles db now jd rs (map (row_of db now) jds),
  subst (λ (l : List IntelReconciliation). IsSettledBy l jds)
      (append_assoc rs (row_of db now jd ∷ []) (map (row_of db now) jds))
      (rows-settle db now jds (rs ++ row_of db now jd ∷ [])),
)

module _ (now : Instant) (rs new : List IntelReconciliation) where
  none_open :
      (jds : List IntelJudgment)
      → IsSettledBy (rs ++ new) (keep (is_open now rs) jds)
      → keep (is_open now (rs ++ new)) jds ≡ []
  unfolding IsSettledBy
  none_open [] h = refl
  none_open (jd ∷ jds) h = elim (Bool-cases (is_open now rs jd)) [
    | inl open_ ↦
        let (settled, rest) =
          subst
            (λ (b : Bool).
              IsSettledBy (rs ++ new)
                (if b then jd ∷ keep (is_open now rs) jds else keep (is_open now rs) jds))
            open_ h in
        ground (arith, settled, none_open jds rest)
    | inr shut ↦
        let rest =
          subst
            (λ (b : Bool).
              IsSettledBy (rs ++ new)
                (if b then jd ∷ keep (is_open now rs) jds else keep (is_open now rs) jds))
            shut h in
        ground (arith, is_settled-append (id_of jd) rs new, none_open jds rest)
  ]

abbrev IsRun : Database → Instant → IntelTables → ReconcileResult × IntelTables → Type 0
IsRun db now t (out, t') =
    let jds = expired_unsettled_judgments now t in
    (t'.judgments ≡ t.judgments)
    × (t'.narratives ≡ t.narratives)
    × (out.settled ≤ length jds)
    × (t'.reconciliations ≡ t.reconciliations ++ map (row_of db now) (take out.settled jds))
    × ((out.failed ≡ true)
        ⊎ ((out.settled ≡ length jds) × (expired_unsettled_judgments now t' ≡ [])))

module _ (db : Database) (now : Instant) (t : IntelTables) where
  not_listed :
      db.lists ≡ false → reconcile_judgments db now t ≡ (record { settled = 0; failed = true }, t)
  unfolding reconcile_judgments
  not_listed e = rw e refl

  ran : ReconcileResult × List IntelReconciliation → ReconcileResult × IntelTables
  ran (out, rs) = (out, record t { reconciliations = rs })

  listed :
      db.lists ≡ true
      → reconcile_judgments db now t
        ≡ ran (settle_all db now (expired_unsettled_judgments now t) 0 t.reconciliations)
  unfolding reconcile_judgments ran
  listed e = rw e refl

  expired-IsUnsettled : IsUnsettled t.reconciliations (expired_unsettled_judgments now t)
  unfolding expired_unsettled_judgments
  expired-IsUnsettled =
      All-Perm (λ jd. is_settled (id_of jd) t.reconciliations)
        (Perm.symm (stable_sort-perm expires_first _))
        (keep-IsUnsettled now t.reconciliations t.judgments)

  pub expired-IsDistinct :
      IsDistinct id_of t.judgments → IsDistinct id_of (expired_unsettled_judgments now t)
  unfolding expired_unsettled_judgments
  expired-IsDistinct h =
      IsDistinct-Perm id_of {xs = keep (is_open now t.reconciliations) t.judgments}
        (Perm.symm (stable_sort-perm expires_first _))
        (λ i. omega (arith, h i, keep-count (is_open now t.reconciliations) i t.judgments))

  none_left :
      (new : List IntelReconciliation)
      → IsSettledBy (t.reconciliations ++ new) (expired_unsettled_judgments now t)
      → expired_unsettled_judgments now (record t { reconciliations = t.reconciliations ++ new })
        ≡ []
  unfolding expired_unsettled_judgments IsSettledBy stable_sort
  none_left new h = ap (stable_sort expires_first) (
      none_open now t.reconciliations new t.judgments (
        All-Perm (λ jd. not (is_settled (id_of jd) (t.reconciliations ++ new)))
          (stable_sort-perm expires_first _) h))

  ran-IsRun :
      (s : ReconcileResult × List IntelReconciliation)
      → HasSettled db now (expired_unsettled_judgments now t) 0 t.reconciliations s
      → IsRun db now t (ran s)
  unfolding ran
  ran-IsRun (out, rs) (k, counted, short, rows, all_) =
      let jds = expired_unsettled_judgments now t in
      let settled : out.settled ≡ k = omega (arith, counted) in
      let exact : rs ≡ t.reconciliations ++ map (row_of db now) (take out.settled jds) =
        rw settled rows in
      let done : out.failed ≡ false
          → (out.settled ≡ length jds)
            × (expired_unsettled_judgments now (record t { reconciliations = rs }) ≡ []) =
        λ e.
          let every : take k jds ≡ jds = ap (λ (n : ℕ). take n jds) (all_ e) ∙ take-all jds in
          let rows' : rs ≡ t.reconciliations ++ map (row_of db now) jds =
            rows ∙ ap (λ l. t.reconciliations ++ map (row_of db now) l) every in
          (
            omega (arith, counted, all_ e),
            subst (λ l. expired_unsettled_judgments now (record t { reconciliations = l }) ≡ [])
                (sym rows')
                (none_left (map (row_of db now) jds) (rows-settle db now jds t.reconciliations)),
          ) in
      (
        refl,
        refl,
        omega (arith, counted, short),
        exact,
        elim (Bool-cases out.failed) [ inl e ↦ inl e | inr e ↦ inr (done e) ],
      )

-- Of judgments that have different identifiers: a run of the settlement changes no other table, and
-- adds a row for each judgment of a front part of those that had expired unsettled, in their order, to
-- the settlements that were there; it counts them. A run that does not fail has settled all of
-- them, and finds none to settle after it.
pub reconcile_judgments-settles :
    (db : Database) (now : Instant) (t : IntelTables)
    → IsDistinct id_of t.judgments
    → let (out, t') = reconcile_judgments db now t in
      let jds = expired_unsettled_judgments now t in
      (t'.judgments ≡ t.judgments)
      × (t'.narratives ≡ t.narratives)
      × (out.settled ≤ length jds)
      × (t'.reconciliations ≡ t.reconciliations ++ map (row_of db now) (take out.settled jds))
      × ((out.failed ≡ true)
          ⊎ ((out.settled ≡ length jds) × (expired_unsettled_judgments now t' ≡ [])))
reconcile_judgments-settles db now t h = elim (Bool-cases db.lists) [
  | inr e ↦
      subst (IsRun db now t) (sym (not_listed db now t e))
        (refl, refl, omega arith, sym (append-nil t.reconciliations), inl refl)
  | inl e ↦ subst (IsRun db now t) (sym (listed db now t e)) (
      ran-IsRun db now t _ (
        settle_all_lem db now (expired_unsettled_judgments now t) 0 t.reconciliations
          (expired-IsDistinct db now t h) (expired-IsUnsettled db now t)))
]
