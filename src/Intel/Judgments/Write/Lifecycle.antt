-- ===== src/Intel/Judgments/Write/Lifecycle.antt =====
-- A judgment from its registration to its settlement.
use optix.Base.{
  ℕ, ◌≡◌, ◌≤◌, ◌<◌, refl, sym, ◌∙◌, ap, subst, Bool, true, false, ◌||◌, List, [], ◌∷◌, ◌++◌, Option,
  none, some, arith, Bool-cases, Option-cases, inl, inr, take, map, All, total-append, total-Perm,
  keep, leb, ltb, ltb→lt, if◌then◌else◌,
}
use mathlib.Core.Bool.{false≢true}
use optix.Base.Int.{pos, ltb_ℤ}
use optix.Intel.Calendar.{day_of}
use optix.Intel.Checkpoints.{checkpoint_time}
use optix.Base.Keyed.{count, IsDistinct}
use optix.Base.Sort.{stable_sort-perm, stable_sort-All}
use optix.Base.Text.{Text, text_eq, text_eq_self, text_eq_sym, text_eq→eq}
use optix.Base.Time.{Instant}
use optix.Intel.Judgments.{
  IntelJudgment, IntelReconciliation, IntelTables, is_settled, settlement_of, is_open,
  expires_first, has_judgment, insert_judgment, expired_unsettled_judgments,
}
use optix.Intel.Judgments.Write.{
  Surroundings, JudgmentInput, Written, stored, refused, register_judgment, judgment_of,
  register_until, is_direction,
}
use optix.Intel.Judgments.Settle.{Database, reconcile_judgments}
use optix.Intel.Judgments.Settle.Batch.{id_of, row_of, row_id, head-alone}
use optix.Intel.Judgments.Settle.Run.{take-all, expired-IsDistinct, reconcile_judgments-settles}

settlement_of-append :
    (i : Text) (rs xs : List IntelReconciliation)
    → is_settled i rs ≡ false
    → settlement_of i (rs ++ xs) ≡ settlement_of i xs
unfolding settlement_of is_settled
settlement_of-append i [] xs h = refl
settlement_of-append i (r ∷ rs) xs h = ground (arith, settlement_of-append i rs xs)

module _ (db : Database) (now : Instant) where
  rows : List IntelJudgment → List IntelReconciliation
  rows jds = map (row_of db now) jds

  row_other :
      (i : Text) (jd : IntelJudgment) (rs : List IntelReconciliation)
      → text_eq i (id_of jd) ≡ false
      → settlement_of i (row_of db now jd ∷ rs) ≡ settlement_of i rs
  unfolding settlement_of
  row_other i jd rs h = rw (ap (text_eq i) (row_id db now jd) ∙ h) refl

  settlement_of-absent :
      (i : Text) (jds : List IntelJudgment)
      → count id_of i jds ≡ 0
      → settlement_of i (rows jds) ≡ none
  unfolding rows settlement_of
  settlement_of-absent i [] h = refl
  settlement_of-absent i (jd ∷ jds) h =
      row_other i jd (rows jds) (ground arith) ∙ settlement_of-absent i jds (ground arith)

  IsFound : List IntelReconciliation → IntelJudgment → Type 0
  IsFound rs jd = settlement_of (id_of jd) rs ≡ some (row_of db now jd)

  still-IsFound :
      (jd : IntelJudgment) (rs : List IntelReconciliation) (jds : List IntelJudgment)
      → count id_of (id_of jd) jds ≡ 0
      → All (IsFound rs) jds
      → All (IsFound (row_of db now jd ∷ rs)) jds
  unfolding IsFound settlement_of
  still-IsFound jd rs [] h k = tt
  still-IsFound jd rs (x ∷ jds) h k = (
    row_other (id_of x) jd rs (text_eq_sym (id_of x) (id_of jd) ∙ ground arith) ∙ k.0,
    still-IsFound jd rs jds (ground arith) k.1,
  )

  rows-IsFound : (jds : List IntelJudgment) → IsDistinct id_of jds → All (IsFound (rows jds)) jds
  unfolding rows IsFound settlement_of
  rows-IsFound [] h = tt
  rows-IsFound (jd ∷ jds) h = (
    rw (ap (text_eq (id_of jd)) (row_id db now jd) ∙ text_eq_self (id_of jd)) refl,
    still-IsFound jd (rows jds) jds (head-alone jd jds h)
        (rows-IsFound jds (λ t. omega (arith, h t))),
  )

keep-last :
    (P : IntelJudgment → Type 0) (p : IntelJudgment → Bool) (jds : List IntelJudgment)
    (jd : IntelJudgment)
    → p jd ≡ true
    → All P (keep p (jds ++ jd ∷ []))
    → P jd
keep-last P p [] jd e h = (subst (λ (b : Bool). All P (if b then jd ∷ [] else [])) e h).0
keep-last P p (x ∷ jds) jd e h = elim (Bool-cases (p x)) [
  | inl k ↦
      keep-last P p jds jd e
        (subst
          (λ (b : Bool). All P (if b then x ∷ keep p (jds ++ jd ∷ []) else keep p (jds ++ jd ∷ [])))
          k h).1
  | inr k ↦ keep-last P p jds jd e (
      subst
        (λ (b : Bool). All P (if b then x ∷ keep p (jds ++ jd ∷ []) else keep p (jds ++ jd ∷ []))) k
        h)
]

keep-not_last :
    (p : IntelJudgment → Bool) (i : Text) (jds : List IntelJudgment) (jd : IntelJudgment)
    → p jd ≡ false
    → count id_of i (keep p (jds ++ jd ∷ [])) ≤ count id_of i jds
keep-not_last p i [] jd e = ground arith
keep-not_last p i (x ∷ jds) jd e = ground (arith, keep-not_last p i jds jd e)

has_judgment-count :
    (i : Text) (jds : List IntelJudgment) → has_judgment i jds ≡ false → count id_of i jds ≡ 0
unfolding has_judgment
has_judgment-count i [] h = refl
has_judgment-count i (jd ∷ jds) h = ground (arith, has_judgment-count i jds)

-- What a registration that is stored has written.
HasStored : Surroundings → Instant → IntelTables → Written IntelJudgment → Type 0
HasStored s now t (refused e) = Unit
HasStored s now t (stored jd t') =
    (now < jd.expiry_at) × (jd.judgment_id ≡ s.new_id) × (t' ≡ insert_judgment jd t)

until-HasStored :
    (s : Surroundings) (now : Instant) (in_ : JudgmentInput) (t : IntelTables) (c : Text)
    (expiry : Instant)
    → HasStored s now t (register_until s now in_ t c expiry)
unfolding register_until HasStored judgment_of
until-HasStored s now in_ t c expiry = elim (Bool-cases (ltb now expiry)) [
  | inr early ↦ rw early tt
  | inl future ↦ elim (Option-cases (s.quote_by_id in_.asset_id)) [
    | inl e ↦ rw (future, e) tt
    | inr (q, e) ↦ elim (Bool-cases s.writes) [
      | inl w ↦ rw (future, e, w) (ltb→lt now expiry future, refl, refl)
      | inr w ↦ rw (future, e, w) tt
    ]
  ]
]

register-HasStored :
    (s : Surroundings) (now : Instant) (in_ : JudgmentInput) (t : IntelTables)
    → HasStored s now t (register_judgment s now in_ t)
unfolding register_judgment HasStored
register-HasStored s now in_ t = elim (Bool-cases (is_direction in_.direction)) [
  | inr e ↦ rw e tt
  | inl e ↦ elim (Bool-cases (ltb_ℤ in_.confidence (pos 0) || ltb_ℤ (pos 100) in_.confidence)) [
    | inl k ↦ rw (e, k) tt
    | inr k ↦ elim (Option-cases (s.asset_class_of in_.asset_id)) [
      | inl a ↦ rw (e, k, a) tt
      | inr (c, a) ↦ elim (Option-cases (checkpoint_time (day_of now) in_.expiry_checkpoint)) [
        | inl x ↦ rw (e, k, a, x) tt
        | inr (expiry, x) ↦ rw (e, k, a, x) (until-HasStored s now in_ t c expiry)
      ]
    ]
  ]
]

module _ (db : Database) (later : Instant) (t : IntelTables) (jd : IntelJudgment)
    (distinct : IsDistinct id_of t.judgments) (new : count id_of (id_of jd) t.judgments ≡ 0)
    (unsettled : is_settled (id_of jd) t.reconciliations ≡ false) where
  extended : IntelTables
  extended = record t { judgments = t.judgments ++ jd ∷ [] }

  extended-IsDistinct : IsDistinct id_of extended.judgments
  unfolding extended
  extended-IsDistinct i = elim (Bool-cases (text_eq i (id_of jd))) [
    | inl e ↦
        subst (λ (j : Text). count id_of j extended.judgments ≤ 1) (sym (text_eq→eq i (id_of jd) e))
          (ground (
            arith,
            new,
            total-append (λ x. if text_eq (id_of jd) (id_of x) then 1 else 0) t.judgments (jd ∷ []),
          ))
    | inr e ↦ ground (
      arith,
      e,
      distinct i,
      total-append (λ x. if text_eq i (id_of x) then 1 else 0) t.judgments (jd ∷ []),
    )
  ]

  expired_ : List IntelJudgment
  expired_ = expired_unsettled_judgments later extended

  found :
      leb jd.expiry_at later ≡ true
      → settlement_of (id_of jd) (rows db later expired_) ≡ some (row_of db later jd)
  unfolding expired_ extended expired_unsettled_judgments IsFound
  found e =
      let kept = keep (is_open later t.reconciliations) (t.judgments ++ jd ∷ []) in
      keep-last (IsFound db later (rows db later expired_)) (is_open later t.reconciliations)
        t.judgments jd (ground (arith, e, unsettled))
        (stable_sort-All expires_first _ kept
          (rows-IsFound db later _ (expired-IsDistinct db later extended extended-IsDistinct)))

  absent : leb jd.expiry_at later ≡ false → settlement_of (id_of jd) (rows db later expired_) ≡ none
  unfolding expired_ extended expired_unsettled_judgments
  absent e =
      let is_open_ = is_open later t.reconciliations in
      settlement_of-absent db later (id_of jd) expired_ (
        omega (
          arith,
          new,
          keep-not_last is_open_ (id_of jd) t.judgments jd (ground (arith, e)),
          total-Perm (λ x. if text_eq (id_of jd) (id_of x) then 1 else 0)
              (stable_sort-perm expires_first (keep is_open_ (t.judgments ++ jd ∷ []))),
        ))

  settled_later :
      let (out, t') = reconcile_judgments db later extended in
      out.failed ≡ false
      → settlement_of (id_of jd) t'.reconciliations
        ≡ (if leb jd.expiry_at later then some (row_of db later jd) else none)
  unfolding expired_ rows extended
  settled_later ok =
      let (same, _, _, written_, rest) =
        reconcile_judgments-settles db later extended extended-IsDistinct in
      let every : take (reconcile_judgments db later extended).0.settled expired_ ≡ expired_ =
        elim rest [
          | inl bad ↦ absurd (false≢true (sym ok ∙ bad))
          | inr (count_, _) ↦ ap (λ (n : ℕ). take n expired_) count_ ∙ take-all expired_
        ] in
      let read : settlement_of (id_of jd) (reconcile_judgments db later extended).1.reconciliations
          ≡ settlement_of (id_of jd) (rows db later expired_) =
        ap (settlement_of (id_of jd))
          (written_ ∙ ap (λ l. t.reconciliations ++ map (row_of db later) l) every)
        ∙ settlement_of-append (id_of jd) t.reconciliations (rows db later expired_) unsettled in
      elim (Bool-cases (leb jd.expiry_at later)) [
        | inl e ↦ read ∙ found e ∙ rw e refl
        | inr e ↦ read ∙ absent e ∙ rw e refl
      ]

-- Of a registration that is stored under a new identifier, among judgments that have different
-- identifiers: the judgment expires after its registration, and after any later run of the settlement
-- that does not fail it is settled by the row that its prices score where the run is not before
-- its expiry, and is not settled where it is.
pub register_judgment-settled :
    (s : Surroundings) (now later : Instant) (in_ : JudgmentInput) (t t' : IntelTables)
    (jd : IntelJudgment) (db : Database)
    → register_judgment s now in_ t ≡ stored jd t'
    → IsDistinct id_of t.judgments
    → has_judgment s.new_id t.judgments ≡ false
    → is_settled s.new_id t.reconciliations ≡ false
    → (reconcile_judgments db later t').0.failed ≡ false
    → (now < jd.expiry_at)
      × (settlement_of s.new_id (reconcile_judgments db later t').1.reconciliations
          ≡ (if leb jd.expiry_at later then some (row_of db later jd) else none))
unfolding HasStored extended
register_judgment-settled s now later in_ t t' jd db stored_ distinct new unsettled ok =
    let (future, named, table) =
      subst (HasStored s now t) stored_ (register-HasStored s now in_ t) in
    let fresh : has_judgment jd.judgment_id t.judgments ≡ false =
      ap (λ i. has_judgment i t.judgments) named ∙ new in
    let table' : t' ≡ record t { judgments = t.judgments ++ jd ∷ [] } =
      table ∙ (unfold insert_judgment in rw fresh refl) in
    let settled =
      settled_later db later t jd distinct (has_judgment-count (id_of jd) t.judgments fresh)
        (ap (λ i. is_settled i t.reconciliations) named ∙ unsettled) in
    let outcome : Option IntelReconciliation =
      if leb jd.expiry_at later then some (row_of db later jd) else none in
    let read : settlement_of (id_of jd) (reconcile_judgments db later t').1.reconciliations
        ≡ outcome =
      subst
        (λ (u : IntelTables).
          (reconcile_judgments db later u).0.failed ≡ false
          → settlement_of (id_of jd) (reconcile_judgments db later u).1.reconciliations ≡ outcome)
        (sym table') settled ok in
    (
      future,
      subst
          (λ (i : Text).
            settlement_of i (reconcile_judgments db later t').1.reconciliations ≡ outcome)
          named read,
    )
