-- ===== src/Journal/Groups/Bags.antt =====
-- What `enrichBAGFromLegs` makes of the rows of one combination trade.
use mathlib.Core.List.{Mem, Perm, mem-cons_self, mem-cons_of_mem}
use mathlib.Core.List.Perm
use optix.Base.{
  ◌<◌, ◌≡◌, refl, true, false, List, [], ◌∷◌, ◌++◌, append_assoc, append-nil, if◌then◌else◌,
  Bool-cases, inl, inr, arith, ◌⊎◌, spread, All, All-Perm, total, ◌∙◌, subst, some,
}
use optix.Base.Sort.{stable_sort, stable_sort-perm, stable_sort-IsSorted, IsSorted}
use optix.Base.Text.{Text, text_eq, text_lt, text_lt_asym, text_lt_irrefl, text_le_trans}
use optix.Journal.Types.{Execution}
use optix.Journal.Groups.{
  is_bag, leg_expirations, enrich_bag_from_legs, gather, take_row, Legs, no_legs, last_or,
}
use optix.Journal.Groups.Partition.{bag_count}

gather-expirations :
    (es : List Execution) (legs : Legs)
    → (gather es legs).expirations ≡ legs.expirations ++ spread leg_expirations es
unfolding gather
gather-expirations [] legs = rw append-nil
gather-expirations (e ∷ es) legs =
    gather-expirations es (take_row e legs)
    ∙ append_assoc legs.expirations (leg_expirations e) (spread leg_expirations es)

-- The row that is kept is one of the combination rows, if there is any.
abbrev KeepsBag : List Execution → Legs → Legs → Type 0
KeepsBag es before after =
    ((bag : Execution) × Mem bag es × (is_bag bag ≡ true) × (after.bag ≡ some bag))
    ⊎ ((total bag_count es ≡ 0) × (after.bag ≡ before.bag))

gather-KeepsBag : (es : List Execution) (legs : Legs) → KeepsBag es legs (gather es legs)
unfolding gather
gather-KeepsBag [] legs = inr (refl, refl)
gather-KeepsBag (e ∷ es) legs = elim (gather-KeepsBag es (take_row e legs)) [
  | inl (bag, m, b, q) ↦ inl (bag, mem-cons_of_mem e m, b, q)
  | inr (none_later, q) ↦ elim (Bool-cases (is_bag e)) [
    | inl here ↦ inl (e, mem-cons_self, here, q ∙ rw here)
    | inr other ↦ inr (rw (other, none_later), q ∙ rw other)
  ]
]

last_or-mem : (d x : Text) (xs : List Text) → Mem (last_or d (x ∷ xs)) (x ∷ xs)
unfolding last_or
last_or-mem d x [] = mem-cons_self
last_or-mem d x (y ∷ ys) = mem-cons_of_mem x (last_or-mem x y ys)

abbrev NotAfter : Text → List Text → Type 0
NotAfter t = All (λ x. text_lt t x ≡ false)

last_or-NotAfter :
    (d x : Text) (xs : List Text)
    → IsSorted text_lt (x ∷ xs)
    → NotAfter (last_or d (x ∷ xs)) (x ∷ xs)
unfolding last_or
last_or-NotAfter d x [] h = (text_lt_irrefl x, tt)
last_or-NotAfter d x (y ∷ ys) h =
    let rest = last_or-NotAfter x y ys h.1 in
    (text_le_trans x y (last_or x (y ∷ ys)) h.0 rest.0, rest)

latest :
    (d : Text) (xs : List Text)
    → let t = last_or d (stable_sort text_lt xs) in NotAfter t xs × (Mem t xs ⊎ (t ≡ d))
unfolding last_or
latest d xs =
    let p = stable_sort-perm text_lt xs in
    chosen (stable_sort text_lt xs) p (stable_sort-IsSorted text_lt text_lt_asym xs)
  where
    chosen :
        (ys : List Text)
        → Perm ys xs
        → IsSorted text_lt ys
        → NotAfter (last_or d ys) xs × (Mem (last_or d ys) xs ⊎ (last_or d ys ≡ d))
    chosen [] p h = (All-Perm (text_lt (last_or d [])) p tt, inr refl)
    chosen (y ∷ ys) p h = (
      All-Perm (text_lt (last_or d (y ∷ ys))) p (last_or-NotAfter d y ys h),
      inl ((Perm.mem_iff p).0 (last_or-mem d y ys)),
    )

-- If a group of rows of one trade holds a combination row, `enrichBAGFromLegs` leaves one row: a
-- combination row of the group, with an expiration that no option leg's is after, and that is a
-- leg's or, where no leg has one, its own; its side, shares and prices are untouched.
pub enrich_bag_from_legs_lem :
    (g : List Execution)
    → 0 < total bag_count g
    → (bag : Execution) × (exp cur : Text) × Mem bag g
      × (is_bag bag ≡ true)
      × (enrich_bag_from_legs g ≡ record bag { expiration = exp; currency = cur } ∷ [])
      × All (λ x. text_lt exp x ≡ false) (spread leg_expirations g)
      × (Mem exp (spread leg_expirations g) ⊎ (exp ≡ bag.expiration))
unfolding enrich_bag_from_legs
enrich_bag_from_legs_lem g h = elim (gather-KeepsBag g no_legs) [
  | inl (bag, m, b, q) ↦
      let legs = gather g no_legs in
      let exps : legs.expirations ≡ spread leg_expirations g = gather-expirations g no_legs in
      let t = latest bag.expiration legs.expirations in
      (
        bag,
        last_or bag.expiration (stable_sort text_lt legs.expirations),
        (if text_eq bag.currency [] then legs.currency else bag.currency),
        m,
        b,
        rw (q, enrich_bag_from_legs),
        subst (NotAfter _) exps t.0,
        subst
            (λ es.
              Mem (last_or bag.expiration (stable_sort text_lt legs.expirations)) es
              ⊎ (last_or bag.expiration (stable_sort text_lt legs.expirations) ≡ bag.expiration))
            exps t.1,
      )
  | inr (no_bag, q) ↦ absurd (omega arith)
]
