-- ===== src/Base/Sort.antt =====
-- `sort.SliceStable` and `sort.Strings`, as an insertion sort: the stable order is unique, so the
-- algorithm behind it does not matter.
use mathlib.Core.List.{Perm}
use mathlib.Core.List.Perm
use optix.Base.{
  ◌≡◌, Bool, true, false, List, [], ◌∷◌, if◌then◌else◌, Bool-cases, inl, inr, arith, All, subst,
}

module _ {ℓ} {A : Type ℓ} (less : A → A → Bool) where
  unfoldable pub insert : A → List A → List A
  insert x [] = x ∷ []
  insert x (y ∷ ys) = if less y x then y ∷ insert x ys else x ∷ y ∷ ys

  unfoldable pub stable_sort : List A → List A
  unfolding insert
  stable_sort [] = []
  stable_sort (x ∷ xs) = insert x (stable_sort xs)

  -- No item is below its predecessor.
  abbrev pub IsSorted : List A → Type 0
  IsSorted [] = Unit
  IsSorted (x ∷ []) = Unit
  IsSorted (x ∷ y ∷ ys) = (less y x ≡ false) × IsSorted (y ∷ ys)

  insert-perm : (x : A) (ys : List A) → Perm (insert x ys) (x ∷ ys)
  unfolding insert
  insert-perm x [] = Perm.refl _
  insert-perm x (y ∷ ys) = elim (Bool-cases (less y x)) [
    | inl below ↦ rw below (Perm.trans (Perm.cons y (insert-perm x ys)) (Perm.swap x y ys))
    | inr above ↦ rw above (Perm.refl _)
  ]

  pub stable_sort-perm : (xs : List A) → Perm (stable_sort xs) xs
  unfolding stable_sort
  stable_sort-perm [] = Perm.refl []
  stable_sort-perm (x ∷ xs) =
      Perm.trans (insert-perm x (stable_sort xs)) (Perm.cons x (stable_sort-perm xs))

  insert-All {κ} : (P : A → Type κ) (x : A) (ys : List A) → All P (insert x ys) → P x × All P ys
  unfolding insert
  insert-All P x [] h = h
  insert-All P x (y ∷ ys) h = elim (Bool-cases (less y x)) [
    | inl below ↦
        let (here, rest) =
          subst (λ (b : Bool). All P (if b then y ∷ insert x ys else x ∷ y ∷ ys)) below h in
        let (found, others) = insert-All P x ys rest in (found, (here, others))
    | inr above ↦ subst (λ (b : Bool). All P (if b then y ∷ insert x ys else x ∷ y ∷ ys)) above h
  ]

  -- What holds of the sorted items holds of the items.
  pub stable_sort-All {κ} : (P : A → Type κ) (xs : List A) → All P (stable_sort xs) → All P xs
  unfolding stable_sort
  stable_sort-All P [] h = tt
  stable_sort-All P (x ∷ xs) h =
      let (here, rest) = insert-All P x (stable_sort xs) h in (here, stable_sort-All P xs rest)

  module _ (asym : (a b : A) → less a b ≡ true → less b a ≡ false) where
    insert-IsSorted : (x : A) (ys : List A) → IsSorted ys → IsSorted (insert x ys)
    unfolding insert
    insert-IsSorted x [] h = tt
    insert-IsSorted x (y ∷ []) h = ground (arith, asym y x)
    insert-IsSorted x (y ∷ z ∷ zs) h = ground (arith, asym y x, insert-IsSorted x (z ∷ zs) h.1)

    pub stable_sort-IsSorted : (xs : List A) → IsSorted (stable_sort xs)
    unfolding stable_sort
    stable_sort-IsSorted [] = tt
    stable_sort-IsSorted (x ∷ xs) = insert-IsSorted x (stable_sort xs) (stable_sort-IsSorted xs)
