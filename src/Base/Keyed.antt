-- ===== src/Base/Keyed.antt =====
-- Lists whose items have different keys: their sorted order is one, whatever the order they came in.
-- Go walks a map in any order, and sorts what it found.
use mathlib.Core.List.{Perm, Permᴰ}
use mathlib.Core.Logic.{∥∥₁_elim}
use optix.Base.{
  ℕ, ◌+◌, ◌≡◌, ◌≢◌, ◌≤◌, refl, sym, ◌∙◌, ap, ap₂, subst, Bool, true, false, List, [], ◌∷◌, arith,
  total, total-Perm, if◌then◌else◌, Bool-cases, inl, inr,
}
use optix.Base.Text.{Text, text_eq, text_eq_self, text_eq→eq}
use optix.Base.Sort.{insert, stable_sort}

module _ {A : Type 0} (key : A → Text) where
  abbrev pub count : Text → List A → ℕ
  count t xs = total (λ x. if text_eq t (key x) then 1 else 0) xs

  -- No two items have one key.
  abbrev pub IsDistinct : List A → Type 0
  IsDistinct xs = (t : Text) → count t xs ≤ 1

  pub IsDistinct-Perm : {xs ys : List A} → Perm xs ys → IsDistinct xs → IsDistinct ys
  IsDistinct-Perm {xs} {ys} p h t =
      omega (arith, h t, total-Perm (λ x. if text_eq t (key x) then 1 else 0) p)

  -- `m[t] = f(m[t])`, where a key that is not there stands for a new item.
  unfoldable pub change : A → (A → A) → Text → List A → List A
  unfolding text_eq
  change new f t [] = f new ∷ []
  change new f t (x ∷ xs) =
      let rest = change new f t xs in if text_eq t (key x) then f x ∷ xs else x ∷ rest

  module _ (new : A) (f : A → A) (t : Text) (keeps : (x : A) → key (f x) ≡ key x)
      (fresh : key new ≡ t) where
    change-count_ne :
        (u : Text) (xs : List A) → text_eq u t ≡ false → count u (change new f t xs) ≡ count u xs
    unfolding change
    change-count_ne u [] h = ground (arith, keeps new, fresh)
    change-count_ne u (x ∷ xs) h = ground (arith, keeps x, change-count_ne u xs h)

    change-count_le : (xs : List A) → count t xs ≤ 1 → count t (change new f t xs) ≤ 1
    unfolding change
    change-count_le [] h = ground arith
    change-count_le (x ∷ xs) h = ground (arith, keeps x, change-count_le xs)

    pub change-IsDistinct : (xs : List A) → IsDistinct xs → IsDistinct (change new f t xs)
    change-IsDistinct xs h u = elim (Bool-cases (text_eq u t)) [
      | inl e ↦
          subst (λ (v : Text). count v (change new f t xs) ≤ 1) (sym (text_eq→eq u t e))
            (change-count_le xs (h t))
      | inr e ↦ omega (arith, change-count_ne u xs e, h u)
    ]

    pub total-change :
        (m : A → ℕ) (v : ℕ)
        → m new ≡ 0
        → ((x : A) → m (f x) ≡ m x + v)
        → (xs : List A) → total m (change new f t xs) ≡ total m xs + v
    unfolding change
    total-change m v z h [] = omega (arith, z, h new)
    total-change m v z h (x ∷ xs) = ground (arith, h x, total-change m v z h xs)

  module _ (less : A → A → Bool) (asym : (a b : A) → less a b ≡ true → less b a ≡ false)
      (le_trans : (a b c : A) → less b a ≡ false → less c b ≡ false → less c a ≡ false)
      (same_key : (a b : A) → less a b ≡ false → less b a ≡ false → key a ≡ key b) where
    insert-below :
        (x y : A) (zs : List A)
        → less x y ≡ true
        → insert less x (insert less y zs) ≡ insert less y (insert less x zs)
    unfolding insert
    insert-below x y [] h = ground (arith, asym x y h)
    insert-below x y (z ∷ zs) h =
        ground (arith, asym x y h, le_trans y z x, asym z x, asym z y, insert-below x y zs h)

    insert-insert :
        (x y : A) (zs : List A)
        → key x ≢ key y
        → insert less x (insert less y zs) ≡ insert less y (insert less x zs)
    insert-insert x y zs h = elim (Bool-cases (less x y)) [
      | inl e ↦ insert-below x y zs e
      | inr e ↦ elim (Bool-cases (less y x)) [
        | inl k ↦ sym (insert-below y x zs k)
        | inr k ↦ absurd (h (same_key x y e k))
      ]
    ]

    head-distinct : (x y : A) (zs : List A) → IsDistinct (x ∷ y ∷ zs) → key x ≢ key y
    head-distinct x y zs h e =
        let both : count (key x) (x ∷ y ∷ zs) ≤ 1 = h (key x) in
        let here : text_eq (key x) (key x) ≡ true = text_eq_self (key x) in
        let there : text_eq (key x) (key y) ≡ true = ap (text_eq (key x)) (sym e) ∙ here in
        ground (arith, both, here, there)

    sort-Permᴰ :
        {xs ys : List A} → Permᴰ xs ys → IsDistinct xs → stable_sort less xs ≡ stable_sort less ys
    unfolding stable_sort
    sort-Permᴰ Permᴰ.nil h = refl
    sort-Permᴰ (Permᴰ.cons e p) h = ap₂ (insert less) e (sort-Permᴰ p (λ t. omega (arith, h t)))
    sort-Permᴰ (Permᴰ.swap {a = a} {b = b} {l = l} e f) h =
        insert-insert a b (stable_sort less l) (head-distinct a b l h)
        ∙ ap₂ (λ u v. insert less u (insert less v (stable_sort less l))) f e
    sort-Permᴰ (Permᴰ.trans p q) h = sort-Permᴰ p h ∙ sort-Permᴰ q (IsDistinct-Perm ∣ p ∣₁ h)

    -- One order of the items, and another.
    pub stable_sort_unique :
        {xs ys : List A}
        → IsSet A
        → Perm xs ys
        → IsDistinct xs
        → stable_sort less xs ≡ stable_sort less ys
    stable_sort_unique set p h =
        let lists : IsSet (List A) = hlevel set in
        ∥∥₁_elim p (lists (stable_sort less _) (stable_sort less _)) (λ q. sort-Permᴰ q h)
