-- ===== src/Base/Lists.antt =====
-- Lists measured by native numbers, and predicates on their items.
use Prim.Native.Nat.{ℕ, zero, suc, ◌+◌}
use mathlib.Core.Path.{◌≡◌, refl, ap, ap₂, ◌∙◌, sym}
use mathlib.Core.Bool.{Bool, false}
use mathlib.Core.List.{List, [], ◌∷◌, ◌++◌, append_assoc, Perm, Permᴰ}
use mathlib.Core.Logic.{∥∥₁_elim}
use native.Mathlib.Nat.{zero-add, suc-add, ℕ_set}
use native.Mathlib.Omega.{arith}
use optix.Base.Tests.{if◌then◌else◌}

module _ {ℓ} {A : Type ℓ} where
  abbrev pub length : List A → ℕ
  length [] = 0
  length (x ∷ xs) = suc (length xs)

  abbrev pub take : ℕ → List A → List A
  take zero xs = []
  take (suc n) [] = []
  take (suc n) (x ∷ xs) = x ∷ take n xs

  abbrev pub drop : ℕ → List A → List A
  drop zero xs = xs
  drop (suc n) [] = []
  drop (suc n) (x ∷ xs) = drop n xs

  abbrev pub replicate : ℕ → A → List A
  replicate zero a = []
  replicate (suc n) a = a ∷ replicate n a

  pub length-append : (xs ys : List A) → length (xs ++ ys) ≡ length xs + length ys
  length-append [] ys = omega arith
  length-append (x ∷ xs) ys = omega (arith, length-append xs ys)

  pub take-append-drop : (n : ℕ) (xs : List A) → take n xs ++ drop n xs ≡ xs
  take-append-drop zero xs = refl
  take-append-drop (suc n) [] = refl
  take-append-drop (suc n) (x ∷ xs) = rw (take-append-drop n xs)

  pub replicate-add : (m n : ℕ) (a : A) → replicate (m + n) a ≡ replicate m a ++ replicate n a
  replicate-add zero n a = rw zero-add
  replicate-add (suc m) n a = rw suc-add (ap (◌∷◌ a) (replicate-add m n a))

  -- The items that a Boolean test keeps.
  abbrev pub keep : (A → Bool) → List A → List A
  keep p [] = []
  keep p (x ∷ xs) = if p x then x ∷ keep p xs else keep p xs

  abbrev pub All {κ} : (Holds : A → Type κ) (items : List A) → Type κ
  All Holds [] = Unit
  All Holds (item ∷ items) = Holds item × All Holds items

  pub All-append {κ} :
      (Holds : A → Type κ) (front back : List A)
      → All Holds front
      → All Holds back
      → All Holds (front ++ back)
  All-append Holds [] back of_front of_back = of_back
  All-append Holds (item ∷ front) back of_front of_back =
      (of_front.0, All-append Holds front back of_front.1 of_back)

  pub All-map {κ μ} :
      (P : A → Type κ) (Q : A → Type μ) (xs : List A) → ((a : A) → P a → Q a) → All P xs → All Q xs
  All-map P Q [] f h = tt
  All-map P Q (x ∷ xs) f h = (f x h.0, All-map P Q xs f h.1)

  -- The sum of a measure over a list.
  abbrev pub total : (A → ℕ) → List A → ℕ
  total m [] = 0
  total m (x ∷ xs) = m x + total m xs

  pub total-append : (m : A → ℕ) (xs ys : List A) → total m (xs ++ ys) ≡ total m xs + total m ys
  total-append m [] ys = omega arith
  total-append m (x ∷ xs) ys = omega (arith, total-append m xs ys)

  total-Permᴰ : (m : A → ℕ) {xs ys : List A} → Permᴰ xs ys → total m xs ≡ total m ys
  total-Permᴰ m Permᴰ.nil = refl
  total-Permᴰ m (Permᴰ.cons e p) = ap₂ ◌+◌ (ap m e) (total-Permᴰ m p)
  total-Permᴰ m (Permᴰ.swap {a = a} {b = b} {a' = a'} {b' = b'} {l = l} e f) =
      omega (arith, ap m e, ap m f)
  total-Permᴰ m (Permᴰ.trans p q) = total-Permᴰ m p ∙ total-Permᴰ m q

  -- A sum does not depend on the order.
  pub total-Perm : (m : A → ℕ) {xs ys : List A} → Perm xs ys → total m xs ≡ total m ys
  total-Perm m p = ∥∥₁_elim p (ℕ_set _ _) (total-Permᴰ m)

-- Each item of a list is replaced by a list.
abbrev pub spread {ℓ κ} : {A : Type ℓ} {B : Type κ} → (A → List B) → List A → List B
spread m [] = []
spread m (x ∷ xs) = m x ++ spread m xs

pub spread-append {ℓ κ} :
    {A : Type ℓ} {B : Type κ} (m : A → List B) (xs ys : List A)
    → spread m (xs ++ ys) ≡ spread m xs ++ spread m ys
spread-append m [] ys = refl
spread-append m (x ∷ xs) ys = simp (spread-append m xs ys, append_assoc)

pub total-spread {ℓ κ} :
    {A : Type ℓ} {B : Type κ} (w : B → ℕ) (m : A → List B) (xs : List A)
    → total w (spread m xs) ≡ total (λ x. total w (m x)) xs
total-spread w m [] = refl
total-spread w m (x ∷ xs) = omega (arith, total-append w (m x) (spread m xs), total-spread w m xs)

module _ {ℓ} {A : Type ℓ} (p : A → Bool) where
  hits : List A → ℕ
  hits xs = total (λ x. if p x then 1 else 0) xs

  hits-zero : (xs : List A) → All (λ x. p x ≡ false) xs → hits xs ≡ 0
  unfolding hits
  hits-zero [] h = refl
  hits-zero (x ∷ xs) h = ground (arith, h.0, hits-zero xs h.1)

  All-of_hits : (xs : List A) → hits xs ≡ 0 → All (λ x. p x ≡ false) xs
  unfolding hits
  All-of_hits [] h = tt
  All-of_hits (x ∷ xs) h = ground (arith, All-of_hits xs)

  -- What no item passes, no item of a rearrangement passes.
  pub All-Perm :
      {xs ys : List A} → Perm xs ys → All (λ x. p x ≡ false) xs → All (λ x. p x ≡ false) ys
  unfolding hits
  All-Perm {xs} {ys} q h =
      All-of_hits ys (sym (total-Perm (λ x. if p x then 1 else 0) q) ∙ hits-zero xs h)
