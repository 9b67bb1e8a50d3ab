-- ===== src/Broker/Ibkr/Registry.antt =====
-- A Go map by request identifiers, as the list of its entries.
use optix.Base.{
  ◌≡◌, refl, Bool, true, false, List, [], ◌∷◌, Option, none, some, if◌then◌else◌, arith,
}
use optix.Base.Int.{ℤ, eqb_ℤ}

abbrev pub Registry : Type 0 → Type 0
Registry A = List (ℤ × A)

module _ {A : Type 0} where
  unfoldable pub get : ℤ → Registry A → Option A
  get i [] = none
  get i ((j, a) ∷ m) = if eqb_ℤ j i then some a else get i m

  unfoldable pub has : ℤ → Registry A → Bool
  unfolding get
  has i m = elim (get i m) [ none ↦ false | some a ↦ true ]

  unfoldable pub put : ℤ → A → Registry A → Registry A
  put i a [] = (i, a) ∷ []
  put i a ((j, b) ∷ m) = let rest = put i a m in if eqb_ℤ j i then (j, a) ∷ m else (j, b) ∷ rest

  unfoldable pub delete : ℤ → Registry A → Registry A
  delete i [] = []
  delete i ((j, b) ∷ m) = let rest = delete i m in if eqb_ℤ j i then rest else (j, b) ∷ rest

  -- A change of what the entry points to.
  unfoldable pub modify : ℤ → (A → A) → Registry A → Registry A
  modify i f [] = []
  modify i f ((j, b) ∷ m) = (if eqb_ℤ j i then (j, f b) else (j, b)) ∷ modify i f m

  abbrev pub map_some : (A → A) → Option A → Option A
  map_some f none = none
  map_some f (some a) = some (f a)

  pub get-modify :
      (i : ℤ) (f : A → A) (m : Registry A) → get i (modify i f m) ≡ map_some f (get i m)
  unfolding get modify
  get-modify i f [] = refl
  get-modify i f ((j, b) ∷ m) = ground (arith, get-modify i f m)

  pub get-modify_ne :
      (i k : ℤ) (f : A → A) (m : Registry A) → eqb_ℤ i k ≡ false → get k (modify i f m) ≡ get k m
  unfolding get modify
  get-modify_ne i k f [] h = refl
  get-modify_ne i k f ((j, b) ∷ m) h = ground (arith, get-modify_ne i k f m h)

  pub get_same : (i k : ℤ) (m : Registry A) → eqb_ℤ i k ≡ true → get k m ≡ get i m
  unfolding get
  get_same i k [] h = refl
  get_same i k ((j, b) ∷ m) h = ground (arith, get_same i k m h)

  pub get-modify_at :
      (i k : ℤ) (f : A → A) (m : Registry A)
      → get k (modify i f m) ≡ (if eqb_ℤ i k then map_some f (get k m) else get k m)
  unfolding get modify
  get-modify_at i k f [] = ground arith
  get-modify_at i k f ((j, b) ∷ m) = ground (arith, get-modify_at i k f m)

  pub get-put : (i : ℤ) (a : A) (m : Registry A) → get i (put i a m) ≡ some a
  unfolding get put
  get-put i a [] = ground arith
  get-put i a ((j, b) ∷ m) = ground (arith, get-put i a m)
