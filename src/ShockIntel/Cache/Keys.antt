-- ===== src/ShockIntel/Cache/Keys.antt =====
-- What the keys of the caches remember.
use optix.Base.{
  ℕ, ◌≡◌, ◌≤◌, refl, ◌∙◌, ap, true, ◌&&◌, ◌||◌, not, List, [], ◌∷◌, Option, none, some, arith,
  Bool-cases, inl, inr, total, if◌then◌else◌,
}
use optix.Base.Int.{ℤ, eqb_ℤ}
use optix.Base.Text.{Text, text_eq, text_eq→eq}
use optix.ShockIntel.Cache.{
  CacheKey, same_key, is_fetched, seen_text, unique_from, unique_strings, missing_ids, mark_all,
  find_entry, put_all, cached_entries,
}

-- The value of an identifier.
abbrev pub find_value : {A : Type 0} → Text → List (Text × A) → Option A
find_value i [] = none
find_value i ((j, a) ∷ found) = if text_eq i j then some a else find_value i found

abbrev pub key : ℤ → Text → CacheKey
key levels i = record { id = i; levels = levels }

pub eqb_self : (z : ℤ) → eqb_ℤ z z ≡ true
eqb_self z = ground arith

pub missing_ids_lem :
    (levels : ℤ) (fetched : List CacheKey) (i : Text) (ids : List Text)
    → seen_text i (missing_ids levels fetched ids)
      ≡ (seen_text i ids && not (is_fetched (key levels i) fetched))
unfolding seen_text missing_ids
missing_ids_lem levels fetched i [] = refl
missing_ids_lem levels fetched i (j ∷ ids) = elim (Bool-cases (text_eq i j)) [
  | inl same ↦ ground (
    arith,
    same,
    missing_ids_lem levels fetched i ids,
    ap (λ t. is_fetched (key levels t) fetched) (text_eq→eq i j same),
  )
  | inr other ↦ ground (arith, other, missing_ids_lem levels fetched i ids)
]

pub is_fetched-mark_all :
    (levels : ℤ) (ids : List Text) (fetched : List CacheKey) (k : CacheKey)
    → is_fetched k (mark_all levels ids fetched)
      ≡ (is_fetched k fetched || (eqb_ℤ k.levels levels && seen_text k.id ids))
unfolding is_fetched mark_all seen_text same_key
is_fetched-mark_all levels [] fetched k = ground arith
is_fetched-mark_all levels (i ∷ ids) fetched k =
    is_fetched-mark_all levels ids (key levels i ∷ fetched) k ∙ ground arith

pub find_entry-put_all :
    {A : Type 0} (levels : ℤ) (found : List (Text × A)) (entries : List (CacheKey × A))
    (k : CacheKey)
    → find_entry k (put_all levels found entries) ≡ (
        if eqb_ℤ k.levels levels
        then elim (find_value k.id found) [ some a ↦ some a | none ↦ find_entry k entries ]
        else find_entry k entries)
unfolding find_entry put_all same_key
find_entry-put_all levels [] entries k = ground arith
find_entry-put_all levels ((i, a) ∷ found) entries k =
    ground (arith, find_entry-put_all levels found entries k)

pub find_value-cached_entries :
    {A : Type 0} (levels : ℤ) (entries : List (CacheKey × A)) (i : Text) (ids : List Text)
    → find_value i (cached_entries levels entries ids)
      ≡ (if seen_text i ids then find_entry (key levels i) entries else none)
unfolding cached_entries seen_text
find_value-cached_entries levels entries i [] = refl
find_value-cached_entries levels entries i (j ∷ ids) = elim (Bool-cases (text_eq i j)) [
  | inl same ↦ ground (
    arith,
    same,
    find_value-cached_entries levels entries i ids,
    ap (λ t. find_entry (key levels t) entries) (text_eq→eq i j same),
  )
  | inr other ↦ ground (arith, other, find_value-cached_entries levels entries i ids)
]

-- How often an identifier is in a list.
abbrev pub times : Text → List Text → ℕ
times i ids = total (λ j. if text_eq i j then 1 else 0) ids

unique_from_lem :
    (i : Text) (seen ids : List Text)
    → times i (unique_from seen ids) ≤ (if seen_text i seen then 0 else 1)
unfolding unique_from seen_text
unique_from_lem i seen [] = ground arith
unique_from_lem i seen (j ∷ ids) = elim (Bool-cases (text_eq i j)) [
  | inl same ↦ ground (
    arith,
    same,
    ap (λ t. seen_text t seen) (text_eq→eq i j same),
    unique_from_lem i seen ids,
    unique_from_lem i (j ∷ seen) ids,
  )
  | inr other ↦ ground (arith, other, unique_from_lem i seen ids, unique_from_lem i (j ∷ seen) ids)
]

pub unique_strings-times : (i : Text) (ids : List Text) → times i (unique_strings ids) ≤ 1
unfolding unique_strings seen_text
unique_strings-times i ids = unique_from_lem i [] ids
