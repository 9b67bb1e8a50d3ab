-- ===== src/ShockIntel/Cache.antt =====
-- The two caches of a market source (internal/shockintel/source_cache.go). Quotes, depth and option
-- metrics are each kept by the same code over another type; what stands here for one of them is that
-- code. The key of a quote or of an option metric is its identifier alone: its levels are 0 here. A
-- map is the list of its writes, the newest first. The calls between two holdings of the lock are
-- the steps of a call.
pub mod Keys
pub mod Fetch
pub mod Ttl
pub mod Bundle
use optix.Base.{
  ℕ, ◌+◌, Bool, true, false, ◌&&◌, ◌||◌, not, List, [], ◌∷◌, ◌++◌, Option, none, some, ltb, map,
  if◌then◌else◌,
}
use optix.Base.Int.{ℤ, eqb_ℤ}
use optix.Base.Text.{Text, text_eq}
use optix.Base.Time.{Instant}

-- `depthCacheKey`
pub record CacheKey : Type 0 where
  pub id : Text
  pub levels : ℤ

unfoldable pub same_key : CacheKey → CacheKey → Bool
unfolding text_eq
same_key a b = text_eq a.id b.id && eqb_ℤ a.levels b.levels

unfoldable pub is_fetched : CacheKey → List CacheKey → Bool
unfolding same_key
is_fetched k [] = false
is_fetched k (j ∷ js) = same_key k j || is_fetched k js

unfoldable pub seen_text : Text → List Text → Bool
unfolding text_eq
seen_text t [] = false
seen_text t (u ∷ us) = text_eq t u || seen_text t us

-- The loop of uniqueStrings, with the values that were seen.
unfoldable pub unique_from : List Text → List Text → List Text
unfolding seen_text
unique_from seen [] = []
unique_from seen (v ∷ vs) =
    let skipped = unique_from seen vs in
    let taken = unique_from (v ∷ seen) vs in
    if text_eq v [] || seen_text v seen then skipped else v ∷ taken

unfoldable pub unique_strings : List Text → List Text
unfolding unique_from
unique_strings vs = unique_from [] vs

-- The identifiers that were not fetched.
unfoldable pub missing_ids : ℤ → List CacheKey → List Text → List Text
unfolding is_fetched
missing_ids levels fetched [] = []
missing_ids levels fetched (i ∷ is) =
    let rest = missing_ids levels fetched is in
    if is_fetched (record { id = i; levels = levels }) fetched then rest else i ∷ rest

unfoldable pub mark_all : ℤ → List Text → List CacheKey → List CacheKey
mark_all levels [] fetched = fetched
mark_all levels (i ∷ is) fetched = mark_all levels is (record { id = i; levels = levels } ∷ fetched)

unfoldable pub find_entry : {A : Type 0} → CacheKey → List (CacheKey × A) → Option A
unfolding same_key
find_entry k [] = none
find_entry k ((j, a) ∷ es) = let rest = find_entry k es in if same_key k j then some a else rest

-- What is found for identifiers is a map too: no identifier is there twice, or its first value counts.
unfoldable pub put_all :
    {A : Type 0} → ℤ → List (Text × A) → List (CacheKey × A) → List (CacheKey × A)
put_all levels [] entries = entries
put_all levels ((i, a) ∷ found) entries =
    (record { id = i; levels = levels }, a) ∷ put_all levels found entries

abbrev with_value : {A : Type 0} → Text → Option A → List (Text × A) → List (Text × A)
with_value i none out = out
with_value i (some a) out = (i, a) ∷ out

-- The entries of some identifiers.
unfoldable pub cached_entries : {A : Type 0} → ℤ → List (CacheKey × A) → List Text → List (Text × A)
unfolding find_entry
cached_entries levels entries [] = []
cached_entries levels entries (i ∷ is) =
    with_value i (find_entry (record { id = i; levels = levels }) entries)
      (cached_entries levels entries is)
