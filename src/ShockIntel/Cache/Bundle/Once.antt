-- ===== src/ShockIntel/Cache/Bundle/Once.antt =====
-- Which identifiers a bundle asks its source for, and what its readings say of one of them.
use optix.Base.{
  ℕ, ◌≡◌, ◌≤◌, refl, sym, ◌∙◌, ap, true, false, ◌&&◌, ◌||◌, List, [], ◌∷◌, Option, none, arith,
  Bool-cases, inl, inr, total, total-append, map, if◌then◌else◌, All,
}
use optix.Base.Int.{ℤ, eqb_ℤ, eq_of_parts}
use optix.Base.Text.{Text}
use optix.ShockIntel.Cache.{
  CacheKey, same_key, is_fetched, seen_text, unique_strings, missing_ids, find_entry,
}
use optix.ShockIntel.Cache.Keys.{
  find_value, key, eqb_self, missing_ids_lem, is_fetched-mark_all, find_entry-put_all,
  find_value-cached_entries, times, unique_strings-times,
}
use optix.ShockIntel.Cache.Bundle.{
  BundleMarketCache, Request, store_bundle, fetch_missing, asked_of, bundle_call, bundle_calls,
  asked_keys, new_bundle,
}

abbrev pub asked_times : CacheKey → List CacheKey → ℕ
asked_times k ks = total (λ j. if same_key k j then 1 else 0) ks

asked_times-map :
    (k : CacheKey) (levels : ℤ) (ids : List Text)
    → asked_times k (map (λ i. record { id = i; levels = levels }) ids)
      ≡ (if eqb_ℤ k.levels levels then times k.id ids else 0)
unfolding same_key
asked_times-map k levels [] = ground arith
asked_times-map k levels (i ∷ ids) = ground (arith, asked_times-map k levels ids)

times-seen :
    (i : Text) (ids : List Text) → times i ids ≤ (if seen_text i ids then times i ids else 0)
unfolding seen_text
times-seen i [] = ground arith
times-seen i (j ∷ ids) = ground (arith, times-seen i ids)

times-missing :
    (levels : ℤ) (fetched : List CacheKey) (i : Text) (ids : List Text)
    → times i (missing_ids levels fetched ids) ≤ times i ids
unfolding missing_ids
times-missing levels fetched i [] = omega arith
times-missing levels fetched i (j ∷ ids) = ground (arith, times-missing levels fetched i ids)

-- Of equal levels there is one key.
same_levels :
    (k : CacheKey) (levels : ℤ) (fetched : List CacheKey)
    → eqb_ℤ k.levels levels ≡ true
    → is_fetched k fetched ≡ is_fetched (key levels k.id) fetched
same_levels k levels fetched same =
    ap (λ (z : ℤ). is_fetched (key z k.id) fetched)
      (eq_of_parts k.levels levels (ground (arith, same)))

module _ {A E : Type 0} where
  fetch_missing-fetched :
      (levels : ℤ) (answer : List Text → List (Text × A) × Option E) (ms : List Text)
      (c : BundleMarketCache A E) (k : CacheKey)
      → is_fetched k (fetch_missing levels answer ms c).fetched
        ≡ (is_fetched k c.fetched || (eqb_ℤ k.levels levels && seen_text k.id ms))
  unfolding fetch_missing store_bundle seen_text
  fetch_missing-fetched levels answer [] c k = ground arith
  fetch_missing-fetched levels answer (m ∷ ms) c k = is_fetched-mark_all levels (m ∷ ms) c.fetched k

  asked_times-asked_of :
      (r : Request A E) (c : BundleMarketCache A E) (k : CacheKey)
      → asked_times k (map (λ i. record { id = i; levels = r.levels }) (asked_of r c)) ≤ (
          if is_fetched k c.fetched
          then 0
          else if eqb_ℤ k.levels r.levels && seen_text k.id (asked_of r c)
          then 1
          else 0)
  unfolding asked_of
  asked_times-asked_of r c k = elim (Bool-cases (eqb_ℤ k.levels r.levels)) [
    | inr other ↦ ground (arith, other, asked_times-map k r.levels (asked_of r c))
    | inl same ↦ ground (
      arith,
      same,
      asked_times-map k r.levels (asked_of r c),
      times-seen k.id (asked_of r c),
      times-missing r.levels c.fetched k.id (unique_strings r.ids),
      unique_strings-times k.id r.ids,
      missing_ids_lem r.levels c.fetched k.id (unique_strings r.ids),
      same_levels k r.levels c.fetched same,
    )
  ]

  asked_once :
      (rs : List (Request A E)) (c : BundleMarketCache A E) (k : CacheKey)
      → asked_times k (asked_keys rs c) ≤ (if is_fetched k c.fetched then 0 else 1)
  unfolding asked_keys bundle_call
  asked_once [] c k = ground arith
  asked_once (r ∷ rs) c k = ground (
    arith,
    asked_times-asked_of r c k,
    asked_once rs (bundle_call r c).1 k,
    fetch_missing-fetched r.levels r.answer (asked_of r c) c k,
    total-append (λ j. if same_key k j then 1 else 0)
        (map (λ i. record { id = i; levels = r.levels }) (asked_of r c))
        (asked_keys rs (bundle_call r c).1),
  )

  -- What is answered for some identifiers is about them.
  abbrev pub IsAnswering : Request A E → Type 0
  IsAnswering r =
      (ids : List Text) (i : Text) → seen_text i ids ≡ false → find_value i (r.answer ids).0 ≡ none

  fetch_missing-entries :
      (levels : ℤ) (answer : List Text → List (Text × A) × Option E) (ms : List Text)
      (c : BundleMarketCache A E) (k : CacheKey)
      → (eqb_ℤ k.levels levels && seen_text k.id ms) ≡ false
      → (seen_text k.id ms ≡ false → find_value k.id (answer ms).0 ≡ none)
      → find_entry k (fetch_missing levels answer ms c).entries ≡ find_entry k c.entries
  unfolding fetch_missing store_bundle
  fetch_missing-entries levels answer [] c k h about = refl
  fetch_missing-entries levels answer (m ∷ ms) c k h about =
      find_entry-put_all levels (answer (m ∷ ms)).0 c.entries k ∙ ground (arith, h, about)

  not_asked :
      (r : Request A E) (c : BundleMarketCache A E) (k : CacheKey)
      → is_fetched k c.fetched ≡ true
      → (eqb_ℤ k.levels r.levels && seen_text k.id (asked_of r c)) ≡ false
  unfolding asked_of
  not_asked r c k h = elim (Bool-cases (eqb_ℤ k.levels r.levels)) [
    | inr other ↦ ground (arith, other)
    | inl same ↦ ground (
      arith,
      h,
      same_levels k r.levels c.fetched same,
      missing_ids_lem r.levels c.fetched k.id (unique_strings r.ids),
    )
  ]

  still_there :
      (r : Request A E) (c : BundleMarketCache A E) (k : CacheKey)
      → IsAnswering r
      → is_fetched k c.fetched ≡ true
      → find_entry k (bundle_call r c).1.entries ≡ find_entry k c.entries
  unfolding bundle_call asked_of
  still_there r c k about h =
      fetch_missing-entries r.levels r.answer (asked_of r c) c k (not_asked r c k h)
        (about (asked_of r c) k.id)

  still_fetched :
      (r : Request A E) (c : BundleMarketCache A E) (k : CacheKey)
      → is_fetched k c.fetched ≡ true
      → is_fetched k (bundle_call r c).1.fetched ≡ true
  unfolding bundle_call
  still_fetched r c k h =
      fetch_missing-fetched r.levels r.answer (asked_of r c) c k ∙ ground (arith, h)

  all_still_there :
      (rs : List (Request A E)) (c : BundleMarketCache A E) (k : CacheKey)
      → All IsAnswering rs
      → is_fetched k c.fetched ≡ true
      → (is_fetched k (bundle_calls rs c).fetched ≡ true)
        × (find_entry k (bundle_calls rs c).entries ≡ find_entry k c.entries)
  unfolding bundle_calls
  all_still_there [] c k about h = (h, refl)
  all_still_there (r ∷ rs) c k about h =
      let (kept, same) = all_still_there rs (bundle_call r c).1 k about.1 (still_fetched r c k h) in
      (kept, same ∙ still_there r c k about.0 h)

  -- A call fetches what it reads.
  reads :
      (r : Request A E) (c : BundleMarketCache A E) (i : Text)
      → seen_text i (unique_strings r.ids) ≡ true
      → (is_fetched (key r.levels i) (bundle_call r c).1.fetched ≡ true)
        × (find_value i (bundle_call r c).0.0
            ≡ find_entry (key r.levels i) (bundle_call r c).1.entries)
  unfolding bundle_call asked_of
  reads r c i h = (
    fetch_missing-fetched r.levels r.answer (asked_of r c) c (key r.levels i)
        ∙ ground (
          arith,
          eqb_self r.levels,
          h,
          missing_ids_lem r.levels c.fetched i (unique_strings r.ids),
        ),
    find_value-cached_entries r.levels _ i (unique_strings r.ids) ∙ rw h refl,
  )

-- The calls of a bundle ask its source for no identifier twice, at any number of levels.
pub asked_keys-once :
    (A E : Type 0) (rs : List (Request A E)) (k : CacheKey)
    → asked_times k (asked_keys rs new_bundle) ≤ 1
unfolding new_bundle is_fetched
asked_keys-once A E rs k = asked_once rs new_bundle k

-- Where the source answers for no identifier that it is not asked for: two calls of a bundle, with any
-- calls between them, that both read an identifier at the same number of levels read the same
-- value of it, or both none.
pub bundle_call-agrees :
    (A E : Type 0) (c : BundleMarketCache A E) (r r' : Request A E) (rs : List (Request A E))
    (i : Text)
    → All IsAnswering rs
    → IsAnswering r'
    → r.levels ≡ r'.levels
    → seen_text i (unique_strings r.ids) ≡ true
    → seen_text i (unique_strings r'.ids) ≡ true
    → find_value i (bundle_call r c).0.0
      ≡ find_value i (bundle_call r' (bundle_calls rs (bundle_call r c).1)).0.0
bundle_call-agrees A E c r r' rs i about about' same h h' =
    let c1 = (bundle_call r c).1 in
    let k = key r.levels i in
    let (there, read) = reads r c i h in
    let (there', kept) = all_still_there rs c1 k about there in
    let (_, read') = reads r' (bundle_calls rs c1) i h' in
    read
    ∙ sym (still_there r' (bundle_calls rs c1) k about' there' ∙ kept)
    ∙ ap (λ (z : ℤ). find_entry (key z i) (bundle_call r' (bundle_calls rs c1)).1.entries) same
    ∙ sym read'
