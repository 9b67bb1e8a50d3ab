-- ===== src/ShockIntel/Cache/Bundle.antt =====
-- The cache of one bundle (bundleMarketCache).
pub mod Once
use optix.Base.{
  ◌||◌, Bool, true, false, List, [], ◌∷◌, ◌++◌, Option, none, some, if◌then◌else◌, map,
}
use optix.Base.Int.{ℤ}
use optix.Base.Text.{Text}
use optix.ShockIntel.Cache.{
  CacheKey, unique_strings, missing_ids, mark_all, put_all, cached_entries,
}

pub record BundleMarketCache (A E : Type 0) : Type 0 where
  pub entries : List (CacheKey × A)
  pub fetched : List CacheKey
  pub failure : Option E

-- A request of the bundle, with what the source answers for the identifiers that it is asked for.
pub record Request (A E : Type 0) : Type 0 where
  pub levels : ℤ
  pub ids : List Text
  pub answer : List Text → List (Text × A) × Option E

abbrev pub later_failure : {E : Type 0} → Option E → Option E → Option E
later_failure none before = before
later_failure (some e) before = some e

module _ {A E : Type 0} where
  unfoldable pub store_bundle :
      ℤ → List Text → List (Text × A) → Option E → BundleMarketCache A E → BundleMarketCache A E
  unfolding mark_all put_all
  store_bundle levels ids found failure c = record {
    entries = put_all levels found c.entries;
    fetched = mark_all levels ids c.fetched;
    failure = later_failure failure c.failure;
  }

  -- The source is asked for the identifiers that are missing, where there are any.
  unfoldable pub fetch_missing :
      ℤ
      → (List Text → List (Text × A) × Option E)
      → List Text
      → BundleMarketCache A E
      → BundleMarketCache A E
  unfolding store_bundle
  fetch_missing levels answer [] c = c
  fetch_missing levels answer (i ∷ is) c =
      let (found, failure) = answer (i ∷ is) in store_bundle levels (i ∷ is) found failure c

  unfoldable pub asked_of : Request A E → BundleMarketCache A E → List Text
  unfolding unique_strings missing_ids
  asked_of r c = missing_ids r.levels c.fetched (unique_strings r.ids)

  -- The answer of a call, and the cache after it.
  unfoldable pub bundle_call :
      Request A E → BundleMarketCache A E → (List (Text × A) × Option E) × BundleMarketCache A E
  unfolding fetch_missing asked_of unique_strings cached_entries
  bundle_call r c =
      let c' = fetch_missing r.levels r.answer (asked_of r c) c in
      ((cached_entries r.levels c'.entries (unique_strings r.ids), c'.failure), c')

  -- The bundle's calls one after the other, and the identifiers that they ask the source for.
  unfoldable pub bundle_calls : List (Request A E) → BundleMarketCache A E → BundleMarketCache A E
  unfolding bundle_call
  bundle_calls [] c = c
  bundle_calls (r ∷ rs) c = bundle_calls rs (bundle_call r c).1

  unfoldable pub asked_keys : List (Request A E) → BundleMarketCache A E → List CacheKey
  unfolding asked_of bundle_call
  asked_keys [] c = []
  asked_keys (r ∷ rs) c =
      map (λ i. record { id = i; levels = r.levels }) (asked_of r c)
      ++ asked_keys rs (bundle_call r c).1

  unfoldable pub new_bundle : BundleMarketCache A E
  new_bundle = record { entries = []; fetched = []; failure = none }
