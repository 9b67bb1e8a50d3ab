-- ===== src/ShockIntel/Cache/Ttl.antt =====
-- The cache with a time to live (ttlMarketCache). Times are of any unit; the zero time is 0.
pub mod Fresh
use optix.Base.{
  ℕ, ◌+◌, Bool, true, false, List, [], ◌∷◌, ◌++◌, Option, none, some, ltb, if◌then◌else◌,
}
use optix.Base.Int.{ℤ}
use optix.Base.Text.{Text}
use optix.ShockIntel.Cache.{
  CacheKey, unique_strings, missing_ids, mark_all, put_all, cached_entries,
}
use optix.ShockIntel.Cache.Fetch.{request_interrupted}

-- The fields of one kind of data: quotes, quoteFetched, quoteErr and quoteExpiry, and their like.
pub record TtlMarketCache (A E : Type 0) : Type 0 where
  pub entries : List (CacheKey × A)
  pub fetched : List CacheKey
  pub failure : Option E
  pub expiry : ℕ

module _ {A E : Type 0} where
  -- `if now.After(c.quoteExpiry)`
  unfoldable pub drop_expired : ℕ → TtlMarketCache A E → TtlMarketCache A E
  drop_expired now c =
      if ltb c.expiry now
      then record { entries = []; fetched = []; failure = none; expiry = c.expiry }
      else c

  -- The cache after it, and the identifiers that are missing.
  unfoldable pub missing_ttl_ids :
      ℤ → List Text → ℕ → TtlMarketCache A E → TtlMarketCache A E × List Text
  unfolding drop_expired missing_ids
  missing_ttl_ids levels ids now c =
      let c' = drop_expired now c in (c', missing_ids levels c'.fetched ids)

  unfoldable pub store_ttl :
      ℕ → ℤ → List Text → List (Text × A) → Option E → ℕ → TtlMarketCache A E → TtlMarketCache A E
  unfolding mark_all put_all
  store_ttl ttl levels ids found failure now c = record {
    entries = put_all levels found c.entries;
    fetched = mark_all levels ids c.fetched;
    failure = failure;
    expiry = now + ttl;
  }

  unfoldable pub cached_ttl : ℤ → List Text → ℕ → TtlMarketCache A E → List (Text × A) × Option E
  unfolding cached_entries
  cached_ttl levels ids now c =
      if ltb c.expiry now then ([], none) else (cached_entries levels c.entries ids, c.failure)

  -- What follows the fetch: the found, the error, and the cache at that time, which other calls may
  -- have changed since. What is found comes before what is cached, as `maps.Copy` overwrites it.
  unfoldable pub after_fetch :
      (E → Bool)
      → ℕ
      → ℤ
      → List Text
      → List Text
      → ℕ
      → List (Text × A)
      → Option E
      → TtlMarketCache A E
      → (List (Text × A) × Option E) × TtlMarketCache A E
  unfolding request_interrupted cached_ttl store_ttl
  after_fetch is_interruption ttl levels ids missing now found failure c =
      let c' = store_ttl ttl levels missing found failure now c in
      if request_interrupted is_interruption failure
      then ((found ++ (cached_ttl levels ids now c).0, failure), c)
      else (cached_ttl levels ids now c', c')

  -- A whole call of Quotes, Depth or OptionMetrics that no other call interleaves, from the missing
  -- identifiers on; `ask` is the fetch.
  unfoldable pub ttl_answer :
      (E → Bool)
      → ℕ
      → (List Text → List (Text × A) × Option E)
      → ℤ
      → List Text
      → ℕ
      → TtlMarketCache A E
      → List Text
      → (List (Text × A) × Option E) × TtlMarketCache A E
  unfolding cached_ttl after_fetch
  ttl_answer is_interruption ttl ask levels ids now c [] = (cached_ttl levels ids now c, c)
  ttl_answer is_interruption ttl ask levels ids now c (i ∷ is) =
      let (found, failure) = ask (i ∷ is) in
      after_fetch is_interruption ttl levels ids (i ∷ is) now found failure c

  unfoldable pub ttl_call :
      (E → Bool)
      → ℕ
      → (List Text → List (Text × A) × Option E)
      → ℤ
      → List Text
      → ℕ
      → TtlMarketCache A E
      → (List (Text × A) × Option E) × TtlMarketCache A E
  unfolding unique_strings missing_ttl_ids ttl_answer
  ttl_call is_interruption ttl ask levels ids now c =
      let ids' = unique_strings ids in
      let (c', missing) = missing_ttl_ids levels ids' now c in
      ttl_answer is_interruption ttl ask levels ids' now c' missing
