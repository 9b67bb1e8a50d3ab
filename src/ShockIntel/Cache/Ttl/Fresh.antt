-- ===== src/ShockIntel/Cache/Ttl/Fresh.antt =====
-- What a call of the cache with a time to live answers, and what it keeps.
use optix.Base.{ℕ, ◌+◌, ◌≡◌, Bool, true, false, List, [], ◌⊎◌, Option, none}
use optix.Base.Text.{Text}
use optix.ShockIntel.Cache.{CacheKey, is_fetched, seen_text, find_entry}
use optix.ShockIntel.Cache.Fetch.{request_interrupted}
use optix.ShockIntel.Cache.Keys.{find_value}
use optix.ShockIntel.Cache.Ttl.{TtlMarketCache}

-- What of a call stays in the cache: after a fetch that was not interrupted, it expires when the time to
-- live has gone by since; without a fetch or with an interrupted one, it is kept as it is.
abbrev pub IsKept :
    {A E : Type 0}
    → (E → Bool)
    → ℕ
    → ℕ
    → List Text
    → Option E
    → TtlMarketCache A E
    → TtlMarketCache A E
    → Type 0
IsKept is_interruption ttl now missing failure c c' =
    (((missing ≡ []) ⊎ (request_interrupted is_interruption failure ≡ true)) × (c' ≡ c))
    ⊎ ((request_interrupted is_interruption failure ≡ false) × (c'.expiry ≡ now + ttl))

module _ {A E : Type 0} where
  -- What was not fetched has no entry.
  abbrev pub IsCoherent : TtlMarketCache A E → Type 0
  IsCoherent c = (k : CacheKey) → is_fetched k c.fetched ≡ false → find_entry k c.entries ≡ none

  -- What is answered for some identifiers is about them.
  abbrev pub IsAbout : (List Text → List (Text × A) × Option E) → Type 0
  IsAbout ask =
      (ids : List Text) (i : Text) → seen_text i ids ≡ false → find_value i (ask ids).0 ≡ none
