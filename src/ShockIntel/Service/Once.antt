-- ===== src/ShockIntel/Service/Once.antt =====
-- What the calls of a bundle ask its source for: each kind of data once.
use optix.Base.{ℕ, List, [], ◌∷◌, Option, none, ◌≡◌, refl}
use optix.Base.Int.{ℤ, pos}
use optix.Base.Text.{Text}
use optix.ShockIntel.Cache.{mark_all, put_all, cached_entries}
use optix.ShockIntel.Cache.Bundle.{later_failure, new_bundle}
use optix.ShockIntel.Service.{
  Kept, shock_quote_ids, option_stress_underlyings, liquidity_ids, cached_call, fresh,
}

module _ {A E : Type 0} (levels : ℤ) (answer : ℕ → List Text → List (Text × A) × Option E) where
  -- What is kept after the source was asked for some identifiers, once.
  abbrev pub kept : List Text → Kept A E
  kept ids = record {
    cache = record {
      entries = put_all levels (answer 0 ids).0 [];
      fetched = mark_all levels ids [];
      failure = later_failure (answer 0 ids).1 none;
    };
    calls = ids ∷ [];
  }

  -- Of what is kept, the entries of some identifiers.
  abbrev pub answered : List Text → List Text → List (Text × A)
  answered asked ids = cached_entries levels (put_all levels (answer 0 asked).0 []) ids

  abbrev pub failed_with : List Text → Option E
  failed_with asked = later_failure (answer 0 asked).1 none

module _ {A E : Type 0} (answer : ℕ → List Text → List (Text × A) × Option E) where
  -- The first call of each kind asks the source for all of its identifiers.
  pub quotes_first : cached_call (pos 0) answer shock_quote_ids fresh ≡ (
    (
      answered (pos 0) answer shock_quote_ids shock_quote_ids,
      failed_with (pos 0) answer shock_quote_ids,
    ),
    kept (pos 0) answer shock_quote_ids,
  )
  unfolding cached_call new_bundle
  quotes_first = refl

  pub depth_first : cached_call (pos 5) answer liquidity_ids fresh ≡ (
    (answered (pos 5) answer liquidity_ids liquidity_ids, failed_with (pos 5) answer liquidity_ids),
    kept (pos 5) answer liquidity_ids,
  )
  unfolding cached_call new_bundle
  depth_first = refl

  pub options_first : cached_call (pos 0) answer option_stress_underlyings fresh ≡ (
    (
      answered (pos 0) answer option_stress_underlyings option_stress_underlyings,
      failed_with (pos 0) answer option_stress_underlyings,
    ),
    kept (pos 0) answer option_stress_underlyings,
  )
  unfolding cached_call new_bundle
  options_first = refl

  -- The later calls ask for none.
  pub quotes_again :
      cached_call (pos 0) answer shock_quote_ids (kept (pos 0) answer shock_quote_ids) ≡ (
        (
          answered (pos 0) answer shock_quote_ids shock_quote_ids,
          failed_with (pos 0) answer shock_quote_ids,
        ),
        kept (pos 0) answer shock_quote_ids,
      )
  unfolding cached_call
  quotes_again = refl

  pub some_quotes_again :
      cached_call (pos 0) answer liquidity_ids (kept (pos 0) answer shock_quote_ids) ≡ (
        (
          answered (pos 0) answer shock_quote_ids liquidity_ids,
          failed_with (pos 0) answer shock_quote_ids,
        ),
        kept (pos 0) answer shock_quote_ids,
      )
  unfolding cached_call
  some_quotes_again = refl

  pub depth_again : cached_call (pos 5) answer liquidity_ids (kept (pos 5) answer liquidity_ids) ≡ (
    (answered (pos 5) answer liquidity_ids liquidity_ids, failed_with (pos 5) answer liquidity_ids),
    kept (pos 5) answer liquidity_ids,
  )
  unfolding cached_call
  depth_again = refl
