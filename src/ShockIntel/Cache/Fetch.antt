-- ===== src/ShockIntel/Cache/Fetch.antt =====
-- The shared flight of a fetch (`fetch`). What the contexts and the shared call answer at an attempt
-- is a parameter, and so is which errors are a cancellation or a deadline.
use optix.Base.{
  Bool, true, false, ◌&&◌, Option, none, some, if◌then◌else◌, Option-cases, inl, inr, ◌≡◌, refl,
}

-- `ctx.Err()` before the attempt, the error of the context where it ends first, what the flight
-- returns, whether it was shared, and `ctx.Err()` after it.
pub record Attempt (V E : Type 0) : Type 0 where
  pub before : Option E
  pub ended : Option E
  pub value : V
  pub failure : Option E
  pub shared : Bool
  pub after : Option E

-- `requestInterrupted`
unfoldable pub request_interrupted : {E : Type 0} → (E → Bool) → Option E → Bool
request_interrupted is_interruption none = false
request_interrupted is_interruption (some e) = is_interruption e

abbrev is_none : {E : Type 0} → Option E → Bool
is_none none = true
is_none (some e) = false

-- The value and the error of an attempt; it is none where the loop goes on.
unfoldable pub try_fetch :
    {V E : Type 0} → (E → Bool) → V → Bool → Attempt V E → Option (V × Option E)
unfolding request_interrupted
try_fetch is_interruption nothing first a = elim a.before [
  | some e ↦ some (nothing, some e)
  | none ↦ elim a.ended [
    | some e ↦ some (nothing, some e)
    | none ↦
        if first && a.shared && request_interrupted is_interruption a.failure && is_none a.after
        then none
        else some (a.value, a.failure)
  ]
]

-- The loop: only its first attempt can be followed by another.
unfoldable pub fetch :
    {V E : Type 0} → (E → Bool) → V → Attempt V E → Attempt V E → Option (V × Option E)
unfolding try_fetch
fetch is_interruption nothing a b = elim (try_fetch is_interruption nothing true a) [
  | some r ↦ some r
  | none ↦ try_fetch is_interruption nothing false b
]

try_fetch-last :
    {V E : Type 0} (is_interruption : E → Bool) (nothing : V) (a : Attempt V E)
    → (r : V × Option E) × (try_fetch is_interruption nothing false a ≡ some r)
unfolding try_fetch
try_fetch-last is_interruption nothing a = elim (Option-cases a.before) [
  | inr (e, h) ↦ ((nothing, some e), rw h refl)
  | inl h ↦ elim (Option-cases a.ended) [
    | inr (e, k) ↦ ((nothing, some e), rw (h, k) refl)
    | inl k ↦ ((a.value, a.failure), rw (h, k) refl)
  ]
]

-- The loop ends with a result, by its second attempt.
pub fetch-ends :
    {V E : Type 0} (is_interruption : E → Bool) (nothing : V) (a b : Attempt V E)
    → (r : V × Option E) × (fetch is_interruption nothing a b ≡ some r)
unfolding fetch
fetch-ends is_interruption nothing a b =
    elim (Option-cases (try_fetch is_interruption nothing true a)) [
      | inr (r, h) ↦ (r, rw (h, fetch) refl)
      | inl h ↦ let (r, k) = try_fetch-last is_interruption nothing b in (r, rw (h, fetch) k)
    ]
