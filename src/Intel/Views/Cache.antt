-- ===== src/Intel/Views/Cache.antt =====
-- The cache of the shock override.
use optix.Base.{
  ℕ, ◌+◌, ◌-◌, ◌≡◌, ◌≤◌, ◌<◌, refl, ap, Bool, true, false, ◌||◌, List, [], ◌∷◌, Option, none, some,
  ◌==◌, if◌then◌else◌, arith, Option-cases, inl, inr,
}
use optix.Base.Text.{text_eq, codes}
use optix.Base.Time.{Instant, Day}
use optix.Intel.Calendar.{day_of}
use optix.Intel.Phase.{Phase, View, view_for}
use optix.Intel.Views.{
  Regime, EventDate, ViewOverride, CacheEntry, cache_ttl, Services, cached_shock_override,
  override_of, resolve_shock_override, event_on, resolve_event_override, resolve_auto_view,
}

-- When the entry of a cache was asked for.
abbrev pub asked_at : Option CacheEntry → Instant
asked_at none = 0
asked_at (some e) = e.expiry - cache_ttl

-- An entry is what the service answered, when it was asked, at a time not later than `now`.
abbrev pub IsHonest : (Instant → Option Regime) → Instant → Option CacheEntry → Type 0
IsHonest regime now none = Unit
IsHonest regime now (some e) =
    (e.entry ≡ override_of (regime (e.expiry - cache_ttl)))
    × (cache_ttl ≤ e.expiry)
    × (e.expiry ≤ now + cache_ttl)

-- The service answers with the view of a shock.
abbrev pub is_shock : Option Regime → Bool
is_shock none = false
is_shock (some r) = text_eq r.triggered_view (codes "shock")

abbrev pub has_event_on : Day → Option (List EventDate) → Bool
has_event_on d none = false
has_event_on d (some []) = false
has_event_on d (some (e ∷ es)) = d == e.date || has_event_on d (some es)

abbrev has_override : Option ViewOverride → Bool
has_override none = false
has_override (some o) = true

override_of-is_shock : (r : Option Regime) → has_override (override_of r) ≡ is_shock r
unfolding override_of
override_of-is_shock none = refl
override_of-is_shock (some r) = ground arith

event_on-has :
    (d : Day) (es : List EventDate) → has_override (event_on d es) ≡ has_event_on d (some es)
unfolding event_on
event_on-has d [] = refl
event_on-has d (e ∷ es) = ground (arith, event_on-has d es)

resolve_event_override-has :
    (s : Services) (now : Instant)
    → has_override (resolve_event_override s now) ≡ has_event_on (day_of now) s.events
unfolding resolve_event_override
resolve_event_override-has s now = elim (Option-cases s.events) [
  | inl e ↦ ground arith
  | inr (es, e) ↦ ground (arith, event_on-has (day_of now) es)
]

fresh : (now : Instant) → (now + cache_ttl) - cache_ttl ≡ now
fresh now = omega arith

resolve_shock_override_lem :
    (s : Services) (regime : Instant → Option Regime) (now : Instant) (cache : Option CacheEntry)
    → s.shock ≡ some regime
    → IsHonest regime now cache
    → let (o, cache') = resolve_shock_override s now cache in
      IsHonest regime now cache'
      × (asked_at cache' ≤ now)
      × (now < asked_at cache' + cache_ttl)
      × (o ≡ override_of (regime (asked_at cache')))
unfolding resolve_shock_override cached_shock_override
resolve_shock_override_lem s regime now none e h =
    ground (arith, ap (λ (t : ℕ). override_of (regime t)) (fresh now))
resolve_shock_override_lem s regime now (some c) e h =
    ground (arith, ap (λ (t : ℕ). override_of (regime t)) (fresh now))

-- The automatic view is that of a shock where the service said so when it was last asked, which was
-- at most a minute ago; otherwise it is that of an event where one falls on the day, and otherwise
-- that of the phase. The cache that is left is honest again.
pub resolve_auto_view_lem :
    (s : Services) (regime : Instant → Option Regime) (now : Instant) (phase : Phase)
    (cache : Option CacheEntry)
    → s.shock ≡ some regime
    → IsHonest regime now cache
    → let (out, cache') = resolve_auto_view s now phase cache in
      IsHonest regime now cache'
      × (asked_at cache' ≤ now)
      × (now < asked_at cache' + cache_ttl)
      × (out.base_view ≡ view_for phase)
      × (out.view ≡ (
          if is_shock (regime (asked_at cache'))
          then View.shock
          else if has_event_on (day_of now) s.events
          then View.event
          else view_for phase))
unfolding resolve_auto_view
resolve_auto_view_lem s regime now phase cache e h = ground (
  arith,
  resolve_shock_override_lem s regime now cache e h,
  resolve_event_override-has s now,
  override_of-is_shock (regime (asked_at (resolve_shock_override s now cache).1)),
)
