-- ===== src/Intel/Views.antt =====
-- The resolved view (internal/intel/view_resolver.go). What the shock and the event service answer is
-- a parameter; the clock is in seconds, of the wall in New York for the date of an event.
pub mod Cache
use optix.Base.{
  ℕ, ◌+◌, ◌*◌, Bool, true, false, ◌&&◌, not, List, [], ◌∷◌, Option, none, some, ltb, ◌==◌,
  if◌then◌else◌,
}
use optix.Base.Text.{Text, text_eq, codes}
use optix.Base.Time.{Instant, Day}
use optix.Intel.Calendar.{day_of}
use optix.Intel.Phase.{Phase, View, view_for}

-- The answer of `Regime`, with the text of its reason.
pub record Regime : Type 0 where
  pub triggered_view : Text
  pub reason : Text

pub record EventDate : Type 0 where
  pub date : Day
  pub label : Text
  pub kind : Text

pub data Source : Type 0 where
  shock_regime event_calendar : Source

pub record ViewOverride : Type 0 where
  pub source : Source
  pub reason : Text

pub record CacheEntry : Type 0 where
  pub entry : Option ViewOverride
  pub expiry : Instant

abbrev pub cache_ttl : ℕ
cache_ttl = 60

-- The services of the handlers, where they are there. The service of the shocks is asked at a time.
pub record Services : Type 0 where
  pub shock : Option (Instant → Option Regime)
  pub events : Option (List EventDate)

pub record ViewResolution : Type 0 where
  pub base_view : View
  pub view : View
  pub override : Option ViewOverride

-- The entry that is cached and has not expired.
unfoldable pub cached_shock_override : Instant → Option CacheEntry → Option (Option ViewOverride)
cached_shock_override now none = none
cached_shock_override now (some e) = if not (ltb now e.expiry) then none else some e.entry

unfoldable pub override_of : Option Regime → Option ViewOverride
override_of none = none
override_of (some r) =
    if text_eq r.triggered_view (codes "shock")
    then some (record { source = shock_regime; reason = r.reason })
    else none

-- The override, and the cache after it.
unfoldable pub resolve_shock_override :
    Services → Instant → Option CacheEntry → Option ViewOverride × Option CacheEntry
unfolding cached_shock_override override_of
resolve_shock_override s now cache = elim s.shock [
  | none ↦ (none, cache)
  | some regime ↦ elim (cached_shock_override now cache) [
    | some entry ↦ (entry, cache)
    | none ↦
        let entry = override_of (regime now) in
        (entry, some (record { entry = entry; expiry = now + cache_ttl }))
  ]
]

abbrev first_text : Text → Text → Text
first_text [] t = t
first_text (c ∷ s) t = c ∷ s

unfoldable pub event_on : Day → List EventDate → Option ViewOverride
event_on d [] = none
event_on d (e ∷ es) =
    if d == e.date
    then some (record {
      source = event_calendar;
      reason = first_text (first_text e.label e.kind) (codes "scheduled event");
    })
    else event_on d es

unfoldable pub resolve_event_override : Services → Instant → Option ViewOverride
unfolding event_on
resolve_event_override s now = elim s.events [ none ↦ none | some es ↦ event_on (day_of now) es ]

unfoldable pub resolve_auto_view :
    Services → Instant → Phase → Option CacheEntry → ViewResolution × Option CacheEntry
unfolding resolve_shock_override resolve_event_override
resolve_auto_view s now phase cache =
    let base = view_for phase in
    let (shock_, cache') = resolve_shock_override s now cache in
    elim shock_ [
      | some o ↦ (record { base_view = base; view = View.shock; override = some o }, cache')
      | none ↦ elim (resolve_event_override s now) [
        | some o ↦ (record { base_view = base; view = View.event; override = some o }, cache')
        | none ↦ (record { base_view = base; view = base; override = none }, cache')
      ]
    ]
