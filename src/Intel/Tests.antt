-- ===== src/Intel/Tests.antt =====
-- Runs of the market clock, and its theorems at a Friday before a long weekend.
use optix.Base.{◌+◌, ◌*◌, ◌≡◌, ◌≢◌, ◌<◌, ◌≤◌, refl, arith, Option, some, [], if◌then◌else◌, ◌==◌}
use optix.Base.Time.{Instant, day_number, day_seconds}
use optix.Intel.Calendar.{nyse_calendar, is_trading_day, early_close_at, day_of}
use optix.Intel.Phase.{premarket, closed, phase_at, next_transition, day_boundaries, first_after}
use optix.Intel.Phase.{Phase, View, view_for}
use optix.Intel.Views.{Regime, Services, CacheEntry, override_of, resolve_auto_view, cache_ttl}
use optix.Intel.Views.Cache.{IsHonest, asked_at, is_shock, has_event_on, resolve_auto_view_lem}
use optix.Base.Text.{text_eq, codes}
use optix.Intel.Phase.Next.{next_transition-changes, next_transition-steady}

-- 18:00 on Thursday 2 July 2026; the next day is a holiday.
abbrev holiday_eve : Instant
holiday_eve = 740164 * day_seconds + 18 * 3600

holiday_eve_day : day_number 2026 7 2 ≡ 740164
unfolding day_number
holiday_eve_day = refl

after_hours : next_transition holiday_eve ≡ (740164 * day_seconds + 20 * 3600, closed)
unfolding next_transition day_boundaries first_after is_trading_day nyse_calendar early_close_at
    phase_at
after_hours = refl

-- From that closing the market reopens on Monday.
long_weekend :
    next_transition (740164 * day_seconds + 20 * 3600)
    ≡ (740168 * day_seconds + 4 * 3600, premarket)
unfolding next_transition day_boundaries first_after is_trading_day nyse_calendar early_close_at
    phase_at
long_weekend = refl

next_transition-changes_example :
    let (b, p) = next_transition holiday_eve in
    (holiday_eve < b) × (p ≡ phase_at b) × (p ≢ phase_at holiday_eve)
next_transition-changes_example = next_transition-changes holiday_eve

next_transition-steady_example : phase_at (holiday_eve + 60) ≡ phase_at holiday_eve
unfolding next_transition day_boundaries first_after is_trading_day nyse_calendar early_close_at
    phase_at
next_transition-steady_example =
    next_transition-steady holiday_eve (holiday_eve + 60) (omega arith) (omega arith)

-- The service saw a shock within the last minute; it has none now, and is not asked again.
abbrev shock_at_noon : Instant → Option Regime
shock_at_noon t = some (record {
  triggered_view = if t == 740164 * day_seconds + 12 * 3600 then codes "shock" else [];
  reason = codes "shock regime: stressed, score 72";
})

abbrev noon_services : Services
noon_services = record { shock = some shock_at_noon; events = some [] }

abbrev noon_entry : CacheEntry
noon_entry = record {
  entry = override_of (shock_at_noon (740164 * day_seconds + 12 * 3600));
  expiry = 740164 * day_seconds + 12 * 3600 + 60;
}

noon_entry-IsHonest :
    IsHonest shock_at_noon (740164 * day_seconds + 12 * 3600 + 30) (some noon_entry)
noon_entry-IsHonest = (refl, omega arith, omega arith)

resolve_auto_view_lem_example :
    let now = 740164 * day_seconds + 12 * 3600 + 30 in
    let (out, cache') = resolve_auto_view noon_services now Phase.intraday (some noon_entry) in
    IsHonest shock_at_noon now cache'
    × (asked_at cache' ≤ now)
    × (now < asked_at cache' + cache_ttl)
    × (out.base_view ≡ view_for Phase.intraday)
    × (out.view ≡ (
        if is_shock (shock_at_noon (asked_at cache'))
        then View.shock
        else if has_event_on (day_of now) (some [])
        then View.event
        else view_for Phase.intraday))
resolve_auto_view_lem_example =
    resolve_auto_view_lem noon_services shock_at_noon (740164 * day_seconds + 12 * 3600 + 30)
      Phase.intraday (some noon_entry) refl noon_entry-IsHonest

still_shock :
    (resolve_auto_view noon_services
      (740164 * day_seconds + 12 * 3600 + 30)
      Phase.intraday
      (some noon_entry)).0.view
    ≡ View.shock
unfolding resolve_auto_view text_eq
still_shock = refl
