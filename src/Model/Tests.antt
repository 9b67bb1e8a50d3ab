-- ===== src/Model/Tests.antt =====
-- Theorems about pkg/model at sample values.
use optix.Base.{◌+◌, ◌*◌, ◌≡◌, refl, none}
use optix.Base.Time.{day_seconds}
use optix.Intel.Calendar.{nyse_calendar}
use optix.Model.Session.{us_market_session, session_regular}
use optix.Base.Text.{codes, trim_space, to_upper}
use optix.Model.Currency.{normalize_currency}

normalize_hkd : normalize_currency (codes " hkd ") ≡ codes "HKD"
unfolding normalize_currency to_upper trim_space
normalize_hkd = refl

-- 2026-07-01 is no listed day; 2026-07-03, a Friday, is a holiday.
unlisted : nyse_calendar 740163 ≡ none
unfolding nyse_calendar
unlisted = refl

open_on_a_holiday : us_market_session (740165 * day_seconds + 10 * 3600) ≡ session_regular
unfolding us_market_session
open_on_a_holiday = refl
