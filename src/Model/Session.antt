-- ===== src/Model/Session.antt =====
-- `USMarketSession` (pkg/model/quote.go), at a New York wall-clock time.
use optix.Base.{◌+◌, ◌*◌, ◌≡◌, ◌&&◌, ltb, leb, if◌then◌else◌, arith, none}
use optix.Base.Time.{Instant}
use optix.Intel.Calendar.{
  day_of, minute_of, is_weekend, is_trading_day, early_close_at, nyse_calendar,
}
use optix.Intel.Phase.{Phase, phase_at, phase_in, close_minute}

pub data MarketSession : Type 0 where
  session_pre_market session_regular session_post_market session_closed : MarketSession

unfoldable pub us_market_session : Instant → MarketSession
us_market_session t =
    if is_weekend (day_of t)
    then session_closed
    else let mins = minute_of t in
      if leb (4 * 60) mins && ltb mins (9 * 60 + 30)
      then session_pre_market
      else if leb (9 * 60 + 30) mins && ltb mins (16 * 60)
      then session_regular
      else if leb (16 * 60) mins && ltb mins (20 * 60)
      then session_post_market
      else session_closed

-- The session that a phase of the market clock is.
abbrev pub session_of : Phase → MarketSession
session_of Phase.premarket = session_pre_market
session_of Phase.intraday = session_regular
session_of Phase.postclose = session_post_market
session_of Phase.closed = session_closed

-- The session agrees with the phase of the market clock on every day that the calendar does not
-- list, weekends included.
pub us_market_session-phase_at :
    (t : Instant) → nyse_calendar (day_of t) ≡ none → us_market_session t ≡ session_of (phase_at t)
unfolding us_market_session phase_at phase_in close_minute is_trading_day early_close_at
us_market_session-phase_at t h = ground arith
