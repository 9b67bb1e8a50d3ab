-- ===== src/Intel.antt =====
-- The market clock of Market Intel (internal/intel): the trading calendar, the four phases of a day,
-- and the daily checkpoints. Times are New York wall-clock times, as `t.In(nyLoc)` gives them: a
-- number of seconds since the start of the year 0000 on that clock. The conversion from UTC is the
-- time zone database's; the clock is moved at 02:00, at no boundary of a phase.
pub mod Calendar
pub mod Phase
pub mod Views
pub mod Checkpoints
pub mod Score
pub mod Judgments
mod Tests
