-- ===== src/Journal.antt =====
-- The trade journal: FIFO matching of executions into round trips (internal/journal/matcher.go,
-- over pkg/model/account.go and pkg/model/round_trip.go).
pub mod Types
pub mod Match
pub mod Fill
pub mod Accounting
pub mod Sides
pub mod Fifo
pub mod Cash
pub mod Expiry
pub mod Groups
mod Tests
