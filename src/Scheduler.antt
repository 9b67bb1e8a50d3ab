-- ===== src/Scheduler.antt =====
-- The background scheduler (internal/scheduler), with the tables that it reads and writes
-- (internal/datastore/sqlite/sqlite.go).
pub mod Jobs
pub mod Batch
pub mod Worker
pub mod Run
mod Tests
