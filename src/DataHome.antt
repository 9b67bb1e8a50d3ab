-- ===== src/DataHome.antt =====
-- The place of the database, and its migration (internal/datahome).
pub mod Resolve
pub mod Migrate
mod Tests
