-- ===== src/Model.antt =====
-- The shared model types of pkg/model.
pub mod Currency
pub mod Session
mod Tests
