-- ===== src/EventIntel.antt =====
-- The event service (internal/eventintel), of which this is the comparison of two statements.
pub mod Sentences
pub mod Diff
mod Tests
