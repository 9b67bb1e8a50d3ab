-- ===== src/WebUi.antt =====
-- The web interface's pool of broker connections (internal/webui/broker_pool.go).
pub mod Slot
pub mod Pool
pub mod Tests
