-- ===== src/Broker.antt =====
-- The broker that falls back from IBKR to Yahoo Finance, and the callbacks of the IBKR client
-- (internal/broker).
pub mod Fallback
pub mod Ibkr
pub mod Tests
