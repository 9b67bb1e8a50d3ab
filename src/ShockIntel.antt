-- ===== src/ShockIntel.antt =====
-- The shock service (internal/shockintel): the caches in front of its market source.
pub mod Types
pub mod Cache
pub mod Liquidity
pub mod Regime
pub mod Fingerprint
pub mod Analogs
pub mod Service
mod Tests
