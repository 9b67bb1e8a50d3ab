-- ===== src/Portfolio.antt =====
-- The concentration report of a portfolio (internal/portfolio/concentration.go).
pub mod Types
pub mod Config
pub mod Rollup
pub mod Report
pub mod Money
pub mod Greeks
pub mod Stress
mod Tests
