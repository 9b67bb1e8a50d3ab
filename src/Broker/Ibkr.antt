-- ===== src/Broker/Ibkr.antt =====
-- The callbacks and the connection of the IBKR client (internal/broker/ibkr/wrapper.go, client.go).
pub mod Float
pub mod Ticks
pub mod Quote
pub mod Registry
pub mod Pending
pub mod Wrapper
pub mod Connect
mod Tests
