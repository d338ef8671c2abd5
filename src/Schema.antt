-- ===== src/Schema.antt =====
-- crates/otap-schema: the application schemas, one to an OAM mode, and the dispatch by mode.
pub mod Interface
pub mod EquityOrder
pub mod MarketTick
pub mod Heartbeat
pub mod Registry
