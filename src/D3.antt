-- ===== src/D3.antt =====
-- crates/luxstream-otap-d3: the authenticated envelope of the link.
pub mod ReplayCache
pub mod Rpc
pub mod Keys
pub mod Session
pub mod Handshake
pub mod Transport
