-- ===== src/Crypto.antt =====
-- crates/otap-crypto: the shared secret, the derivation of a trajectory and its verification.
pub mod Secret
pub mod Hmac
pub mod Trajectory
pub mod Verify
pub mod Preimage
pub mod Match
pub mod Label
