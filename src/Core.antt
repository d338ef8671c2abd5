-- ===== src/Core.antt =====
-- crates/otap-core: the dimensions of a Transient, the protocol errors and the Transient itself.
pub mod Error
pub mod Float
pub mod Dimensions
pub mod Grid
pub mod Stokes
pub mod Angle
pub mod Transient
