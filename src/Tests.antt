-- ===== src/Tests.antt =====
-- Concrete values, and the theorems applied to them.
pub mod Values
pub mod Link
pub mod Registers
pub mod Signature
pub mod Envelope
pub mod Handshake
pub mod Rings
pub mod Services
pub mod Service
pub mod Programs
