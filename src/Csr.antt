-- ===== src/Csr.antt =====
-- crates/otap-csr/src/lib.rs: the register file, its typed writers and its typed views.
pub mod Registers
pub mod Writer
pub mod View
pub mod Access
pub mod Lanes
pub mod PayloadTable
pub mod OamTable
pub mod Secret
pub mod Channel
