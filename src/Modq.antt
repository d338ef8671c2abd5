-- ===== src/Modq.antt =====
-- crates/otap-modq: the rings of slots that host and FPGA share in BAR memory.
pub mod Bar
pub mod Ring
pub mod Queue
pub mod Consumer
pub mod Programs
