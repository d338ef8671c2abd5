-- ===== src/Obg.antt =====
-- crates/otap-obg/src/lib.rs: work requests, the queues, the software driver and arming.
pub mod Queues
pub mod Driver
pub mod Arm
pub mod QueueLaws
pub mod Armed
pub mod Loopback
pub mod Endpoint
