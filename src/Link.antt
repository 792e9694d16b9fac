-- ===== src/Link.antt =====
-- crates/camera-sim/src/link.rs: the link by which the BLE side arms the PTP/IP session. Each method
-- is one atomic step on the shared state.
pub mod State
pub mod Arming
