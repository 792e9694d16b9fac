-- ===== src/Fault.antt =====
-- crates/camera-sim/src/fault.rs: occurrence-scoped fault injection.
pub mod Types
pub mod Set
pub mod Armed
pub mod Choice
pub mod Registry
pub mod Preserved
pub mod Lowest
