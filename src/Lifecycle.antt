-- ===== src/Lifecycle.antt =====
-- crates/camera-config/src/lifecycle.rs: the connection lifecycle contract.
pub mod Types
pub mod Layers
pub mod Tracker
