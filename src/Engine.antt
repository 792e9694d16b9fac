-- ===== src/Engine.antt =====
-- crates/camera-sim/src/engine.rs: the engine's queues, gates and mutations.
pub mod Receive
pub mod Descriptors
pub mod Gates
pub mod Mutation
pub mod Transfer
