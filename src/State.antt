-- ===== src/State.antt =====
-- crates/camera-sim/src/state.rs.
pub mod Types
pub mod Calls
pub mod Effects
pub mod Events
pub mod Gates
pub mod Invariant
pub mod Typed
pub mod TypedValues
pub mod Seeds
pub mod Described
pub mod Seeded
pub mod Composed
