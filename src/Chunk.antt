-- ===== src/Chunk.antt =====
-- crates/protocol-primitives/src/chunk_frame.rs: bounded chunk windows under a source-wide checksum.
pub mod Types
pub mod Framed
pub mod Encode
pub mod Decode
pub mod Sum
pub mod Invariant
pub mod Transfer
pub mod Steps
pub mod Delivery
