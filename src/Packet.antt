-- ===== src/Packet.antt =====
-- crates/ptp-core/src/container.rs, framing.rs and codes.rs: the PTP/IP packets.
pub mod Types
pub mod Params
pub mod AnyParams
pub mod Decode
pub mod Encode
pub mod Layout
pub mod Framing
