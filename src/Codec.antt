-- ===== src/Codec.antt =====
-- The small codecs of crates/protocol-primitives: property values and live-view frames.
pub mod Value
pub mod LiveView
