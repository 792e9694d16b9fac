-- ===== src/Wire.antt =====
-- crates/ptp-core/src: the byte cursor, the writer, the PTP wire datatypes and their codecs.
pub mod Error
pub mod Bytes
pub mod Utf16
pub mod Reader
pub mod Writer
pub mod Codes
pub mod Inversion
pub mod Local
pub mod Sound
pub mod Complete
