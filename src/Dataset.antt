-- ===== src/Dataset.antt =====
-- crates/ptp-core/src/dataset.rs: the structured payloads of data phases.
pub mod Info
pub mod Prop
pub mod Codes
pub mod ObjectInfo
pub mod DeviceInfo
pub mod StorageInfo
pub mod PropValue
pub mod PropDesc
