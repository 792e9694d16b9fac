-- ===== src/Manifest.antt =====
-- crates/camera-config: the manifest's data, and the texts of its codes.
pub mod HexCode
pub mod HexRoundTrip
pub mod Property
pub mod Version
pub mod VersionOrder
pub mod VersionRange
