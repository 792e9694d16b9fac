-- ===== src/Init.antt =====
-- The fixed initialization packets of crates/protocol-primitives/src/fuji_init.rs and legacy_app_init.rs.
pub mod NameField
pub mod AppInit
pub mod RoundTrip
pub mod Legacy
pub mod LegacyRoundTrip
