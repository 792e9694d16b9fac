-- ===== src/Frame.antt =====
-- crates/protocol-primitives/src: the vendor and USB framings that reuse the packets of ptp-core.
pub mod Error
pub mod Control
pub mod Usb
pub mod Fuji
pub mod RoundTrip
pub mod Agreement
