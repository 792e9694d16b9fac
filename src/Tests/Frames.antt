-- ===== src/Tests/Frames.antt =====
-- crates/protocol-primitives/src/usb_ptp.rs and fuji_framing.rs at concrete packets.
use ptpsim.Prelude.{ℕ, ◌≡◌, refl, List, [], ◌∷◌, ok, arith}
use ptpsim.Packet.Types.{PtpIpPacket, IsWire}
use ptpsim.Frame.Usb
use ptpsim.Frame.Fuji
use ptpsim.Frame.RoundTrip.{with_default_phase, usb-decode-encode}
use ptpsim.Frame.Agreement.{fuji_within_usb}

-- A request with a data phase of 2, which the containers drop.
abbrev request : PtpIpPacket
request =
    PtpIpPacket.operation_request
      (record { data_phase_info = 2; code = 0x1014; transaction_id = 3; params = 0x5005 ∷ [] })

abbrev request_bytes : List ℕ
request_bytes = 16 ∷ 0 ∷ 0 ∷ 0 ∷ 1 ∷ 0 ∷ 20 ∷ 16 ∷ 3 ∷ 0 ∷ 0 ∷ 0 ∷ 5 ∷ 80 ∷ 0 ∷ 0 ∷ []

request-IsWire : IsWire request
request-IsWire = (omega arith, omega arith, omega arith, (omega arith, tt))

request-encodes : Fuji.encode request ≡ ok request_bytes
unfolding Fuji.encode ptpsim.Wire.Writer.patch_u32 ptpsim.Wire.Bytes.to_le_bytes
    ptpsim.Wire.Writer.u32 ptpsim.Wire.Writer.u16 ptpsim.Wire.Writer.new
request-encodes = refl

request-decodes : Fuji.decode request_bytes ≡ ok (with_default_phase request)
unfolding Fuji.decode ptpsim.Wire.Reader.run ptpsim.Wire.Reader.◌>>=◌ ptpsim.Wire.Reader.u32
    ptpsim.Wire.Bytes.from_le_bytes ptpsim.Wire.Reader.u16 ptpsim.Packet.Params.remaining_params
    ptpsim.Wire.Reader.finish
request-decodes = refl

usb-decode-encode_example :
    (bytes : List ℕ) × (Usb.encode request ≡ ok bytes)
    × (Usb.decode bytes ≡ ok (with_default_phase request))
unfolding ptpsim.Wire.Bytes.to_le_bytes
usb-decode-encode_example = usb-decode-encode request request-IsWire refl (omega arith)

fuji_within_usb_example : Usb.decode request_bytes ≡ ok (with_default_phase request)
fuji_within_usb_example = fuji_within_usb request_bytes (with_default_phase request) request-decodes
