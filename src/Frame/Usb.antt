-- ===== src/Frame/Usb.antt =====
-- crates/protocol-primitives/src/usb_ptp.rs: PTP-over-USB containers.
use ptpsim.Prelude.{ℕ, ◌+◌, ◌%◌, ◌^◌, List, length, Result, ok, err, ◌==◌, if◌then◌else◌}
use ptpsim.Wire.Error.{DecodeError, unknown_packet_type, length_mismatch}
use ptpsim.Wire.Reader.{Decoder, pure, fail, ◌>>=◌, ◌>>◌, finish, u16, u32, rest, run}
use ptpsim.Wire.Writer
use ptpsim.Packet.Types.{PtpIpPacket}
use ptpsim.Packet.Params.{remaining_params}
use ptpsim.Packet.Framing.{patched}
use ptpsim.Frame.Error.{FramingError, unsupported_packet}
use ptpsim.Frame.Control.{control}

-- `mod ty`.
abbrev pub command : ℕ
command = 1

abbrev pub data_phase : ℕ
data_phase = 2

abbrev pub response : ℕ
response = 3

abbrev pub event_notice : ℕ
event_notice = 4

unfoldable pub encode : PtpIpPacket → Result FramingError (List ℕ)
unfolding control
encode (PtpIpPacket.operation_request p) =
    ok (patched (control command p.code p.transaction_id p.params))
encode (PtpIpPacket.operation_response p) =
    ok (patched (control response p.code p.transaction_id p.params))
encode (PtpIpPacket.event p) = ok (patched (control event_notice p.code p.transaction_id p.params))
encode _ = err unsupported_packet

unfoldable pub encode_data : (code transaction_id : ℕ) → List ℕ → List ℕ
encode_data code transaction_id payload =
    (Writer.bytes payload (
      Writer.u32 transaction_id (
        Writer.u16 code
          (Writer.u16 data_phase (Writer.u32 ((12 + length payload) % 2 ^ 32) Writer.new))))).buf

-- The `match ctype`.
unfoldable pub container : (ctype code transaction_id : ℕ) → Decoder PtpIpPacket
container ctype code tid =
    if ctype == command
    then (do
      params ← remaining_params
      pure (
          PtpIpPacket.operation_request
            (record { data_phase_info = 1; code = code; transaction_id = tid; params = params })))
    else if ctype == response
    then (do
      params ← remaining_params
      pure (
          PtpIpPacket.operation_response
            (record { code = code; transaction_id = tid; params = params })))
    else if ctype == event_notice
    then (do
      params ← remaining_params
      pure (PtpIpPacket.event (record { code = code; transaction_id = tid; params = params })))
    else if ctype == data_phase
    then (do
      payload ← rest
      pure (PtpIpPacket.data_block (record { transaction_id = tid; payload = payload })))
    else fail (unknown_packet_type ctype)

-- Behind the length check.
unfoldable pub decode_tail : Decoder PtpIpPacket
unfolding container
decode_tail = do
  ctype ← u16
  code ← u16
  tid ← u32
  packet ← container ctype code tid
  finish
  pure packet

unfoldable pub decode_container : ℕ → Decoder PtpIpPacket
unfolding decode_tail
decode_container actual = do
  declared ← u32
  if declared == actual then decode_tail else fail (length_mismatch declared actual)

unfoldable pub decode : List ℕ → Result DecodeError PtpIpPacket
unfolding decode_container
decode bytes = run (decode_container (length bytes)) bytes
