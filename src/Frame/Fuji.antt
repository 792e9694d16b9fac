-- ===== src/Frame/Fuji.antt =====
-- crates/protocol-primitives/src/fuji_framing.rs: the Fuji compressed command channel.
use mathlib.Core.Option
use ptpsim.Prelude.{
  ℕ, ◌+◌, ◌%◌, ◌^◌, List, ◌++◌, length, Option, none, some, Result, ok, err, ◌==◌, ltb,
  if◌then◌else◌,
}
use ptpsim.Wire.Error.{DecodeError, unknown_packet_type, length_mismatch}
use ptpsim.Wire.Bytes.{to_le_bytes}
use ptpsim.Wire.Reader.{Decoder, pure, fail, ◌>>=◌, ◌>>◌, finish, u16, u32, rest, run}
use ptpsim.Packet.Types.{PtpIpPacket}
use ptpsim.Packet.Params.{remaining_params}
use ptpsim.Packet.Framing.{patched}
use ptpsim.Frame.Error.{FramingError, not_on_compressed_channel}
use ptpsim.Frame.Control.{control}

-- `mod ty`.
abbrev pub op_request : ℕ
op_request = 1

abbrev pub data_phase : ℕ
data_phase = 2

abbrev pub op_response : ℕ
op_response = 3

unfoldable pub encode : PtpIpPacket → Result FramingError (List ℕ)
unfolding control
encode (PtpIpPacket.operation_request p) =
    ok (patched (control op_request p.code p.transaction_id p.params))
encode (PtpIpPacket.operation_response p) =
    ok (patched (control op_response p.code p.transaction_id p.params))
encode _ = err not_on_compressed_channel

-- `none` is the panic of `expect`: the length does not fit a `u32`.
unfoldable pub data_frame_header : (code transaction_id payload_length : ℕ) → Option (List ℕ)
data_frame_header code transaction_id payload_length =
    if ltb (payload_length + 12) (2 ^ 32)
    then some (
        to_le_bytes 4 (payload_length + 12)
        ++ (to_le_bytes 2 data_phase ++ (to_le_bytes 2 code ++ to_le_bytes 4 transaction_id)))
    else none

-- `payload.len() as u32` wraps before the check.
unfoldable pub encode_data : (code transaction_id : ℕ) → List ℕ → Option (List ℕ)
unfolding data_frame_header
encode_data code transaction_id payload =
    Option.map (λ header. header ++ payload)
      (data_frame_header code transaction_id (length payload % 2 ^ 32))

-- The `match ptype`.
unfoldable pub frame : (ptype code transaction_id : ℕ) → Decoder PtpIpPacket
frame ptype code tid =
    if ptype == op_request
    then (do
      params ← remaining_params
      pure (
          PtpIpPacket.operation_request
            (record { data_phase_info = 1; code = code; transaction_id = tid; params = params })))
    else if ptype == op_response
    then (do
      params ← remaining_params
      pure (
          PtpIpPacket.operation_response
            (record { code = code; transaction_id = tid; params = params })))
    else if ptype == data_phase
    then (do
      payload ← rest
      pure (PtpIpPacket.data_block (record { transaction_id = tid; payload = payload })))
    else fail (unknown_packet_type ptype)

unfoldable pub decode_tail : Decoder PtpIpPacket
unfolding frame
decode_tail = do
  ptype ← u16
  code ← u16
  tid ← u32
  packet ← frame ptype code tid
  finish
  pure packet

unfoldable pub decode_frame : ℕ → Decoder PtpIpPacket
unfolding decode_tail
decode_frame actual = do
  declared ← u32
  if declared == actual then decode_tail else fail (length_mismatch declared actual)

unfoldable pub decode : List ℕ → Result DecodeError PtpIpPacket
unfolding decode_frame
decode bytes = run (decode_frame (length bytes)) bytes
