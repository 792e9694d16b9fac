-- ===== src/Tests/Packets.antt =====
-- crates/ptp-core/src/framing.rs at concrete packets.
use ptpsim.Prelude.{
  ℕ, ◌-◌, ◌%◌, ◌/◌, ◌≤◌, ◌≡◌, ◌≢◌, refl, List, [], ◌∷◌, ok, err, length, take, arith,
}
use ptpsim.Wire.Bytes.{from_le_bytes}
use ptpsim.Wire.Error.{unexpected_eof}
use ptpsim.Wire.Reader.{Reader, remaining}
use ptpsim.Packet.Params.{remaining_params}
use ptpsim.Packet.AnyParams.{at_end, remaining_params-total}
use ptpsim.Packet.Types.{PtpIpPacket, operation_request, init_command_ack, IsWire, IsGuid}
use ptpsim.Packet.Framing.{decode, encode}
use ptpsim.Packet.Framing.Laws.{frame_length}
use ptpsim.Packet.Framing.RoundTrip.{decode-encode, decode_declares_length}

-- `GetObject` of handle 1.
abbrev get_object : PtpIpPacket
get_object =
    PtpIpPacket.operation_request
      (record { data_phase_info = 1; code = 0x1009; transaction_id = 7; params = 1 ∷ [] })

abbrev get_object_bytes : List ℕ
get_object_bytes =
    22 ∷ 0 ∷ 0 ∷ 0 ∷ 6 ∷ 0 ∷ 0 ∷ 0 ∷ 1 ∷ 0 ∷ 0 ∷ 0 ∷ 9 ∷ 16 ∷ 7 ∷ 0 ∷ 0 ∷ 0 ∷ 1 ∷ 0 ∷ 0 ∷ 0 ∷ []

get_object-encodes : encode get_object ≡ ok get_object_bytes
unfolding encode ptpsim.Wire.Writer.◌>>◌ ptpsim.Wire.Writer.emit ptpsim.Packet.Encode.encode_body
    ptpsim.Wire.Writer.each ptpsim.Wire.Writer.patch_u32 ptpsim.Wire.Bytes.to_le_bytes
    ptpsim.Wire.Writer.u32 ptpsim.Wire.Writer.u16 ptpsim.Wire.Writer.new ptpsim.Packet.Types.tag
    ptpsim.Packet.Types.packet_type
get_object-encodes = refl

get_object-decodes : decode get_object_bytes ≡ ok get_object
unfolding decode ptpsim.Wire.Reader.run ptpsim.Wire.Reader.◌>>=◌ ptpsim.Wire.Reader.u32
    from_le_bytes ptpsim.Packet.Types.from_u32 ptpsim.Packet.Decode.decode_body
    ptpsim.Packet.Decode.decode_operation_request ptpsim.Wire.Reader.u16
    ptpsim.Packet.Params.remaining_params ptpsim.Wire.Reader.finish
get_object-decodes = refl

get_object-IsWire : IsWire get_object
get_object-IsWire = (omega arith, omega arith, omega arith, (omega arith, tt))

-- The packet comes back from its bytes.
decode-encode_example :
    (bytes : List ℕ) × (encode get_object ≡ ok bytes)
    × (decode bytes ≡ ok get_object)
    × (length bytes ≡ frame_length get_object)
unfolding ptpsim.Wire.Bytes.to_le_bytes
decode-encode_example = decode-encode get_object get_object-IsWire (omega arith)

decode_declares_length_example :
    (8 ≤ length get_object_bytes)
    × (from_le_bytes (take 4 get_object_bytes) ≡ length get_object_bytes)
decode_declares_length_example = decode_declares_length get_object_bytes get_object-decodes

-- Two words and a half are left behind the first byte.
abbrev ragged : Reader
ragged = record { buf = 9 ∷ 1 ∷ 0 ∷ 0 ∷ 0 ∷ 2 ∷ 0 ∷ 0 ∷ 0 ∷ 3 ∷ 0 ∷ []; pos = 1 }

remaining_params-total_example :
    (remaining ragged % 4 ≡ 0
      → (ps : List ℕ) × (remaining_params ragged ≡ ok (ps, at_end ragged))
        × (length ps ≡ remaining ragged / 4))
    × (remaining ragged % 4 ≢ 0
        → remaining_params ragged ≡ err (unexpected_eof ragged.pos (4 - remaining ragged % 4)))
remaining_params-total_example = remaining_params-total ragged (omega arith)
