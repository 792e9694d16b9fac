-- ===== src/Packet/Framing.antt =====
-- crates/ptp-core/src/framing.rs: `PtpIpPacket::decode` and `encode`, the standard TCP framing.
pub mod Laws
pub mod RoundTrip
use ptpsim.Prelude.{
  ℕ, ◌%◌, ◌^◌, List, [], ◌++◌, length, Option, none, some, Result, ok, ◌==◌, if◌then◌else◌,
  and_then,
}
use ptpsim.Wire.Error.{DecodeError, EncodeError, unknown_packet_type, length_mismatch}
use ptpsim.Wire.Reader.{Decoder, pure, fail, ◌>>=◌, ◌>>◌, finish, u32, run}
use ptpsim.Wire.Writer
use ptpsim.Wire.Writer.{Encoder, emit, ◌>>◌ as seq}
use ptpsim.Packet.Types.{PtpIpPacket, PacketType, tag, from_u32, packet_type}
use ptpsim.Packet.Decode.{decode_body}
use ptpsim.Packet.Encode.{encode_body}

-- `ok_or(UnknownPacketType)`, the body, and `r.finish()`.
unfoldable pub decode_typed : ℕ → Option PacketType → Decoder PtpIpPacket
decode_typed type_raw none = fail (unknown_packet_type type_raw)
decode_typed type_raw (some ptype) = do packet ← decode_body ptype; finish; pure packet

-- `actual` is the length of the whole buffer.
unfoldable pub decode_frame : ℕ → Decoder PtpIpPacket
unfolding decode_typed
decode_frame actual = do
  declared ← u32
  type_raw ← u32
  if declared == actual
      then decode_typed type_raw (from_u32 type_raw)
      else fail (length_mismatch declared actual)

unfoldable pub decode : List ℕ → Result DecodeError PtpIpPacket
unfolding decode_frame
decode bytes = run (decode_frame (length bytes)) bytes

-- The frame with a placeholder for its length.
unfoldable pub unpatched : PtpIpPacket → Encoder
unpatched p =
    seq (emit (Writer.u32 0)) (seq (emit (Writer.u32 (tag (packet_type p)))) (encode_body p))

-- `w.len() as u32`, patched in at offset 0.
abbrev pub patched : Writer.Writer → List ℕ
patched w = (Writer.patch_u32 0 (length w.buf % 2 ^ 32) w).buf

-- `PtpCodec::encode`, which appends to `out`.
unfoldable pub encode_onto : PtpIpPacket → List ℕ → Result EncodeError (List ℕ)
unfolding unpatched
encode_onto p out = and_then (unpatched p Writer.new) (λ w. ok (out ++ patched w))

unfoldable pub encode : PtpIpPacket → Result EncodeError (List ℕ)
unfolding encode_onto
encode p = encode_onto p []
