-- ===== src/Packet/Framing/Laws.antt =====
-- The frame of a packet: written by `encode`, read back by `decode`.
use ptpsim.Prelude.{
  ℕ, ◌+◌, ◌^◌, ◌<◌, ◌≡◌, refl, ap, List, ◌++◌, length, ok, arith, length-append, eq→==,
}
use ptpsim.Wire.Bytes.{to_le_bytes, length-to_le_bytes}
use ptpsim.Wire.Writer
use ptpsim.Wire.Writer.{emit}
use ptpsim.Wire.Codes.Read.{
  Ends, Ends-pure, Ends-bind, Ends-bind_nil, u32-Codes, finish-Ends, run-Ends,
}
use ptpsim.Wire.Codes.Write.{Emits, Emits-then, u32-Emits}
use ptpsim.Packet.Types.{PtpIpPacket, PacketType, tag, packet_type, from_u32-tag, IsWire}
use ptpsim.Packet.Layout.{body_bytes, encode_body-Emits, decode_body-Ends}
use ptpsim.Packet.Framing.{decode_frame, decode, unpatched, patched, encode_onto}

abbrev pub frame_length : PtpIpPacket → ℕ
frame_length p = 8 + length (body_bytes p)

-- What stands behind the length.
abbrev pub tagged_bytes : PtpIpPacket → List ℕ
tagged_bytes p = to_le_bytes 4 (tag (packet_type p)) ++ body_bytes p

abbrev pub frame_bytes : PtpIpPacket → List ℕ
frame_bytes p = to_le_bytes 4 (frame_length p) ++ tagged_bytes p

pub length-frame_bytes : (p : PtpIpPacket) → length (frame_bytes p) ≡ frame_length p
length-frame_bytes p = omega (
  arith,
  length-append (to_le_bytes 4 (frame_length p)) (tagged_bytes p),
  length-append (to_le_bytes 4 (tag (packet_type p))) (body_bytes p),
  length-to_le_bytes 4 (frame_length p),
  length-to_le_bytes 4 (tag (packet_type p)),
)

unpatched-Emits :
    (p : PtpIpPacket) → IsWire p → Emits (unpatched p) (to_le_bytes 4 0 ++ tagged_bytes p)
unfolding unpatched
unpatched-Emits p h = Emits-then (u32-Emits _) (Emits-then (u32-Emits _) (encode_body-Emits p h))

-- Patching the placeholder at the front of a frame.
pub patched_front :
    (n : ℕ) (bs : List ℕ)
    → 4 + length bs ≡ n
    → n < 2 ^ 32
    → patched (record { buf = to_le_bytes 4 0 ++ bs }) ≡ to_le_bytes 4 n ++ bs
unfolding Writer.patch_u32 to_le_bytes
patched_front n bs e small = ap (λ t. to_le_bytes 4 t ++ bs) (omega arith)

length-tagged_bytes : (p : PtpIpPacket) → 4 + length (tagged_bytes p) ≡ frame_length p
length-tagged_bytes p = omega (
  arith,
  length-append (to_le_bytes 4 (tag (packet_type p))) (body_bytes p),
  length-to_le_bytes 4 (tag (packet_type p)),
)

pub encode_onto-frame :
    (p : PtpIpPacket) (out : List ℕ)
    → IsWire p
    → frame_length p < 2 ^ 32
    → encode_onto p out ≡ ok (out ++ frame_bytes p)
unfolding encode_onto Writer.new
encode_onto-frame p out h small = rw (
  (unpatched-Emits p h).at Writer.new,
  patched_front (frame_length p) (tagged_bytes p) (length-tagged_bytes p) small,
)

tag-lt : (t : PacketType) → tag t < 2 ^ 32
unfolding tag
tag-lt t = ground arith

decode_frame-Ends :
    (p : PtpIpPacket)
    → IsWire p
    → frame_length p < 2 ^ 32
    → Ends (decode_frame (frame_length p)) (frame_bytes p) p
unfolding decode_frame
decode_frame-Ends p h small = Ends-bind _ (u32-Codes (frame_length p) small) (
    Ends-bind _ (u32-Codes (tag (packet_type p)) (tag-lt (packet_type p))) (
      rw (eq→== (frame_length p) _ refl, from_u32-tag (packet_type p))
        (Ends-bind_nil _ (decode_body-Ends p h) (Ends-bind_nil _ finish-Ends (Ends-pure p)))))

pub decode-frame :
    (p : PtpIpPacket) → IsWire p → frame_length p < 2 ^ 32 → decode (frame_bytes p) ≡ ok p
unfolding decode
decode-frame p h small = rw (length-frame_bytes p) (run-Ends _ (decode_frame-Ends p h small))
