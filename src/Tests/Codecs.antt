-- ===== src/Tests/Codecs.antt =====
-- The small codecs of crates/protocol-primitives at concrete inputs.
use ptpsim.Prelude.{ℕ, ◌≡◌, refl, List, [], ◌∷◌, ◌++◌, some, ok, err, length, arith}
use ptpsim.Wire.Bytes.{ℤ, negsuc, from_le_bytes}
use ptpsim.Frame.Error.{value_too_wide}
use ptpsim.Codec.Value.{
  i16, bytes, is_signed, InRange, decode_value, encode_value, encode_value_lem,
}
use ptpsim.Codec.LiveView.{frame_packet, parse_frame, parse_frame-frame_packet}

-- -1 on 16 bits.
minus_one-encodes : encode_value (negsuc 0) i16 ≡ ok (255 ∷ 255 ∷ [])
unfolding encode_value ptpsim.Wire.Bytes.to_le_bytes ptpsim.Wire.Bytes.to_unsigned
minus_one-encodes = refl

encode_value_lem_example :
    (InRange i16 (negsuc 0)
      → (bs : List ℕ) × (encode_value (negsuc 0) i16 ≡ ok bs)
        × (length bs ≡ bytes i16)
        × (decode_value i16 bs ≡ negsuc 0))
    × ((InRange i16 (negsuc 0) → ⊥)
        → encode_value (negsuc 0) i16 ≡ err (value_too_wide (negsuc 0) (bytes i16) (is_signed i16)))
encode_value_lem_example = encode_value_lem (negsuc 0) i16

abbrev jpeg : List ℕ
jpeg = 0xff ∷ 0xd8 ∷ 1 ∷ 2 ∷ 3 ∷ 0xff ∷ 0xd9 ∷ []

abbrev packet : List ℕ
packet = 25 ∷ 0 ∷ 0 ∷ 0 ∷ 0 ∷ 0 ∷ 0 ∷ 0 ∷ 42 ∷ 0 ∷ 0 ∷ 0 ∷ 0 ∷ 0 ∷ 0 ∷ 0 ∷ 0 ∷ 0 ∷ jpeg

packet-framed : frame_packet jpeg 42 ≡ some packet
unfolding frame_packet ptpsim.Wire.Bytes.to_le_bytes
packet-framed = refl

packet-parsed : parse_frame packet ≡ some jpeg
unfolding parse_frame from_le_bytes
packet-parsed = refl

parse_frame-frame_packet_example :
    (bs : List ℕ) × (frame_packet jpeg 42 ≡ some bs) × (parse_frame (bs ++ (9 ∷ [])) ≡ some jpeg)
parse_frame-frame_packet_example = parse_frame-frame_packet jpeg 42 (9 ∷ []) (omega arith)
