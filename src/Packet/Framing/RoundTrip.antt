-- ===== src/Packet/Framing/RoundTrip.antt =====
-- crates/ptp-core/src/framing.rs: round trip and self-delimitation of the standard framing.
use ptpsim.Prelude.{
  ℕ, ◌+◌, ◌^◌, ◌≤◌, ◌<◌, ◌≡◌, ◌≢◌, List, [], ◌∷◌, ◌++◌, length, take, ok, err, arith, ◌==◌,
  if◌then◌else◌, length-take, length-append, take-append_le, take-take, ap, ne→==, ◌∙◌,
}
use ptpsim.Wire.Error.{length_mismatch}
use ptpsim.Wire.Bytes.{from_le_bytes}
use ptpsim.Wire.Reader.{Reader, Decoder, new, u32, run, fail, ◌>>=◌}
use ptpsim.Wire.Inversion.{bind_ok, run_ok, u32_ok, u32_read}
use ptpsim.Packet.Types.{PtpIpPacket, IsWire, from_u32}
use ptpsim.Packet.Framing.{decode, decode_frame, decode_typed, encode}
use ptpsim.Packet.Framing.Laws.{
  frame_bytes, frame_length, length-frame_bytes, encode_onto-frame, decode-frame,
}

-- Every packet whose fields are in range, whose name fits a PTP string and whose frame is shorter
-- than 2^32 bytes is encoded without an error, and decoding the bytes gives the packet back.
pub decode-encode :
    (p : PtpIpPacket)
    → IsWire p
    → frame_length p < 2 ^ 32
    → (bytes : List ℕ) × (encode p ≡ ok bytes)
      × (decode bytes ≡ ok p)
      × (length bytes ≡ frame_length p)
unfolding encode
decode-encode p h small =
    (frame_bytes p, encode_onto-frame p [] h small, decode-frame p h small, length-frame_bytes p)

mismatch_fails :
    (declared actual : ℕ) (m : Decoder PtpIpPacket) (r : Reader) {q : PtpIpPacket × Reader}
    → (if declared == actual then m else fail (length_mismatch declared actual)) r ≡ ok q
    → declared ≡ actual
unfolding fail
mismatch_fails declared actual m r h = ground arith

-- On any input at all: what `decode` accepts has a header, and its first four bytes declare its
-- length.
pub decode_declares_length :
    (bytes : List ℕ) {p : PtpIpPacket}
    → decode bytes ≡ ok p
    → (8 ≤ length bytes) × (from_le_bytes (take 4 bytes) ≡ length bytes)
unfolding decode decode_frame new
decode_declares_length bytes h =
    let (s, e) = run_ok (decode_frame (length bytes)) bytes h in
    let (declared, r, e1, e2) = bind_ok u32 _ (new bytes) e in
    let (type_raw, t, e3, e4) = bind_ok u32 _ r e2 in
    let (room, value, moved) = u32_ok (new bytes) e1 in
    let (room', value', moved') = u32_ok r e3 in
    let same =
      mismatch_fails declared (length bytes) (decode_typed type_raw (from_u32 type_raw)) t e4 in
    (ground (arith, moved), ground arith)

frame_mismatch :
    (bytes : List ℕ)
    → 8 ≤ length bytes
    → from_le_bytes (take 4 bytes) ≢ length bytes
    → decode bytes ≡ err (length_mismatch (from_le_bytes (take 4 bytes)) (length bytes))
unfolding decode decode_frame new ◌>>=◌ fail run
frame_mismatch bytes long differs = rw (
  u32_read (record { buf = bytes; pos = 0 }) (omega arith),
  u32_read (record { buf = bytes; pos = 4 }) (omega arith),
  ne→== (from_le_bytes (take 4 bytes)) (length bytes) differs,
)

-- An accepted frame with anything behind it is refused, and the error names both lengths.
pub decode_suffix :
    (bytes more : List ℕ) (x : ℕ) {p : PtpIpPacket}
    → decode bytes ≡ ok p
    → decode (bytes ++ (x ∷ more))
      ≡ err (length_mismatch (length bytes) (length bytes + (1 + length more)))
decode_suffix bytes more x h =
    let (long, declared) = decode_declares_length bytes h in
    let whole : length (bytes ++ (x ∷ more)) ≡ length bytes + (1 + length more) =
      omega (arith, length-append bytes (x ∷ more)) in
    let front : take 4 (bytes ++ (x ∷ more)) ≡ take 4 bytes =
      take-append_le 4 bytes (x ∷ more) (omega arith) in
    frame_mismatch (bytes ++ (x ∷ more)) (omega arith) (rw (front, declared) (omega arith))
    ∙ rw (front, declared, whole)

-- No proper prefix of an accepted frame is accepted, so the framing is self-delimiting.
pub decode_prefix :
    (bytes : List ℕ) (n : ℕ) {p q : PtpIpPacket}
    → decode bytes ≡ ok p
    → n < length bytes
    → decode (take n bytes) ≢ ok q
decode_prefix bytes n h short accepted =
    let (long, declared) = decode_declares_length bytes h in
    let (long', declared') = decode_declares_length (take n bytes) accepted in
    let size : length (take n bytes) ≡ n = omega (arith, length-take n bytes) in
    let front : take 4 (take n bytes) ≡ take 4 bytes = take-take 4 n bytes (omega arith) in
    absurd (omega (arith, ap from_le_bytes front))
