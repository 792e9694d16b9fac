-- ===== src/Codec/Value.antt =====
-- crates/protocol-primitives/src/value_codec.rs: a property's value at its declared width.
use ptpsim.Prelude.{
  ℕ, ◌*◌, ◌^◌, ◌<◌, ◌≡◌, refl, List, Result, ok, err, Bool, true, false, length, ltb, arith,
  if◌then◌else◌, Bool-cases, inl, inr, ap, ◌∙◌, ltb→lt,
}
use ptpsim.Wire.Bytes.{
  ℤ, pos, negsuc, to_le_bytes, from_le_bytes, to_signed, to_unsigned, IsSigned, length-to_le_bytes,
  from_le_bytes-to_le_bytes, to_signed-to_unsigned, to_unsigned-lt,
}
use ptpsim.Frame.Error.{FramingError, value_too_wide}

pub data ValueWidth : Type 0 where
  u8 u16 u32 i16 i32 : ValueWidth

abbrev pub bytes : ValueWidth → ℕ
bytes u8 = 1
bytes u16 = 2
bytes i16 = 2
bytes u32 = 4
bytes i32 = 4

abbrev pub is_signed : ValueWidth → Bool
is_signed i16 = true
is_signed i32 = true
is_signed u8 = false
is_signed u16 = false
is_signed u32 = false

-- `try_from` of an unsigned type with `bits` bits, and `to_le_bytes` at `n` bytes.
abbrev pub unsigned_value : (bits n : ℕ) → ℤ → FramingError → Result FramingError (List ℕ)
unsigned_value bits n (pos v) too_wide =
    if ltb v (2 ^ bits) then ok (to_le_bytes n v) else err too_wide
unsigned_value bits n (negsuc v) too_wide = err too_wide

-- `try_from` of a signed type, whose values range over `half` on either side, and `as` its unsigned kin.
abbrev pub signed_value : (half n : ℕ) → ℤ → FramingError → Result FramingError (List ℕ)
signed_value half n (pos v) too_wide =
    if ltb v half then ok (to_le_bytes n (to_unsigned half (pos v))) else err too_wide
signed_value half n (negsuc v) too_wide =
    if ltb v half then ok (to_le_bytes n (to_unsigned half (negsuc v))) else err too_wide

unfoldable pub encode_value : ℤ → ValueWidth → Result FramingError (List ℕ)
encode_value value u8 = unsigned_value 8 1 value (value_too_wide value (bytes u8) (is_signed u8))
encode_value value u16 =
    unsigned_value 16 2 value (value_too_wide value (bytes u16) (is_signed u16))
encode_value value u32 =
    unsigned_value 32 4 value (value_too_wide value (bytes u32) (is_signed u32))
encode_value value i16 =
    signed_value (2 ^ 15) 2 value (value_too_wide value (bytes i16) (is_signed i16))
encode_value value i32 =
    signed_value (2 ^ 31) 4 value (value_too_wide value (bytes i32) (is_signed i32))

-- The numbers that a width can hold.
abbrev pub InRange : ValueWidth → ℤ → Type 0
InRange u8 (pos v) = v < 2 ^ 8
InRange u16 (pos v) = v < 2 ^ 16
InRange u32 (pos v) = v < 2 ^ 32
InRange i16 (pos v) = v < 2 ^ 15
InRange i32 (pos v) = v < 2 ^ 31
InRange i16 (negsuc v) = v < 2 ^ 15
InRange i32 (negsuc v) = v < 2 ^ 31
InRange w (negsuc v) = ⊥

-- How a camera reads the bytes of a value.
abbrev pub decode_value : ValueWidth → List ℕ → ℤ
decode_value u8 bs = pos (from_le_bytes bs)
decode_value u16 bs = pos (from_le_bytes bs)
decode_value u32 bs = pos (from_le_bytes bs)
decode_value i16 bs = to_signed (2 ^ 15) (from_le_bytes bs)
decode_value i32 bs = to_signed (2 ^ 31) (from_le_bytes bs)

-- A reading of an encoding of a number that is in range, and the refusal of one that is not.
abbrev Checked :
    (range : Type 0)
    → Result FramingError (List ℕ)
    → (n : ℕ) → (List ℕ → ℤ)
    → ℤ
    → FramingError
    → Type 0
Checked range encoded n decode value too_wide =
    (range → (bs : List ℕ) × (encoded ≡ ok bs) × (length bs ≡ n) × (decode bs ≡ value))
    × ((range → ⊥) → encoded ≡ err too_wide)

unsigned_value-Checked :
    (bits n v : ℕ) (e : FramingError)
    → 2 ^ bits ≡ 256 ^ n
    → Checked
        (v < 2 ^ bits)
        (unsigned_value bits n (pos v) e)
        n
        (λ bs. pos (from_le_bytes bs))
        (pos v)
        e
unsigned_value-Checked bits n v e same = (
  (λ h. (
    to_le_bytes n v,
    ground arith,
    length-to_le_bytes n v,
    ap pos (from_le_bytes-to_le_bytes n v (omega (arith, h, same))),
  )),
  λ out. elim (Bool-cases (ltb v (2 ^ bits))) [
    | inl p ↦ absurd (out (ltb→lt v _ p))
    | inr p ↦ rw p refl
  ],
)

signed_value-Checked :
    (half n : ℕ) (z : ℤ) (e : FramingError)
    → 2 * half ≡ 256 ^ n
    → Checked
        (IsSigned half z)
        (signed_value half n z e)
        n
        (λ bs. to_signed half (from_le_bytes bs))
        z
        e
signed_value-Checked half n z e same = (fits z, out z)
  where
    back :
        (z : ℤ)
        → IsSigned half z
        → to_signed half (from_le_bytes (to_le_bytes n (to_unsigned half z))) ≡ z
    back z h =
        ap (to_signed half) (
          from_le_bytes-to_le_bytes n (to_unsigned half z)
            (omega (arith, to_unsigned-lt half z h, same)))
        ∙ to_signed-to_unsigned half z h

    fits :
        (z : ℤ)
        → IsSigned half z
        → (bs : List ℕ) × (signed_value half n z e ≡ ok bs)
          × (length bs ≡ n)
          × (to_signed half (from_le_bytes bs) ≡ z)
    fits (pos v) h = (
      to_le_bytes n (to_unsigned half (pos v)),
      ground arith,
      length-to_le_bytes n _,
      back (pos v) h,
    )
    fits (negsuc v) h = (
      to_le_bytes n (to_unsigned half (negsuc v)),
      ground arith,
      length-to_le_bytes n _,
      back (negsuc v) h,
    )

    out : (z : ℤ) → (IsSigned half z → ⊥) → signed_value half n z e ≡ err e
    out (pos v) o = elim (Bool-cases (ltb v half)) [
      | inl p ↦ absurd (o (ltb→lt v half p))
      | inr p ↦ rw p refl
    ]
    out (negsuc v) o = elim (Bool-cases (ltb v half)) [
      | inl p ↦ absurd (o (ltb→lt v half p))
      | inr p ↦ rw p refl
    ]

-- A value is encoded if it is in the range of the width and refused, with the value, the width and its
-- signedness, if it is not; the bytes are as many as the width has, and reading them at the width gives
-- the value back.
pub encode_value_lem :
    (value : ℤ) (width : ValueWidth)
    → (InRange width value
        → (bs : List ℕ) × (encode_value value width ≡ ok bs)
          × (length bs ≡ bytes width)
          × (decode_value width bs ≡ value))
      × ((InRange width value → ⊥)
          → encode_value value width ≡ err (value_too_wide value (bytes width) (is_signed width)))
unfolding encode_value
encode_value_lem (pos v) u8 = unsigned_value-Checked 8 1 v _ refl
encode_value_lem (pos v) u16 = unsigned_value-Checked 16 2 v _ refl
encode_value_lem (pos v) u32 = unsigned_value-Checked 32 4 v _ refl
encode_value_lem (negsuc v) u8 = ((λ h. absurd h), λ _. refl)
encode_value_lem (negsuc v) u16 = ((λ h. absurd h), λ _. refl)
encode_value_lem (negsuc v) u32 = ((λ h. absurd h), λ _. refl)
encode_value_lem (pos v) i16 = signed_value-Checked (2 ^ 15) 2 (pos v) _ refl
encode_value_lem (negsuc v) i16 = signed_value-Checked (2 ^ 15) 2 (negsuc v) _ refl
encode_value_lem (pos v) i32 = signed_value-Checked (2 ^ 31) 4 (pos v) _ refl
encode_value_lem (negsuc v) i32 = signed_value-Checked (2 ^ 31) 4 (negsuc v) _ refl
