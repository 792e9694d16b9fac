-- ===== src/State/TypedValues.antt =====
-- crates/camera-sim/src/state.rs: a value at a declared datatype is of it, and in its range.
use Prim.Native.String.{String}
use ptpsim.Prelude.{
  ℕ, zero, suc, ◌+◌, ◌*◌, ◌/◌, ◌%◌, ◌^◌, ◌≤◌, ◌<◌, ◌≡◌, refl, sym, [], ◌∷◌, Option, none, some, ltb,
  ◌==◌, arith, All, All-append, All-imp, if_case, some_inj, length, length-append, Bool-cases, inl,
  inr, ==_iff, ltb→lt,
}
use mathlib.Core.Path.{subst}
use ptpsim.Wire.Bytes.{ℤ, pos, negsuc, to_signed, IsSigned}
use ptpsim.Wire.Utf16.{Text, IsScalar, encode_char, encode_utf16}
use ptpsim.Wire.Codes.Sequences.{IsPtpText}
use ptpsim.Dataset.Prop.{PropValue, datatype_code}
use ptpsim.Dataset.PropValue.{IsValue}
use ptpsim.Manifest.Property.{DescriptorValue}
use ptpsim.State.Typed.{
  datatype_of, decimal, to_string, as_unsigned, typed, default_prop_value, typed_descriptor_value,
}

-- The datatypes that a property can declare.
pub data IsDatatype : ℕ → Type 0 where
  i8 : IsDatatype 0x0001
  u8 : IsDatatype 0x0002
  i16 : IsDatatype 0x0003
  u16 : IsDatatype 0x0004
  i32 : IsDatatype 0x0005
  u32 : IsDatatype 0x0006
  i64 : IsDatatype 0x0007
  u64 : IsDatatype 0x0008
  str : IsDatatype 0xffff

pub IsDatatype-lt : (d : ℕ) → IsDatatype d → d < 2 ^ 16
IsDatatype-lt d IsDatatype.i8 = omega arith
IsDatatype-lt d IsDatatype.u8 = omega arith
IsDatatype-lt d IsDatatype.i16 = omega arith
IsDatatype-lt d IsDatatype.u16 = omega arith
IsDatatype-lt d IsDatatype.i32 = omega arith
IsDatatype-lt d IsDatatype.u32 = omega arith
IsDatatype-lt d IsDatatype.i64 = omega arith
IsDatatype-lt d IsDatatype.u64 = omega arith
IsDatatype-lt d IsDatatype.str = omega arith

to_signed-IsSigned : (half w : ℕ) → w < 2 * half → IsSigned half (to_signed half w)
unfolding to_signed
to_signed-IsSigned half w h = ground arith

abbrev IsDigit : ℕ → Type 0
IsDigit c = (48 ≤ c) × (c < 58)

decimal-IsDigit : (n v : ℕ) → All IsDigit (decimal n v) × (length (decimal n v) ≤ n)
unfolding decimal
decimal-IsDigit zero v = (tt, omega arith)
decimal-IsDigit (suc n) v = elim (Bool-cases (ltb v 10)) [
  | inl p ↦ rw p (((omega arith, omega (arith, ltb→lt v 10 p)), tt), omega arith)
  | inr p ↦
      let front = decimal-IsDigit n (v / 10) in
      rw p (
        All-append IsDigit (decimal n (v / 10)) ((48 + v % 10) ∷ []) front.0
            ((omega arith, omega arith), tt),
        omega (arith, front.1, length-append (decimal n (v / 10)) ((48 + v % 10) ∷ [])),
      )
]

ascii_text :
    (s : Text) → All (λ c. c < 128) s → All IsScalar s × (length (encode_utf16 s) ≡ length s)
unfolding encode_utf16 encode_char
ascii_text [] h = (tt, refl)
ascii_text (c ∷ s) h =
    let rest = ascii_text s h.1 in ((inl (omega (arith, h.0)), rest.0), ground (arith, h.0, rest.1))

to_string-IsPtpText : (v : ℤ) → IsPtpText (to_string v)
unfolding to_string
to_string-IsPtpText (pos v) =
    let digits = decimal-IsDigit 19 v in
    let ascii =
      ascii_text (decimal 19 v) (All-imp (λ c h. omega (arith, h.1)) (decimal 19 v) digits.0) in
    record { scalars = ascii.0; short = omega (arith, ascii.1, digits.1) }
to_string-IsPtpText (negsuc v) =
    let digits = decimal-IsDigit 19 (v + 1) in
    let ascii =
      ascii_text (45 ∷ decimal 19 (v + 1))
        (omega arith, All-imp (λ c h. omega (arith, h.1)) (decimal 19 (v + 1)) digits.0) in
    record { scalars = ascii.0; short = omega (arith, ascii.1, digits.1) }

pub datatype_of-IsDatatype : (ty : Option String) → IsDatatype (datatype_of ty)
unfolding datatype_of
datatype_of-IsDatatype none = IsDatatype.u16
datatype_of-IsDatatype (some ty) = if_case IsDatatype _ IsDatatype.i8 (
    if_case IsDatatype _ IsDatatype.u8 (
      if_case IsDatatype _ IsDatatype.i16 (
        if_case IsDatatype _ IsDatatype.u16 (
          if_case IsDatatype _ IsDatatype.i32 (
            if_case IsDatatype _ IsDatatype.u32 (
              if_case IsDatatype _ IsDatatype.i64 (
                if_case IsDatatype _ IsDatatype.u64
                  (if_case IsDatatype _ IsDatatype.str IsDatatype.u16))))))))

pub typed-IsValue :
    (datatype : ℕ) (v : ℤ)
    → IsDatatype datatype
    → IsSigned (2 ^ 63) v
    → IsValue datatype (typed datatype v)
unfolding typed datatype_code
typed-IsValue datatype v IsDatatype.i8 h = record {
  of_type = refl;
  in_range = to_signed-IsSigned (2 ^ 7) (as_unsigned 8 v) (omega arith);
}
typed-IsValue datatype v IsDatatype.u8 h = record { of_type = refl; in_range = omega arith }
typed-IsValue datatype v IsDatatype.i16 h = record {
  of_type = refl;
  in_range = to_signed-IsSigned (2 ^ 15) (as_unsigned 16 v) (omega arith);
}
typed-IsValue datatype v IsDatatype.u16 h = record { of_type = refl; in_range = omega arith }
typed-IsValue datatype v IsDatatype.i32 h = record {
  of_type = refl;
  in_range = to_signed-IsSigned (2 ^ 31) (as_unsigned 32 v) (omega arith);
}
typed-IsValue datatype v IsDatatype.u32 h = record { of_type = refl; in_range = omega arith }
typed-IsValue datatype v IsDatatype.i64 h = record { of_type = refl; in_range = h }
typed-IsValue datatype v IsDatatype.u64 h = record { of_type = refl; in_range = omega arith }
typed-IsValue datatype v IsDatatype.str h = record {
  of_type = refl;
  in_range = to_string-IsPtpText v;
}

-- What a manifest may hold: numbers of 64 bits, and texts that fit a PTP string.
abbrev pub IsDescriptorValue : DescriptorValue → Type 0
IsDescriptorValue (DescriptorValue.int v) = IsSigned (2 ^ 63) v
IsDescriptorValue (DescriptorValue.str s) = IsPtpText s

pub typed_descriptor_value-IsValue :
    (datatype : ℕ) (value : DescriptorValue) (v : PropValue)
    → IsDatatype datatype
    → IsDescriptorValue value
    → typed_descriptor_value datatype value ≡ some v
    → IsValue datatype v
unfolding typed_descriptor_value datatype_code
typed_descriptor_value-IsValue datatype (DescriptorValue.int n) v d h e =
    subst (IsValue datatype) (some_inj e) (typed-IsValue datatype n d h)
typed_descriptor_value-IsValue datatype (DescriptorValue.str s) v d h e =
    elim (Bool-cases (datatype == 0xffff)) [
      | inl p ↦
          subst (IsValue datatype) (ground (arith, p, e))
            (text_value ((==_iff datatype 0xffff).0 p))
      | inr p ↦ absurd (ground (arith, p, e))
    ]
  where
    text_value : datatype ≡ 0xffff → IsValue datatype (PropValue.str s)
    text_value q = record { of_type = sym q; in_range = h }

pub default_prop_value-IsValue :
    (datatype : ℕ) → IsDatatype datatype → IsValue datatype (default_prop_value datatype)
unfolding default_prop_value datatype_code encode_utf16
default_prop_value-IsValue datatype d = elim (Bool-cases (datatype == 0xffff)) [
  | inl p ↦ rw p (empty ((==_iff datatype 0xffff).0 p))
  | inr p ↦ rw p (typed-IsValue datatype (pos 0) d (omega arith))
]
  where
    empty : datatype ≡ 0xffff → IsValue datatype (PropValue.str [])
    empty q = record { of_type = sym q; in_range = record { scalars = tt; short = omega arith } }
