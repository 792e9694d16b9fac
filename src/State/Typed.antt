-- ===== src/State/Typed.antt =====
-- crates/camera-sim/src/state.rs: values at a declared datatype.
use Prim.Native.String.{String}
use text.Mathlib.Text.{◌==◌ as str_eq}
use ptpsim.Prelude.{
  ℕ, zero, suc, ◌+◌, ◌-◌, ◌/◌, ◌%◌, ◌^◌, [], ◌∷◌, ◌++◌, Option, none, some, ltb, ◌==◌,
  if◌then◌else◌,
}
use ptpsim.Wire.Bytes.{ℤ, pos, negsuc, to_signed, to_unsigned}
use ptpsim.Wire.Utf16.{Text}
use ptpsim.Dataset.Prop.{PropValue}
use ptpsim.Manifest.Property.{DescriptorValue}

unfoldable pub datatype_of : Option String → ℕ
datatype_of none = 0x0004
datatype_of (some ty) =
    if str_eq ty "i8"
    then 0x0001
    else if str_eq ty "u8"
    then 0x0002
    else if str_eq ty "i16"
    then 0x0003
    else if str_eq ty "u16"
    then 0x0004
    else if str_eq ty "i32"
    then 0x0005
    else if str_eq ty "u32"
    then 0x0006
    else if str_eq ty "i64"
    then 0x0007
    else if str_eq ty "u64"
    then 0x0008
    else if str_eq ty "str"
    then 0xffff
    else 0x0004

-- The decimal digits of a number of at most `n` of them.
unfoldable pub decimal : ℕ → ℕ → Text
decimal zero v = []
decimal (suc n) v =
    let front = decimal n (v / 10) in
    if ltb v 10 then (48 + v) ∷ [] else front ++ ((48 + v % 10) ∷ [])

-- `i64::to_string`; 2^63 has 19 digits.
unfoldable pub to_string : ℤ → Text
to_string (pos v) = decimal 19 v
to_string (negsuc v) = 45 ∷ decimal 19 (v + 1)

-- `v as i64 as` the unsigned and the signed type of so many bits.
abbrev pub as_unsigned : ℕ → ℤ → ℕ
as_unsigned bits v = to_unsigned (2 ^ 63) v % 2 ^ bits

abbrev pub as_signed : ℕ → ℤ → ℤ
as_signed bits v = to_signed (2 ^ (bits - 1)) (as_unsigned bits v)

unfoldable pub typed : ℕ → ℤ → PropValue
typed datatype v =
    if datatype == 0x0001
    then PropValue.i8 (as_signed 8 v)
    else if datatype == 0x0002
    then PropValue.u8 (as_unsigned 8 v)
    else if datatype == 0x0003
    then PropValue.i16 (as_signed 16 v)
    else if datatype == 0x0004
    then PropValue.u16 (as_unsigned 16 v)
    else if datatype == 0x0005
    then PropValue.i32 (as_signed 32 v)
    else if datatype == 0x0006
    then PropValue.u32 (as_unsigned 32 v)
    else if datatype == 0x0007
    then PropValue.i64 v
    else if datatype == 0x0008
    then PropValue.u64 (as_unsigned 64 v)
    else if datatype == 0xffff
    then PropValue.str (to_string v)
    else PropValue.u16 (as_unsigned 16 v)

unfoldable pub default_prop_value : ℕ → PropValue
default_prop_value datatype =
    if datatype == 0xffff then PropValue.str [] else typed datatype (pos 0)

unfoldable pub typed_descriptor_value : ℕ → DescriptorValue → Option PropValue
typed_descriptor_value datatype (DescriptorValue.int value) = some (typed datatype value)
typed_descriptor_value datatype (DescriptorValue.str value) =
    if datatype == 0xffff then some (PropValue.str value) else none
