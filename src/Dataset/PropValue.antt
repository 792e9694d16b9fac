-- ===== src/Dataset/PropValue.antt =====
-- crates/ptp-core/src/dataset.rs: the bytes of a `PropValue` and of a `PropForm`.
use ptpsim.Prelude.{ℕ, ◌%◌, ◌^◌, ◌<◌, ◌≡◌, sym, List, [], ◌++◌, length, All, arith, append-nil}
use mathlib.Core.Path.{subst}
use ptpsim.Wire.Bytes.{IsU8, IsU16, IsU32, IsU64, IsSigned, to_unsigned, to_le_bytes}
use ptpsim.Wire.Writer
use ptpsim.Wire.Writer.{Writer, emit}
use ptpsim.Wire.Codes.Read.{
  Codes, Codes-pure, Codes-bind, Codes-apply, i8-Codes, u8-Codes, i16-Codes, u16-Codes, i32-Codes,
  u32-Codes, i64-Codes, u64-Codes,
}
use ptpsim.Wire.Codes.Sequences.{
  concat_map, string_bytes, IsPtpText, repeat-Codes, ptp_string-Codes,
}
use ptpsim.Wire.Codes.Write.{
  Emits, Emits-then, i8-Emits, u8-Emits, i16-Emits, u16-Emits, i32-Emits, u32-Emits, i64-Emits,
  u64-Emits, each-Emits, ptp_string-Emits,
}
use ptpsim.Dataset.Prop.{
  PropValue, datatype_code, read_value, write_value, PropForm, read_form, write_form,
}

-- The value is in the range of its Rust type; a text fits a PTP string.
abbrev pub InRange : PropValue → Type 0
InRange (PropValue.i8 v) = IsSigned (2 ^ 7) v
InRange (PropValue.u8 v) = IsU8 v
InRange (PropValue.i16 v) = IsSigned (2 ^ 15) v
InRange (PropValue.u16 v) = IsU16 v
InRange (PropValue.i32 v) = IsSigned (2 ^ 31) v
InRange (PropValue.u32 v) = IsU32 v
InRange (PropValue.i64 v) = IsSigned (2 ^ 63) v
InRange (PropValue.u64 v) = IsU64 v
InRange (PropValue.str s) = IsPtpText s

-- In range, and of the datatype that the descriptor declares.
pub record IsValue (datatype : ℕ) (v : PropValue) : Type 0 where
  pub of_type : datatype_code v ≡ datatype
  pub in_range : InRange v

abbrev pub value_bytes : PropValue → List ℕ
value_bytes (PropValue.i8 v) = to_le_bytes 1 (to_unsigned (2 ^ 7) v)
value_bytes (PropValue.u8 v) = to_le_bytes 1 v
value_bytes (PropValue.i16 v) = to_le_bytes 2 (to_unsigned (2 ^ 15) v)
value_bytes (PropValue.u16 v) = to_le_bytes 2 v
value_bytes (PropValue.i32 v) = to_le_bytes 4 (to_unsigned (2 ^ 31) v)
value_bytes (PropValue.u32 v) = to_le_bytes 4 v
value_bytes (PropValue.i64 v) = to_le_bytes 8 (to_unsigned (2 ^ 63) v)
value_bytes (PropValue.u64 v) = to_le_bytes 8 v
value_bytes (PropValue.str s) = string_bytes s

pub write_value-Emits : (v : PropValue) → InRange v → Emits (write_value v) (value_bytes v)
unfolding write_value
write_value-Emits (PropValue.i8 v) h = i8-Emits v
write_value-Emits (PropValue.u8 v) h = u8-Emits v
write_value-Emits (PropValue.i16 v) h = i16-Emits v
write_value-Emits (PropValue.u16 v) h = u16-Emits v
write_value-Emits (PropValue.i32 v) h = i32-Emits v
write_value-Emits (PropValue.u32 v) h = u32-Emits v
write_value-Emits (PropValue.i64 v) h = i64-Emits v
write_value-Emits (PropValue.u64 v) h = u64-Emits v
write_value-Emits (PropValue.str s) h = ptp_string-Emits s h

read_own_type : (v : PropValue) → InRange v → Codes (read_value (datatype_code v)) (value_bytes v) v
unfolding read_value datatype_code
read_own_type (PropValue.i8 v) h = Codes-apply _ (i8-Codes v h)
read_own_type (PropValue.u8 v) h = Codes-apply _ (u8-Codes v h)
read_own_type (PropValue.i16 v) h = Codes-apply _ (i16-Codes v h)
read_own_type (PropValue.u16 v) h = Codes-apply _ (u16-Codes v h)
read_own_type (PropValue.i32 v) h = Codes-apply _ (i32-Codes v h)
read_own_type (PropValue.u32 v) h = Codes-apply _ (u32-Codes v h)
read_own_type (PropValue.i64 v) h = Codes-apply _ (i64-Codes v h)
read_own_type (PropValue.u64 v) h = Codes-apply _ (u64-Codes v h)
read_own_type (PropValue.str s) h = Codes-apply _ (ptp_string-Codes s h)

pub read_value-Codes :
    (datatype : ℕ) (v : PropValue)
    → IsValue datatype v
    → Codes (read_value datatype) (value_bytes v) v
read_value-Codes datatype v h =
    subst (λ d. Codes (read_value d) (value_bytes v) v) h.of_type (read_own_type v h.in_range)

-- Each value of the form is of the declared datatype, and an enumeration's count fits 16 bits.
abbrev pub IsForm : ℕ → PropForm → Type 0
IsForm datatype PropForm.no_form = Unit
IsForm datatype (PropForm.range min max step) =
    IsValue datatype min × IsValue datatype max × IsValue datatype step
IsForm datatype (PropForm.enum values) = All (IsValue datatype) values × (length values < 2 ^ 16)

abbrev pub form_flag : PropForm → ℕ
form_flag PropForm.no_form = 0
form_flag (PropForm.range min max step) = 1
form_flag (PropForm.enum values) = 2

abbrev pub form_bytes : PropForm → List ℕ
form_bytes PropForm.no_form = []
form_bytes (PropForm.range min max step) = value_bytes min ++ (value_bytes max ++ value_bytes step)
form_bytes (PropForm.enum values) = to_le_bytes 2 (length values) ++ concat_map value_bytes values

pub write_form-Emits :
    (datatype : ℕ) (f : PropForm)
    → IsForm datatype f
    → Emits (write_form f) (to_le_bytes 1 (form_flag f) ++ form_bytes f)
unfolding write_form
write_form-Emits d PropForm.no_form h =
    subst (Emits (emit (Writer.u8 0))) (sym (append-nil (to_le_bytes 1 0))) (u8-Emits 0)
write_form-Emits d (PropForm.range min max step) h = Emits-then (u8-Emits 1) (
    Emits-then (write_value-Emits min h.0.in_range)
      (Emits-then (write_value-Emits max h.1.in_range) (write_value-Emits step h.2.in_range)))
write_form-Emits d (PropForm.enum values) h = Emits-then (u8-Emits 2) (
    Emits-then
      (subst (λ n. Emits (emit (Writer.u16 n)) (to_le_bytes 2 (length values))) exact
        (u16-Emits (length values)))
      (each-Emits (IsValue d) write_value value_bytes (λ v k. write_value-Emits v k.in_range) values
        h.0))
  where
    exact : length values ≡ length values % 2 ^ 16
    exact = omega (arith, h.1)

pub read_form-Codes :
    (datatype : ℕ) (f : PropForm)
    → IsForm datatype f
    → Codes (read_form datatype (form_flag f)) (form_bytes f) f
unfolding read_form
read_form-Codes d PropForm.no_form h = Codes-pure _
read_form-Codes d (PropForm.range min max step) h =
    Codes-bind _ (read_value-Codes d min h.0)
      (Codes-bind _ (read_value-Codes d max h.1) (Codes-apply _ (read_value-Codes d step h.2)))
read_form-Codes d (PropForm.enum values) h = Codes-bind _ (u16-Codes (length values) h.1) (
    Codes-apply _
      (repeat-Codes (IsValue d) (read_value d) value_bytes (read_value-Codes d) values h.0))
