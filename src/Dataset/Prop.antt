-- ===== src/Dataset/Prop.antt =====
-- crates/ptp-core/src/dataset.rs: `PropValue`, `PropForm` and `DevicePropDesc`.
use ptpsim.Prelude.{ℕ, ◌%◌, ◌^◌, List, Result, length, ◌==◌, if◌then◌else◌}
use ptpsim.Wire.Error.{DecodeError, invalid_string, unsupported_datatype, unknown_form_flag}
use ptpsim.Wire.Bytes.{ℤ}
use ptpsim.Wire.Utf16.{Text}
use ptpsim.Wire.Reader
use ptpsim.Wire.Reader.{Decoder, pure, fail, ◌>>=◌, repeat, run, complete}
use ptpsim.Wire.Writer
use ptpsim.Wire.Writer.{Encoder, emit, each, ◌>>◌ as seq}

pub data PropValue : Type 0 where
  i8 : ℤ → PropValue
  u8 : ℕ → PropValue
  i16 : ℤ → PropValue
  u16 : ℕ → PropValue
  i32 : ℤ → PropValue
  u32 : ℕ → PropValue
  i64 : ℤ → PropValue
  u64 : ℕ → PropValue
  str : Text → PropValue

-- codes.rs, `datatype_code`.
unfoldable pub datatype_code : PropValue → ℕ
datatype_code (PropValue.i8 v) = 0x0001
datatype_code (PropValue.u8 v) = 0x0002
datatype_code (PropValue.i16 v) = 0x0003
datatype_code (PropValue.u16 v) = 0x0004
datatype_code (PropValue.i32 v) = 0x0005
datatype_code (PropValue.u32 v) = 0x0006
datatype_code (PropValue.i64 v) = 0x0007
datatype_code (PropValue.u64 v) = 0x0008
datatype_code (PropValue.str s) = 0xffff

-- `PropValue::decode`.
unfoldable pub read_value : ℕ → Decoder PropValue
read_value datatype =
    if datatype == 0x0001
    then (do v ← Reader.i8; pure (PropValue.i8 v))
    else if datatype == 0x0002
    then (do v ← Reader.u8; pure (PropValue.u8 v))
    else if datatype == 0x0003
    then (do v ← Reader.i16; pure (PropValue.i16 v))
    else if datatype == 0x0004
    then (do v ← Reader.u16; pure (PropValue.u16 v))
    else if datatype == 0x0005
    then (do v ← Reader.i32; pure (PropValue.i32 v))
    else if datatype == 0x0006
    then (do v ← Reader.u32; pure (PropValue.u32 v))
    else if datatype == 0x0007
    then (do v ← Reader.i64; pure (PropValue.i64 v))
    else if datatype == 0x0008
    then (do v ← Reader.u64; pure (PropValue.u64 v))
    else if datatype == 0xffff
    then (do s ← Reader.ptp_string; pure (PropValue.str s))
    else fail (invalid_string unsupported_datatype)

-- `PropValue::encode`.
unfoldable pub write_value : PropValue → Encoder
write_value (PropValue.i8 v) = emit (Writer.i8 v)
write_value (PropValue.u8 v) = emit (Writer.u8 v)
write_value (PropValue.i16 v) = emit (Writer.i16 v)
write_value (PropValue.u16 v) = emit (Writer.u16 v)
write_value (PropValue.i32 v) = emit (Writer.i32 v)
write_value (PropValue.u32 v) = emit (Writer.u32 v)
write_value (PropValue.i64 v) = emit (Writer.i64 v)
write_value (PropValue.u64 v) = emit (Writer.u64 v)
write_value (PropValue.str s) = Writer.ptp_string s

pub data PropForm : Type 0 where
  no_form : PropForm
  range : (min max step : PropValue) → PropForm
  enum : List PropValue → PropForm

pub record DevicePropDesc : Type 0 where
  pub code : ℕ
  pub datatype : ℕ
  pub get_set : ℕ
  pub factory_default : PropValue
  pub current : PropValue
  pub form : PropForm

-- The `match form_flag`.
unfoldable pub read_form : (datatype form_flag : ℕ) → Decoder PropForm
read_form datatype form_flag =
    if form_flag == 0
    then pure PropForm.no_form
    else if form_flag == 1
    then (do
      min ← read_value datatype
      max ← read_value datatype
      step ← read_value datatype
      pure (PropForm.range min max step))
    else if form_flag == 2
    then (do
      count ← Reader.u16
      values ← repeat count (read_value datatype)
      pure (PropForm.enum values))
    else fail (invalid_string unknown_form_flag)

-- The fields in `DevicePropDesc::decode`.
unfoldable pub prop_desc_fields : Decoder DevicePropDesc
prop_desc_fields = do
  code ← Reader.u16
  datatype ← Reader.u16
  get_set ← Reader.u8
  factory_default ← read_value datatype
  current ← read_value datatype
  form_flag ← Reader.u8
  form ← read_form datatype form_flag
  pure (record {
    code = code;
    datatype = datatype;
    get_set = get_set;
    factory_default = factory_default;
    current = current;
    form = form;
  })

-- `DevicePropDesc::decode`.
unfoldable pub decode_prop_desc : List ℕ → Result DecodeError DevicePropDesc
unfolding prop_desc_fields
decode_prop_desc bytes = run (complete prop_desc_fields) bytes

-- The `match &self.form`; `values.len() as u16` wraps.
unfoldable pub write_form : PropForm → Encoder
write_form PropForm.no_form = emit (Writer.u8 0)
write_form (PropForm.range min max step) =
    seq (emit (Writer.u8 1)) (seq (write_value min) (seq (write_value max) (write_value step)))
write_form (PropForm.enum values) =
    seq (emit (Writer.u8 2))
      (seq (emit (Writer.u16 (length values % 2 ^ 16))) (each write_value values))

-- `DevicePropDesc::encode`.
unfoldable pub encode_prop_desc : DevicePropDesc → Encoder
unfolding write_form
encode_prop_desc v = seq (emit (Writer.u16 v.code)) (
    seq (emit (Writer.u16 v.datatype)) (
      seq (emit (Writer.u8 v.get_set))
        (seq (write_value v.factory_default) (seq (write_value v.current) (write_form v.form)))))
