-- ===== src/Dataset/PropDesc.antt =====
-- `DevicePropDesc`: round trip, and refusal of trailing and of missing bytes.
use ptpsim.Prelude.{ℕ, ◌+◌, ◌<◌, ◌≡◌, List, [], ◌∷◌, ◌++◌, ◌≢◌, ok, err, take, length, arith}
use mathlib.Core.Path.{subst}
use ptpsim.Wire.Bytes.{IsU8, IsU16, to_le_bytes}
use ptpsim.Wire.Writer.{Writer}
use ptpsim.Wire.Codes.Read.{Codes, Codes-bind, Codes-apply, u8-Codes, u16-Codes}
use ptpsim.Wire.Codes.Write.{Emits, Emits-then, u8-Emits, u16-Emits}
use ptpsim.Wire.Error.{trailing_bytes}
use ptpsim.Wire.Local.{
  Local, bind-Local, pure-Local, fail-Local, if-Local, i8-Local, u8-Local, i16-Local, u16-Local,
  i32-Local, u32-Local, i64-Local, u64-Local, repeat-Local, ptp_string-Local,
}
use ptpsim.Wire.Sound.{
  Sound, bind-Sound, pure-Sound, fail-Sound, if-Sound, i8-Sound, u8-Sound, i16-Sound, u16-Sound,
  i32-Sound, u32-Sound, i64-Sound, u64-Sound, repeat-Sound, ptp_string-Sound,
}
use ptpsim.Wire.Complete.{complete_ok, complete_suffix, complete_prefix}
use ptpsim.Dataset.Prop.{
  read_value, PropForm, DevicePropDesc, read_form, prop_desc_fields, decode_prop_desc,
  encode_prop_desc,
}
use ptpsim.Dataset.PropValue.{
  IsValue, value_bytes, write_value-Emits, read_value-Codes, IsForm, form_flag, form_bytes,
  write_form-Emits, read_form-Codes,
}

pub record IsPropDesc (v : DevicePropDesc) : Type 0 where
  pub code : IsU16 v.code
  pub datatype : IsU16 v.datatype
  pub get_set : IsU8 v.get_set
  pub factory_default : IsValue v.datatype v.factory_default
  pub current : IsValue v.datatype v.current
  pub form : IsForm v.datatype v.form

abbrev pub prop_desc_bytes : DevicePropDesc → List ℕ
prop_desc_bytes v =
    to_le_bytes 2 v.code
    ++ (to_le_bytes 2 v.datatype
        ++ (to_le_bytes 1 v.get_set
            ++ (value_bytes v.factory_default
                ++ (value_bytes v.current
                    ++ (to_le_bytes 1 (form_flag v.form) ++ form_bytes v.form)))))

form_flag-IsU8 : (f : PropForm) → IsU8 (form_flag f)
form_flag-IsU8 f = ground arith

prop_desc_fields-Codes :
    (v : DevicePropDesc) → IsPropDesc v → Codes prop_desc_fields (prop_desc_bytes v) v
unfolding prop_desc_fields
prop_desc_fields-Codes v h = Codes-bind _ (u16-Codes v.code h.code) (
    Codes-bind _ (u16-Codes v.datatype h.datatype) (
      Codes-bind _ (u8-Codes v.get_set h.get_set) (
        Codes-bind _ (read_value-Codes v.datatype v.factory_default h.factory_default) (
          Codes-bind _ (read_value-Codes v.datatype v.current h.current) (
            Codes-bind _ (u8-Codes (form_flag v.form) (form_flag-IsU8 v.form))
              (Codes-apply _ (read_form-Codes v.datatype v.form h.form)))))))

read_value-Local : (datatype : ℕ) → Local (read_value datatype)
unfolding read_value
read_value-Local datatype = if-Local _ (bind-Local _ i8-Local λ v. pure-Local _) (
    if-Local _ (bind-Local _ u8-Local λ v. pure-Local _) (
      if-Local _ (bind-Local _ i16-Local λ v. pure-Local _) (
        if-Local _ (bind-Local _ u16-Local λ v. pure-Local _) (
          if-Local _ (bind-Local _ i32-Local λ v. pure-Local _) (
            if-Local _ (bind-Local _ u32-Local λ v. pure-Local _) (
              if-Local _ (bind-Local _ i64-Local λ v. pure-Local _) (
                if-Local _ (bind-Local _ u64-Local λ v. pure-Local _) (
                  if-Local _ (bind-Local _ ptp_string-Local λ s. pure-Local _)
                    (fail-Local _)))))))))

read_value-Sound : (datatype : ℕ) → Sound (read_value datatype)
unfolding read_value
read_value-Sound datatype = if-Sound _ (bind-Sound _ i8-Sound λ v. pure-Sound _) (
    if-Sound _ (bind-Sound _ u8-Sound λ v. pure-Sound _) (
      if-Sound _ (bind-Sound _ i16-Sound λ v. pure-Sound _) (
        if-Sound _ (bind-Sound _ u16-Sound λ v. pure-Sound _) (
          if-Sound _ (bind-Sound _ i32-Sound λ v. pure-Sound _) (
            if-Sound _ (bind-Sound _ u32-Sound λ v. pure-Sound _) (
              if-Sound _ (bind-Sound _ i64-Sound λ v. pure-Sound _) (
                if-Sound _ (bind-Sound _ u64-Sound λ v. pure-Sound _) (
                  if-Sound _ (bind-Sound _ ptp_string-Sound λ s. pure-Sound _)
                    (fail-Sound _ λ o n e. cc)))))))))

read_form-Local : (datatype flag : ℕ) → Local (read_form datatype flag)
unfolding read_form
read_form-Local d flag = if-Local _ (pure-Local _) (
    if-Local _
      (bind-Local _ (read_value-Local d) λ _.
        bind-Local _ (read_value-Local d) λ _. bind-Local _ (read_value-Local d) λ _. pure-Local _)
      (if-Local _
        (bind-Local _ u16-Local
          λ n. bind-Local _ (repeat-Local n (read_value d) (read_value-Local d)) λ _. pure-Local _)
        (fail-Local _)))

read_form-Sound : (datatype flag : ℕ) → Sound (read_form datatype flag)
unfolding read_form
read_form-Sound d flag = if-Sound _ (pure-Sound _) (
    if-Sound _
      (bind-Sound _ (read_value-Sound d) λ _.
        bind-Sound _ (read_value-Sound d) λ _. bind-Sound _ (read_value-Sound d) λ _. pure-Sound _)
      (if-Sound _
        (bind-Sound _ u16-Sound
          λ n. bind-Sound _ (repeat-Sound n (read_value d) (read_value-Sound d)) λ _. pure-Sound _)
        (fail-Sound _ λ o n e. cc)))

prop_desc_fields-Local : Local prop_desc_fields
unfolding prop_desc_fields
prop_desc_fields-Local = bind-Local _ u16-Local λ _. bind-Local _ u16-Local λ d.
    bind-Local _ u8-Local λ _. bind-Local _ (read_value-Local d) λ _.
      bind-Local _ (read_value-Local d)
        λ _. bind-Local _ u8-Local λ flag. bind-Local _ (read_form-Local d flag) λ _. pure-Local _

prop_desc_fields-Sound : Sound prop_desc_fields
unfolding prop_desc_fields
prop_desc_fields-Sound = bind-Sound _ u16-Sound λ _. bind-Sound _ u16-Sound λ d.
    bind-Sound _ u8-Sound λ _. bind-Sound _ (read_value-Sound d) λ _.
      bind-Sound _ (read_value-Sound d)
        λ _. bind-Sound _ u8-Sound λ flag. bind-Sound _ (read_form-Sound d flag) λ _. pure-Sound _

encode_prop_desc-Emits :
    (v : DevicePropDesc) → IsPropDesc v → Emits (encode_prop_desc v) (prop_desc_bytes v)
unfolding encode_prop_desc
encode_prop_desc-Emits v h = Emits-then (u16-Emits v.code) (
    Emits-then (u16-Emits v.datatype) (
      Emits-then (u8-Emits v.get_set) (
        Emits-then (write_value-Emits v.factory_default h.factory_default.in_range) (
          Emits-then (write_value-Emits v.current h.current.in_range)
            (write_form-Emits v.datatype v.form h.form)))))

-- A `DevicePropDesc` whose default, current and form values are of the declared datatype and in
-- range, with fewer than 2^16 enumerated values, is written without an error and read back as it was.
pub prop_desc-decode-encode :
    (v : DevicePropDesc) (w : Writer)
    → IsPropDesc v
    → (bytes : List ℕ) × (encode_prop_desc v w ≡ ok (record { buf = w.buf ++ bytes }))
      × (decode_prop_desc bytes ≡ ok v)
unfolding decode_prop_desc
prop_desc-decode-encode v w h =
    (prop_desc_bytes v, (encode_prop_desc-Emits v h).at w, complete_ok (prop_desc_fields-Codes v h))

-- The bytes of an encoded `DevicePropDesc` in range, with more behind them, are refused by `decode`, with
-- an error that counts what is too much; any proper prefix of the bytes is refused too.
pub prop_desc_exact :
    (v : DevicePropDesc) (x : ℕ) (more : List ℕ) (n : ℕ) (u : DevicePropDesc) (bytes : List ℕ)
    → IsPropDesc v
    → encode_prop_desc v (record { buf = [] }) ≡ ok (record { buf = bytes })
    → n < length bytes
    → (decode_prop_desc (bytes ++ (x ∷ more)) ≡ err (trailing_bytes (1 + length more)))
      × (decode_prop_desc (take n bytes) ≢ ok u)
unfolding decode_prop_desc
prop_desc_exact v x more n u bytes h written short =
    let same : prop_desc_bytes v ≡ bytes =
      cc (written, (encode_prop_desc-Emits v h).at (record { buf = [] })) in
    let codes : Codes prop_desc_fields bytes v =
      subst (λ b. Codes prop_desc_fields b v) same (prop_desc_fields-Codes v h) in
    (
      complete_suffix codes x more,
      complete_prefix codes prop_desc_fields-Local prop_desc_fields-Sound n u short,
    )
