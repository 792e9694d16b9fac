-- ===== src/Dataset/DeviceInfo.antt =====
-- `DeviceInfo`: round trip, and refusal of trailing and of missing bytes.
use mathlib.Core.Path.{subst}
use ptpsim.Prelude.{ℕ, ◌+◌, ◌<◌, ◌≡◌, ◌≢◌, List, [], ◌∷◌, ◌++◌, ok, err, length, take}
use ptpsim.Wire.Bytes.{IsU16, IsU32, to_le_bytes}
use ptpsim.Wire.Error.{trailing_bytes}
use ptpsim.Wire.Reader.{u16}
use ptpsim.Wire.Writer.{Writer}
use ptpsim.Wire.Codes.Read.{Codes, Codes-bind, Codes-apply, u16-Codes, u32-Codes}
use ptpsim.Wire.Codes.Sequences.{array_bytes, string_bytes, IsPtpText, ptp_string-Codes}
use ptpsim.Wire.Codes.Write.{Emits, Emits-then, u16-Emits, u32-Emits, ptp_string-Emits}
use ptpsim.Wire.Local.{
  Local, bind-Local, pure-Local, u16-Local, u32-Local, ptp_string-Local, ptp_array-Local,
}
use ptpsim.Wire.Sound.{
  Sound, bind-Sound, pure-Sound, u16-Sound, u32-Sound, ptp_string-Sound, ptp_array-Sound,
}
use ptpsim.Wire.Complete.{complete_ok, complete_suffix, complete_prefix}
use ptpsim.Dataset.Codes.{IsCodes, u16_array-Codes, u16_array-Emits}
use ptpsim.Dataset.Info.{DeviceInfo, device_info_fields, decode_device_info, encode_device_info}

-- Each field is in the range of its Rust type, and each text fits a PTP string.
pub record IsDeviceInfo (v : DeviceInfo) : Type 0 where
  pub standard_version : IsU16 v.standard_version
  pub vendor_extension_id : IsU32 v.vendor_extension_id
  pub vendor_extension_version : IsU16 v.vendor_extension_version
  pub vendor_extension_desc : IsPtpText v.vendor_extension_desc
  pub functional_mode : IsU16 v.functional_mode
  pub operations_supported : IsCodes v.operations_supported
  pub events_supported : IsCodes v.events_supported
  pub device_properties_supported : IsCodes v.device_properties_supported
  pub capture_formats : IsCodes v.capture_formats
  pub image_formats : IsCodes v.image_formats
  pub manufacturer : IsPtpText v.manufacturer
  pub model : IsPtpText v.model
  pub device_version : IsPtpText v.device_version
  pub serial_number : IsPtpText v.serial_number

abbrev pub device_info_bytes : DeviceInfo → List ℕ
device_info_bytes v =
    to_le_bytes 2 v.standard_version
    ++ (to_le_bytes 4 v.vendor_extension_id
        ++ (to_le_bytes 2 v.vendor_extension_version
            ++ (string_bytes v.vendor_extension_desc
                ++ (to_le_bytes 2 v.functional_mode
                    ++ (array_bytes (to_le_bytes 2) v.operations_supported
                        ++ (array_bytes (to_le_bytes 2) v.events_supported
                            ++ (array_bytes (to_le_bytes 2) v.device_properties_supported
                                ++ (array_bytes (to_le_bytes 2) v.capture_formats
                                    ++ (array_bytes (to_le_bytes 2) v.image_formats
                                        ++ (string_bytes v.manufacturer
                                            ++ (string_bytes v.model
                                                ++ (string_bytes v.device_version
                                                    ++ (string_bytes v.serial_number)))))))))))))

device_info_fields-Codes :
    (v : DeviceInfo) → IsDeviceInfo v → Codes device_info_fields (device_info_bytes v) v
unfolding device_info_fields
device_info_fields-Codes v h = Codes-bind _ (u16-Codes _ h.standard_version) (
    Codes-bind _ (u32-Codes _ h.vendor_extension_id) (
      Codes-bind _ (u16-Codes _ h.vendor_extension_version) (
        Codes-bind _ (ptp_string-Codes _ h.vendor_extension_desc) (
          Codes-bind _ (u16-Codes _ h.functional_mode) (
            Codes-bind _ (u16_array-Codes _ h.operations_supported) (
              Codes-bind _ (u16_array-Codes _ h.events_supported) (
                Codes-bind _ (u16_array-Codes _ h.device_properties_supported) (
                  Codes-bind _ (u16_array-Codes _ h.capture_formats) (
                    Codes-bind _ (u16_array-Codes _ h.image_formats) (
                      Codes-bind _ (ptp_string-Codes _ h.manufacturer) (
                        Codes-bind _ (ptp_string-Codes _ h.model) (
                          Codes-bind _ (ptp_string-Codes _ h.device_version)
                            (Codes-apply _ (ptp_string-Codes _ h.serial_number))))))))))))))

device_info_fields-Local : Local device_info_fields
unfolding device_info_fields
device_info_fields-Local = bind-Local _ u16-Local λ _. bind-Local _ u32-Local λ _.
    bind-Local _ u16-Local λ _. bind-Local _ ptp_string-Local λ _. bind-Local _ u16-Local λ _.
      bind-Local _ (ptp_array-Local u16 u16-Local) λ _.
        bind-Local _ (ptp_array-Local u16 u16-Local) λ _.
          bind-Local _ (ptp_array-Local u16 u16-Local) λ _.
            bind-Local _ (ptp_array-Local u16 u16-Local) λ _.
              bind-Local _ (ptp_array-Local u16 u16-Local) λ _. bind-Local _ ptp_string-Local λ _.
                bind-Local _ ptp_string-Local λ _.
                  bind-Local _ ptp_string-Local λ _. bind-Local _ ptp_string-Local λ _. pure-Local _

device_info_fields-Sound : Sound device_info_fields
unfolding device_info_fields
device_info_fields-Sound = bind-Sound _ u16-Sound λ _. bind-Sound _ u32-Sound λ _.
    bind-Sound _ u16-Sound λ _. bind-Sound _ ptp_string-Sound λ _. bind-Sound _ u16-Sound λ _.
      bind-Sound _ (ptp_array-Sound u16 u16-Sound) λ _.
        bind-Sound _ (ptp_array-Sound u16 u16-Sound) λ _.
          bind-Sound _ (ptp_array-Sound u16 u16-Sound) λ _.
            bind-Sound _ (ptp_array-Sound u16 u16-Sound) λ _.
              bind-Sound _ (ptp_array-Sound u16 u16-Sound) λ _. bind-Sound _ ptp_string-Sound λ _.
                bind-Sound _ ptp_string-Sound λ _.
                  bind-Sound _ ptp_string-Sound λ _. bind-Sound _ ptp_string-Sound λ _. pure-Sound _

encode_device_info-Emits :
    (v : DeviceInfo) → IsDeviceInfo v → Emits (encode_device_info v) (device_info_bytes v)
unfolding encode_device_info
encode_device_info-Emits v h = Emits-then (u16-Emits _) (
    Emits-then (u32-Emits _) (
      Emits-then (u16-Emits _) (
        Emits-then (ptp_string-Emits _ h.vendor_extension_desc) (
          Emits-then (u16-Emits _) (
            Emits-then (u16_array-Emits _ h.operations_supported) (
              Emits-then (u16_array-Emits _ h.events_supported) (
                Emits-then (u16_array-Emits _ h.device_properties_supported) (
                  Emits-then (u16_array-Emits _ h.capture_formats) (
                    Emits-then (u16_array-Emits _ h.image_formats) (
                      Emits-then (ptp_string-Emits _ h.manufacturer) (
                        Emits-then (ptp_string-Emits _ h.model) (
                          Emits-then (ptp_string-Emits _ h.device_version)
                            (ptp_string-Emits _ h.serial_number)))))))))))))

-- A `DeviceInfo` whose fields are in range is written by `encode` behind whatever the writer holds,
-- without an error, and `decode` reads the written bytes back as the same value.
pub device_info-decode-encode :
    (v : DeviceInfo) (w : Writer)
    → IsDeviceInfo v
    → (bytes : List ℕ) × (encode_device_info v w ≡ ok (record { buf = w.buf ++ bytes }))
      × (decode_device_info bytes ≡ ok v)
unfolding decode_device_info
device_info-decode-encode v w h = (
  device_info_bytes v,
  (encode_device_info-Emits v h).at w,
  complete_ok (device_info_fields-Codes v h),
)

-- The bytes of an encoded `DeviceInfo` in range, with more behind them, are refused by `decode`, with an error
-- that counts what is too much; any proper prefix of the bytes is refused too.
pub device_info_exact :
    (v : DeviceInfo) (x : ℕ) (more : List ℕ) (n : ℕ) (u : DeviceInfo) (bytes : List ℕ)
    → IsDeviceInfo v
    → encode_device_info v (record { buf = [] }) ≡ ok (record { buf = bytes })
    → n < length bytes
    → (decode_device_info (bytes ++ (x ∷ more)) ≡ err (trailing_bytes (1 + length more)))
      × (decode_device_info (take n bytes) ≢ ok u)
unfolding decode_device_info
device_info_exact v x more n u bytes h written short =
    let same : device_info_bytes v ≡ bytes =
      cc (written, (encode_device_info-Emits v h).at (record { buf = [] })) in
    let codes : Codes device_info_fields bytes v =
      subst (λ b. Codes device_info_fields b v) same (device_info_fields-Codes v h) in
    (
      complete_suffix codes x more,
      complete_prefix codes device_info_fields-Local device_info_fields-Sound n u short,
    )
