-- ===== src/Dataset/StorageInfo.antt =====
-- `StorageInfo`: round trip, and refusal of trailing and of missing bytes.
use mathlib.Core.Path.{subst}
use ptpsim.Prelude.{ℕ, ◌+◌, ◌<◌, ◌≡◌, ◌≢◌, List, [], ◌∷◌, ◌++◌, ok, err, length, take}
use ptpsim.Wire.Bytes.{IsU16, IsU32, IsU64, to_le_bytes}
use ptpsim.Wire.Error.{trailing_bytes}
use ptpsim.Wire.Writer.{Writer}
use ptpsim.Wire.Codes.Read.{Codes, Codes-bind, Codes-apply, u16-Codes, u32-Codes, u64-Codes}
use ptpsim.Wire.Codes.Sequences.{string_bytes, IsPtpText, ptp_string-Codes}
use ptpsim.Wire.Codes.Write.{Emits, Emits-then, u16-Emits, u32-Emits, u64-Emits, ptp_string-Emits}
use ptpsim.Wire.Local.{
  Local, bind-Local, pure-Local, u16-Local, u32-Local, u64-Local, ptp_string-Local,
}
use ptpsim.Wire.Sound.{
  Sound, bind-Sound, pure-Sound, u16-Sound, u32-Sound, u64-Sound, ptp_string-Sound,
}
use ptpsim.Wire.Complete.{complete_ok, complete_suffix, complete_prefix}
use ptpsim.Dataset.Info.{StorageInfo, storage_info_fields, decode_storage_info, encode_storage_info}

-- Each field is in the range of its Rust type, and each text fits a PTP string.
pub record IsStorageInfo (v : StorageInfo) : Type 0 where
  pub storage_type : IsU16 v.storage_type
  pub filesystem_type : IsU16 v.filesystem_type
  pub access_capability : IsU16 v.access_capability
  pub max_capacity : IsU64 v.max_capacity
  pub free_space_bytes : IsU64 v.free_space_bytes
  pub free_space_images : IsU32 v.free_space_images
  pub storage_description : IsPtpText v.storage_description
  pub volume_label : IsPtpText v.volume_label

abbrev pub storage_info_bytes : StorageInfo → List ℕ
storage_info_bytes v =
    to_le_bytes 2 v.storage_type
    ++ (to_le_bytes 2 v.filesystem_type
        ++ (to_le_bytes 2 v.access_capability
            ++ (to_le_bytes 8 v.max_capacity
                ++ (to_le_bytes 8 v.free_space_bytes
                    ++ (to_le_bytes 4 v.free_space_images
                        ++ (string_bytes v.storage_description
                            ++ (string_bytes v.volume_label)))))))

storage_info_fields-Codes :
    (v : StorageInfo) → IsStorageInfo v → Codes storage_info_fields (storage_info_bytes v) v
unfolding storage_info_fields
storage_info_fields-Codes v h = Codes-bind _ (u16-Codes _ h.storage_type) (
    Codes-bind _ (u16-Codes _ h.filesystem_type) (
      Codes-bind _ (u16-Codes _ h.access_capability) (
        Codes-bind _ (u64-Codes _ h.max_capacity) (
          Codes-bind _ (u64-Codes _ h.free_space_bytes) (
            Codes-bind _ (u32-Codes _ h.free_space_images) (
              Codes-bind _ (ptp_string-Codes _ h.storage_description)
                (Codes-apply _ (ptp_string-Codes _ h.volume_label))))))))

storage_info_fields-Local : Local storage_info_fields
unfolding storage_info_fields
storage_info_fields-Local = bind-Local _ u16-Local λ _. bind-Local _ u16-Local λ _.
    bind-Local _ u16-Local λ _. bind-Local _ u64-Local λ _. bind-Local _ u64-Local λ _.
      bind-Local _ u32-Local
        λ _. bind-Local _ ptp_string-Local λ _. bind-Local _ ptp_string-Local λ _. pure-Local _

storage_info_fields-Sound : Sound storage_info_fields
unfolding storage_info_fields
storage_info_fields-Sound = bind-Sound _ u16-Sound λ _. bind-Sound _ u16-Sound λ _.
    bind-Sound _ u16-Sound λ _. bind-Sound _ u64-Sound λ _. bind-Sound _ u64-Sound λ _.
      bind-Sound _ u32-Sound
        λ _. bind-Sound _ ptp_string-Sound λ _. bind-Sound _ ptp_string-Sound λ _. pure-Sound _

encode_storage_info-Emits :
    (v : StorageInfo) → IsStorageInfo v → Emits (encode_storage_info v) (storage_info_bytes v)
unfolding encode_storage_info
encode_storage_info-Emits v h = Emits-then (u16-Emits _) (
    Emits-then (u16-Emits _) (
      Emits-then (u16-Emits _) (
        Emits-then (u64-Emits _) (
          Emits-then (u64-Emits _) (
            Emits-then (u32-Emits _) (
              Emits-then (ptp_string-Emits _ h.storage_description)
                (ptp_string-Emits _ h.volume_label)))))))

-- A `StorageInfo` whose fields are in range is written by `encode` behind whatever the writer holds,
-- without an error, and `decode` reads the written bytes back as the same value.
pub storage_info-decode-encode :
    (v : StorageInfo) (w : Writer)
    → IsStorageInfo v
    → (bytes : List ℕ) × (encode_storage_info v w ≡ ok (record { buf = w.buf ++ bytes }))
      × (decode_storage_info bytes ≡ ok v)
unfolding decode_storage_info
storage_info-decode-encode v w h = (
  storage_info_bytes v,
  (encode_storage_info-Emits v h).at w,
  complete_ok (storage_info_fields-Codes v h),
)

-- The bytes of an encoded `StorageInfo` in range, with more behind them, are refused by `decode`, with an error
-- that counts what is too much; any proper prefix of the bytes is refused too.
pub storage_info_exact :
    (v : StorageInfo) (x : ℕ) (more : List ℕ) (n : ℕ) (u : StorageInfo) (bytes : List ℕ)
    → IsStorageInfo v
    → encode_storage_info v (record { buf = [] }) ≡ ok (record { buf = bytes })
    → n < length bytes
    → (decode_storage_info (bytes ++ (x ∷ more)) ≡ err (trailing_bytes (1 + length more)))
      × (decode_storage_info (take n bytes) ≢ ok u)
unfolding decode_storage_info
storage_info_exact v x more n u bytes h written short =
    let same : storage_info_bytes v ≡ bytes =
      cc (written, (encode_storage_info-Emits v h).at (record { buf = [] })) in
    let codes : Codes storage_info_fields bytes v =
      subst (λ b. Codes storage_info_fields b v) same (storage_info_fields-Codes v h) in
    (
      complete_suffix codes x more,
      complete_prefix codes storage_info_fields-Local storage_info_fields-Sound n u short,
    )
