-- ===== src/Dataset/ObjectInfo.antt =====
-- `ObjectInfo`: round trip, and refusal of trailing and of missing bytes.
use mathlib.Core.Path.{subst}
use ptpsim.Prelude.{ℕ, ◌+◌, ◌<◌, ◌≡◌, ◌≢◌, List, [], ◌∷◌, ◌++◌, ok, err, length, take}
use ptpsim.Wire.Bytes.{IsU16, IsU32, to_le_bytes}
use ptpsim.Wire.Error.{trailing_bytes}
use ptpsim.Wire.Writer.{Writer}
use ptpsim.Wire.Codes.Read.{Codes, Codes-bind, Codes-apply, u16-Codes, u32-Codes}
use ptpsim.Wire.Codes.Sequences.{string_bytes, IsPtpText, ptp_string-Codes}
use ptpsim.Wire.Codes.Write.{Emits, Emits-then, u16-Emits, u32-Emits, ptp_string-Emits}
use ptpsim.Wire.Local.{Local, bind-Local, pure-Local, u16-Local, u32-Local, ptp_string-Local}
use ptpsim.Wire.Sound.{Sound, bind-Sound, pure-Sound, u16-Sound, u32-Sound, ptp_string-Sound}
use ptpsim.Wire.Complete.{complete_ok, complete_suffix, complete_prefix}
use ptpsim.Dataset.Info.{ObjectInfo, object_info_fields, decode_object_info, encode_object_info}

-- Each field is in the range of its Rust type, and each text fits a PTP string.
pub record IsObjectInfo (v : ObjectInfo) : Type 0 where
  pub storage_id : IsU32 v.storage_id
  pub object_format : IsU16 v.object_format
  pub protection_status : IsU16 v.protection_status
  pub object_compressed_size : IsU32 v.object_compressed_size
  pub thumb_format : IsU16 v.thumb_format
  pub thumb_compressed_size : IsU32 v.thumb_compressed_size
  pub thumb_pix_width : IsU32 v.thumb_pix_width
  pub thumb_pix_height : IsU32 v.thumb_pix_height
  pub image_pix_width : IsU32 v.image_pix_width
  pub image_pix_height : IsU32 v.image_pix_height
  pub image_bit_depth : IsU32 v.image_bit_depth
  pub parent_object : IsU32 v.parent_object
  pub association_type : IsU16 v.association_type
  pub association_desc : IsU32 v.association_desc
  pub sequence_number : IsU32 v.sequence_number
  pub filename : IsPtpText v.filename
  pub capture_date : IsPtpText v.capture_date
  pub modification_date : IsPtpText v.modification_date
  pub keywords : IsPtpText v.keywords

abbrev pub object_info_bytes : ObjectInfo → List ℕ
object_info_bytes v =
    to_le_bytes 4 v.storage_id
    ++ (to_le_bytes 2 v.object_format
        ++ (to_le_bytes 2 v.protection_status
            ++ (to_le_bytes 4 v.object_compressed_size
                ++ (to_le_bytes 2 v.thumb_format
                    ++ (to_le_bytes 4 v.thumb_compressed_size
                        ++ (to_le_bytes 4 v.thumb_pix_width
                            ++ (to_le_bytes 4 v.thumb_pix_height
                                ++ (to_le_bytes 4 v.image_pix_width
                                    ++ (to_le_bytes 4 v.image_pix_height
                                        ++ (to_le_bytes 4 v.image_bit_depth
                                            ++ (to_le_bytes 4 v.parent_object
                                                ++ (to_le_bytes 2 v.association_type
                                                    ++ (to_le_bytes 4 v.association_desc
                                                        ++ (to_le_bytes 4 v.sequence_number
                                                            ++ (string_bytes v.filename
                                                            ++ (string_bytes v.capture_date
                                                            ++ (string_bytes v.modification_date
                                                            ++ (string_bytes
                                                            v.keywords))))))))))))))))))

object_info_fields-Codes :
    (v : ObjectInfo) → IsObjectInfo v → Codes object_info_fields (object_info_bytes v) v
unfolding object_info_fields
object_info_fields-Codes v h = Codes-bind _ (u32-Codes _ h.storage_id) (
    Codes-bind _ (u16-Codes _ h.object_format) (
      Codes-bind _ (u16-Codes _ h.protection_status) (
        Codes-bind _ (u32-Codes _ h.object_compressed_size) (
          Codes-bind _ (u16-Codes _ h.thumb_format) (
            Codes-bind _ (u32-Codes _ h.thumb_compressed_size) (
              Codes-bind _ (u32-Codes _ h.thumb_pix_width) (
                Codes-bind _ (u32-Codes _ h.thumb_pix_height) (
                  Codes-bind _ (u32-Codes _ h.image_pix_width) (
                    Codes-bind _ (u32-Codes _ h.image_pix_height) (
                      Codes-bind _ (u32-Codes _ h.image_bit_depth) (
                        Codes-bind _ (u32-Codes _ h.parent_object) (
                          Codes-bind _ (u16-Codes _ h.association_type) (
                            Codes-bind _ (u32-Codes _ h.association_desc) (
                              Codes-bind _ (u32-Codes _ h.sequence_number) (
                                Codes-bind _ (ptp_string-Codes _ h.filename) (
                                  Codes-bind _ (ptp_string-Codes _ h.capture_date) (
                                    Codes-bind _ (ptp_string-Codes _ h.modification_date) (
                                      Codes-apply _
                                        (ptp_string-Codes _ h.keywords)))))))))))))))))))

object_info_fields-Local : Local object_info_fields
unfolding object_info_fields
object_info_fields-Local = bind-Local _ u32-Local λ _. bind-Local _ u16-Local λ _.
    bind-Local _ u16-Local λ _. bind-Local _ u32-Local λ _. bind-Local _ u16-Local λ _.
      bind-Local _ u32-Local λ _. bind-Local _ u32-Local λ _. bind-Local _ u32-Local λ _.
        bind-Local _ u32-Local λ _. bind-Local _ u32-Local λ _. bind-Local _ u32-Local λ _.
          bind-Local _ u32-Local λ _. bind-Local _ u16-Local λ _. bind-Local _ u32-Local λ _.
            bind-Local _ u32-Local λ _. bind-Local _ ptp_string-Local λ _.
              bind-Local _ ptp_string-Local λ _.
                bind-Local _ ptp_string-Local λ _. bind-Local _ ptp_string-Local λ _. pure-Local _

object_info_fields-Sound : Sound object_info_fields
unfolding object_info_fields
object_info_fields-Sound = bind-Sound _ u32-Sound λ _. bind-Sound _ u16-Sound λ _.
    bind-Sound _ u16-Sound λ _. bind-Sound _ u32-Sound λ _. bind-Sound _ u16-Sound λ _.
      bind-Sound _ u32-Sound λ _. bind-Sound _ u32-Sound λ _. bind-Sound _ u32-Sound λ _.
        bind-Sound _ u32-Sound λ _. bind-Sound _ u32-Sound λ _. bind-Sound _ u32-Sound λ _.
          bind-Sound _ u32-Sound λ _. bind-Sound _ u16-Sound λ _. bind-Sound _ u32-Sound λ _.
            bind-Sound _ u32-Sound λ _. bind-Sound _ ptp_string-Sound λ _.
              bind-Sound _ ptp_string-Sound λ _.
                bind-Sound _ ptp_string-Sound λ _. bind-Sound _ ptp_string-Sound λ _. pure-Sound _

encode_object_info-Emits :
    (v : ObjectInfo) → IsObjectInfo v → Emits (encode_object_info v) (object_info_bytes v)
unfolding encode_object_info
encode_object_info-Emits v h = Emits-then (u32-Emits _) (
    Emits-then (u16-Emits _) (
      Emits-then (u16-Emits _) (
        Emits-then (u32-Emits _) (
          Emits-then (u16-Emits _) (
            Emits-then (u32-Emits _) (
              Emits-then (u32-Emits _) (
                Emits-then (u32-Emits _) (
                  Emits-then (u32-Emits _) (
                    Emits-then (u32-Emits _) (
                      Emits-then (u32-Emits _) (
                        Emits-then (u32-Emits _) (
                          Emits-then (u16-Emits _) (
                            Emits-then (u32-Emits _) (
                              Emits-then (u32-Emits _) (
                                Emits-then (ptp_string-Emits _ h.filename) (
                                  Emits-then (ptp_string-Emits _ h.capture_date) (
                                    Emits-then (ptp_string-Emits _ h.modification_date)
                                      (ptp_string-Emits _ h.keywords))))))))))))))))))

-- An `ObjectInfo` whose fields are in range is written by `encode` behind whatever the writer holds,
-- without an error, and `decode` reads the written bytes back as the same value.
pub object_info-decode-encode :
    (v : ObjectInfo) (w : Writer)
    → IsObjectInfo v
    → (bytes : List ℕ) × (encode_object_info v w ≡ ok (record { buf = w.buf ++ bytes }))
      × (decode_object_info bytes ≡ ok v)
unfolding decode_object_info
object_info-decode-encode v w h = (
  object_info_bytes v,
  (encode_object_info-Emits v h).at w,
  complete_ok (object_info_fields-Codes v h),
)

-- The bytes of an encoded `ObjectInfo` in range, with more behind them, are refused by `decode`, with an error
-- that counts what is too much; any proper prefix of the bytes is refused too.
pub object_info_exact :
    (v : ObjectInfo) (x : ℕ) (more : List ℕ) (n : ℕ) (u : ObjectInfo) (bytes : List ℕ)
    → IsObjectInfo v
    → encode_object_info v (record { buf = [] }) ≡ ok (record { buf = bytes })
    → n < length bytes
    → (decode_object_info (bytes ++ (x ∷ more)) ≡ err (trailing_bytes (1 + length more)))
      × (decode_object_info (take n bytes) ≢ ok u)
unfolding decode_object_info
object_info_exact v x more n u bytes h written short =
    let same : object_info_bytes v ≡ bytes =
      cc (written, (encode_object_info-Emits v h).at (record { buf = [] })) in
    let codes : Codes object_info_fields bytes v =
      subst (λ b. Codes object_info_fields b v) same (object_info_fields-Codes v h) in
    (
      complete_suffix codes x more,
      complete_prefix codes object_info_fields-Local object_info_fields-Sound n u short,
    )
