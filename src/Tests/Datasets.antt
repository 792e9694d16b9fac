-- ===== src/Tests/Datasets.antt =====
-- crates/ptp-core/src/dataset.rs at concrete values.
use ptpsim.Prelude.{ℕ, ◌^◌, ◌≡◌, ◌≢◌, refl, inl, List, [], ◌∷◌, ◌++◌, ok, err, take, arith}
use ptpsim.Wire.Error.{trailing_bytes}
use ptpsim.Wire.Utf16.{Text, encode_utf16}
use ptpsim.Wire.Writer.{Writer}
use ptpsim.Wire.Codes.Sequences.{IsPtpText}
use ptpsim.Dataset.Codes.{IsCodes}
use ptpsim.Dataset.Info.{
  ObjectInfo, DeviceInfo, StorageInfo, encode_object_info, encode_device_info, decode_device_info,
  encode_storage_info,
}
use ptpsim.Dataset.Prop.{
  datatype_code, PropValue, i16, PropForm, range, DevicePropDesc, encode_prop_desc,
  decode_prop_desc,
}
use ptpsim.Wire.Bytes.{ℤ, pos, negsuc, IsSigned}
use ptpsim.Dataset.ObjectInfo.{IsObjectInfo}
use ptpsim.Dataset.DeviceInfo.{IsDeviceInfo, device_info-decode-encode}
use ptpsim.Dataset.StorageInfo.{IsStorageInfo}
use ptpsim.Dataset.PropValue.{IsValue}
use ptpsim.Dataset.PropDesc.{IsPropDesc, prop_desc-decode-encode, prop_desc_exact}

no_text-IsPtpText : IsPtpText []
unfolding encode_utf16
no_text-IsPtpText = record { scalars = tt; short = omega arith }

-- "Aé"
abbrev name : Text
name = 65 ∷ 233 ∷ []

name-IsPtpText : IsPtpText name
unfolding encode_utf16
name-IsPtpText = record {
  scalars = (inl (omega arith), (inl (omega arith), tt));
  short = omega arith;
}

two_words-IsCodes : IsCodes (0x1001 ∷ 0x1009 ∷ [])
two_words-IsCodes = record { wide = (omega arith, (omega arith, tt)); few = omega arith }

no_words-IsCodes : IsCodes []
no_words-IsCodes = record { wide = tt; few = omega arith }

abbrev some_object_info : ObjectInfo
some_object_info = record {
  storage_id = 65537;
  object_format = 14337;
  protection_status = 0;
  object_compressed_size = 1234567;
  thumb_format = 14337;
  thumb_compressed_size = 999;
  thumb_pix_width = 160;
  thumb_pix_height = 120;
  image_pix_width = 4000;
  image_pix_height = 3000;
  image_bit_depth = 24;
  parent_object = 0;
  association_type = 0;
  association_desc = 0;
  sequence_number = 1;
  filename = name;
  capture_date = [];
  modification_date = [];
  keywords = [];
}

some_object_info-IsObjectInfo : IsObjectInfo some_object_info
some_object_info-IsObjectInfo = record {
  storage_id = omega arith;
  object_format = omega arith;
  protection_status = omega arith;
  object_compressed_size = omega arith;
  thumb_format = omega arith;
  thumb_compressed_size = omega arith;
  thumb_pix_width = omega arith;
  thumb_pix_height = omega arith;
  image_pix_width = omega arith;
  image_pix_height = omega arith;
  image_bit_depth = omega arith;
  parent_object = omega arith;
  association_type = omega arith;
  association_desc = omega arith;
  sequence_number = omega arith;
  filename = name-IsPtpText;
  capture_date = no_text-IsPtpText;
  modification_date = no_text-IsPtpText;
  keywords = no_text-IsPtpText;
}

abbrev some_object_info_bytes : List ℕ
some_object_info_bytes =
    1 ∷ 0 ∷ 1 ∷ 0 ∷ 1 ∷ 56 ∷ 0 ∷ 0 ∷ 135 ∷ 214 ∷ 18 ∷ 0 ∷ 1 ∷ 56 ∷ 231 ∷ 3 ∷ 0 ∷ 0 ∷ 160 ∷ 0 ∷ 0 ∷ 0
    ∷ 120 ∷ 0 ∷ 0 ∷ 0 ∷ 160 ∷ 15 ∷ 0 ∷ 0 ∷ 184 ∷ 11 ∷ 0 ∷ 0 ∷ 24 ∷ 0 ∷ 0 ∷ 0 ∷ 0 ∷ 0 ∷ 0 ∷ 0 ∷ 0 ∷ 0
    ∷ 0 ∷ 0 ∷ 0 ∷ 0 ∷ 1 ∷ 0 ∷ 0 ∷ 0 ∷ 3 ∷ 65 ∷ 0 ∷ 233 ∷ 0 ∷ 0 ∷ 0 ∷ 0 ∷ 0 ∷ 0 ∷ []

some_object_info-encodes :
    encode_object_info some_object_info (record { buf = [] })
    ≡ ok (record { buf = some_object_info_bytes })
unfolding encode_object_info ptpsim.Wire.Writer.◌>>◌ ptpsim.Wire.Writer.emit
    ptpsim.Wire.Writer.ptp_string encode_utf16 ptpsim.Wire.Writer.u32 ptpsim.Wire.Bytes.to_le_bytes
some_object_info-encodes = refl

abbrev some_device_info : DeviceInfo
some_device_info = record {
  standard_version = 100;
  vendor_extension_id = 6;
  vendor_extension_version = 100;
  vendor_extension_desc = [];
  functional_mode = 0;
  operations_supported = (4097 ∷ 4105 ∷ []);
  events_supported = [];
  device_properties_supported = [];
  capture_formats = [];
  image_formats = [];
  manufacturer = name;
  model = [];
  device_version = [];
  serial_number = [];
}

some_device_info-IsDeviceInfo : IsDeviceInfo some_device_info
some_device_info-IsDeviceInfo = record {
  standard_version = omega arith;
  vendor_extension_id = omega arith;
  vendor_extension_version = omega arith;
  vendor_extension_desc = no_text-IsPtpText;
  functional_mode = omega arith;
  operations_supported = two_words-IsCodes;
  events_supported = no_words-IsCodes;
  device_properties_supported = no_words-IsCodes;
  capture_formats = no_words-IsCodes;
  image_formats = no_words-IsCodes;
  manufacturer = name-IsPtpText;
  model = no_text-IsPtpText;
  device_version = no_text-IsPtpText;
  serial_number = no_text-IsPtpText;
}

abbrev some_device_info_bytes : List ℕ
some_device_info_bytes =
    100 ∷ 0 ∷ 6 ∷ 0 ∷ 0 ∷ 0 ∷ 100 ∷ 0 ∷ 0 ∷ 0 ∷ 0 ∷ 2 ∷ 0 ∷ 0 ∷ 0 ∷ 1 ∷ 16 ∷ 9 ∷ 16 ∷ 0 ∷ 0 ∷ 0 ∷ 0
    ∷ 0 ∷ 0 ∷ 0 ∷ 0 ∷ 0 ∷ 0 ∷ 0 ∷ 0 ∷ 0 ∷ 0 ∷ 0 ∷ 0 ∷ 3 ∷ 65 ∷ 0 ∷ 233 ∷ 0 ∷ 0 ∷ 0 ∷ 0 ∷ 0 ∷ 0 ∷ []

some_device_info-encodes :
    encode_device_info some_device_info (record { buf = [] })
    ≡ ok (record { buf = some_device_info_bytes })
unfolding encode_device_info ptpsim.Wire.Writer.◌>>◌ ptpsim.Wire.Writer.emit
    ptpsim.Wire.Writer.ptp_string ptpsim.Wire.Writer.ptp_array encode_utf16
    ptpsim.Wire.Bytes.to_le_bytes
some_device_info-encodes = refl

device_info-decode-encode_example :
    (bytes : List ℕ) × (encode_device_info some_device_info (record { buf = 7 ∷ [] })
      ≡ ok (record { buf = (7 ∷ []) ++ bytes }))
    × (decode_device_info bytes ≡ ok some_device_info)
device_info-decode-encode_example =
    device_info-decode-encode some_device_info (record { buf = 7 ∷ [] })
      some_device_info-IsDeviceInfo

abbrev some_storage_info : StorageInfo
some_storage_info = record {
  storage_type = 4;
  filesystem_type = 2;
  access_capability = 0;
  max_capacity = 68719476736;
  free_space_bytes = 34359738368;
  free_space_images = 500;
  storage_description = name;
  volume_label = [];
}

some_storage_info-IsStorageInfo : IsStorageInfo some_storage_info
some_storage_info-IsStorageInfo = record {
  storage_type = omega arith;
  filesystem_type = omega arith;
  access_capability = omega arith;
  max_capacity = omega arith;
  free_space_bytes = omega arith;
  free_space_images = omega arith;
  storage_description = name-IsPtpText;
  volume_label = no_text-IsPtpText;
}

abbrev some_storage_info_bytes : List ℕ
some_storage_info_bytes =
    4 ∷ 0 ∷ 2 ∷ 0 ∷ 0 ∷ 0 ∷ 0 ∷ 0 ∷ 0 ∷ 0 ∷ 16 ∷ 0 ∷ 0 ∷ 0 ∷ 0 ∷ 0 ∷ 0 ∷ 0 ∷ 8 ∷ 0 ∷ 0 ∷ 0 ∷ 244 ∷ 1
    ∷ 0 ∷ 0 ∷ 3 ∷ 65 ∷ 0 ∷ 233 ∷ 0 ∷ 0 ∷ 0 ∷ 0 ∷ []

some_storage_info-encodes :
    encode_storage_info some_storage_info (record { buf = [] })
    ≡ ok (record { buf = some_storage_info_bytes })
unfolding encode_storage_info ptpsim.Wire.Writer.◌>>◌ ptpsim.Wire.Writer.emit
    ptpsim.Wire.Writer.ptp_string encode_utf16 ptpsim.Wire.Writer.u32 ptpsim.Wire.Writer.u64
    ptpsim.Wire.Bytes.to_le_bytes
some_storage_info-encodes = refl

in_type : (v : ℤ) → IsSigned (2 ^ 15) v → IsValue 3 (PropValue.i16 v)
unfolding datatype_code
in_type v h = record { of_type = refl; in_range = h }

abbrev some_prop_desc : DevicePropDesc
some_prop_desc = record {
  code = 0x5010;
  datatype = 3;
  get_set = 1;
  factory_default = PropValue.i16 (pos 0);
  current = PropValue.i16 (negsuc 333);
  form =
      PropForm.range (PropValue.i16 (negsuc 2999)) (PropValue.i16 (pos 3000))
        (PropValue.i16 (pos 333));
}

some_prop_desc-IsDevicePropDesc : IsPropDesc some_prop_desc
some_prop_desc-IsDevicePropDesc = record {
  code = omega arith;
  datatype = omega arith;
  get_set = omega arith;
  factory_default = in_type _ (omega arith);
  current = in_type _ (omega arith);
  form = (in_type _ (omega arith), in_type _ (omega arith), in_type _ (omega arith));
}

abbrev some_prop_desc_bytes : List ℕ
some_prop_desc_bytes =
    16 ∷ 80 ∷ 3 ∷ 0 ∷ 1 ∷ 0 ∷ 0 ∷ 178 ∷ 254 ∷ 1 ∷ 72 ∷ 244 ∷ 184 ∷ 11 ∷ 77 ∷ 1 ∷ []

some_prop_desc-encodes :
    encode_prop_desc some_prop_desc (record { buf = [] })
    ≡ ok (record { buf = some_prop_desc_bytes })
unfolding encode_prop_desc ptpsim.Wire.Writer.◌>>◌ ptpsim.Wire.Writer.emit
    ptpsim.Dataset.Prop.write_value ptpsim.Wire.Writer.i16 ptpsim.Wire.Writer.u8
    ptpsim.Wire.Bytes.to_le_bytes ptpsim.Wire.Bytes.to_unsigned
some_prop_desc-encodes = refl

prop_desc-decode-encode_example :
    (bytes : List ℕ) × (encode_prop_desc some_prop_desc (record { buf = 7 ∷ [] })
      ≡ ok (record { buf = (7 ∷ []) ++ bytes }))
    × (decode_prop_desc bytes ≡ ok some_prop_desc)
prop_desc-decode-encode_example =
    prop_desc-decode-encode some_prop_desc (record { buf = 7 ∷ [] }) some_prop_desc-IsDevicePropDesc

prop_desc_exact_example :
    (decode_prop_desc (some_prop_desc_bytes ++ (0 ∷ [])) ≡ err (trailing_bytes 1))
    × (decode_prop_desc (take 9 some_prop_desc_bytes) ≢ ok some_prop_desc)
prop_desc_exact_example =
    prop_desc_exact some_prop_desc 0 [] 9 some_prop_desc some_prop_desc_bytes
      some_prop_desc-IsDevicePropDesc some_prop_desc-encodes (omega arith)
