-- ===== src/Dataset/Info.antt =====
-- crates/ptp-core/src/dataset.rs: `ObjectInfo`, `DeviceInfo` and `StorageInfo`. The fields are read and
-- written in the order in which the structs declare them.
use ptpsim.Prelude.{ℕ, List, Result}
use ptpsim.Wire.Error.{DecodeError}
use ptpsim.Wire.Utf16.{Text}
use ptpsim.Wire.Reader.{Decoder, pure, ◌>>=◌, u16, u32, u64, ptp_string, ptp_array, run, complete}
use ptpsim.Wire.Writer
use ptpsim.Wire.Writer.{Encoder, emit, ◌>>◌}

pub record ObjectInfo : Type 0 where
  pub storage_id : ℕ
  pub object_format : ℕ
  pub protection_status : ℕ
  pub object_compressed_size : ℕ
  pub thumb_format : ℕ
  pub thumb_compressed_size : ℕ
  pub thumb_pix_width : ℕ
  pub thumb_pix_height : ℕ
  pub image_pix_width : ℕ
  pub image_pix_height : ℕ
  pub image_bit_depth : ℕ
  pub parent_object : ℕ
  pub association_type : ℕ
  pub association_desc : ℕ
  pub sequence_number : ℕ
  pub filename : Text
  pub capture_date : Text
  pub modification_date : Text
  pub keywords : Text

pub record DeviceInfo : Type 0 where
  pub standard_version : ℕ
  pub vendor_extension_id : ℕ
  pub vendor_extension_version : ℕ
  pub vendor_extension_desc : Text
  pub functional_mode : ℕ
  pub operations_supported : List ℕ
  pub events_supported : List ℕ
  pub device_properties_supported : List ℕ
  pub capture_formats : List ℕ
  pub image_formats : List ℕ
  pub manufacturer : Text
  pub model : Text
  pub device_version : Text
  pub serial_number : Text

pub record StorageInfo : Type 0 where
  pub storage_type : ℕ
  pub filesystem_type : ℕ
  pub access_capability : ℕ
  pub max_capacity : ℕ
  pub free_space_bytes : ℕ
  pub free_space_images : ℕ
  pub storage_description : Text
  pub volume_label : Text

-- The fields in `ObjectInfo::decode`.
unfoldable pub object_info_fields : Decoder ObjectInfo
object_info_fields = do
  storage_id ← u32
  object_format ← u16
  protection_status ← u16
  object_compressed_size ← u32
  thumb_format ← u16
  thumb_compressed_size ← u32
  thumb_pix_width ← u32
  thumb_pix_height ← u32
  image_pix_width ← u32
  image_pix_height ← u32
  image_bit_depth ← u32
  parent_object ← u32
  association_type ← u16
  association_desc ← u32
  sequence_number ← u32
  filename ← ptp_string
  capture_date ← ptp_string
  modification_date ← ptp_string
  keywords ← ptp_string
  pure (record {
    storage_id = storage_id;
    object_format = object_format;
    protection_status = protection_status;
    object_compressed_size = object_compressed_size;
    thumb_format = thumb_format;
    thumb_compressed_size = thumb_compressed_size;
    thumb_pix_width = thumb_pix_width;
    thumb_pix_height = thumb_pix_height;
    image_pix_width = image_pix_width;
    image_pix_height = image_pix_height;
    image_bit_depth = image_bit_depth;
    parent_object = parent_object;
    association_type = association_type;
    association_desc = association_desc;
    sequence_number = sequence_number;
    filename = filename;
    capture_date = capture_date;
    modification_date = modification_date;
    keywords = keywords;
  })

-- `ObjectInfo::decode`.
unfoldable pub decode_object_info : List ℕ → Result DecodeError ObjectInfo
unfolding object_info_fields
decode_object_info bytes = run (complete object_info_fields) bytes

-- `ObjectInfo::encode`.
unfoldable pub encode_object_info : ObjectInfo → Encoder
encode_object_info v = do
  emit (Writer.u32 v.storage_id)
  emit (Writer.u16 v.object_format)
  emit (Writer.u16 v.protection_status)
  emit (Writer.u32 v.object_compressed_size)
  emit (Writer.u16 v.thumb_format)
  emit (Writer.u32 v.thumb_compressed_size)
  emit (Writer.u32 v.thumb_pix_width)
  emit (Writer.u32 v.thumb_pix_height)
  emit (Writer.u32 v.image_pix_width)
  emit (Writer.u32 v.image_pix_height)
  emit (Writer.u32 v.image_bit_depth)
  emit (Writer.u32 v.parent_object)
  emit (Writer.u16 v.association_type)
  emit (Writer.u32 v.association_desc)
  emit (Writer.u32 v.sequence_number)
  Writer.ptp_string v.filename
  Writer.ptp_string v.capture_date
  Writer.ptp_string v.modification_date
  Writer.ptp_string v.keywords

-- The fields in `DeviceInfo::decode`.
unfoldable pub device_info_fields : Decoder DeviceInfo
device_info_fields = do
  standard_version ← u16
  vendor_extension_id ← u32
  vendor_extension_version ← u16
  vendor_extension_desc ← ptp_string
  functional_mode ← u16
  operations_supported ← ptp_array u16
  events_supported ← ptp_array u16
  device_properties_supported ← ptp_array u16
  capture_formats ← ptp_array u16
  image_formats ← ptp_array u16
  manufacturer ← ptp_string
  model ← ptp_string
  device_version ← ptp_string
  serial_number ← ptp_string
  pure (record {
    standard_version = standard_version;
    vendor_extension_id = vendor_extension_id;
    vendor_extension_version = vendor_extension_version;
    vendor_extension_desc = vendor_extension_desc;
    functional_mode = functional_mode;
    operations_supported = operations_supported;
    events_supported = events_supported;
    device_properties_supported = device_properties_supported;
    capture_formats = capture_formats;
    image_formats = image_formats;
    manufacturer = manufacturer;
    model = model;
    device_version = device_version;
    serial_number = serial_number;
  })

-- `DeviceInfo::decode`.
unfoldable pub decode_device_info : List ℕ → Result DecodeError DeviceInfo
unfolding device_info_fields
decode_device_info bytes = run (complete device_info_fields) bytes

-- `DeviceInfo::encode`.
unfoldable pub encode_device_info : DeviceInfo → Encoder
encode_device_info v = do
  emit (Writer.u16 v.standard_version)
  emit (Writer.u32 v.vendor_extension_id)
  emit (Writer.u16 v.vendor_extension_version)
  Writer.ptp_string v.vendor_extension_desc
  emit (Writer.u16 v.functional_mode)
  Writer.ptp_array (λ n. emit (Writer.u16 n)) v.operations_supported
  Writer.ptp_array (λ n. emit (Writer.u16 n)) v.events_supported
  Writer.ptp_array (λ n. emit (Writer.u16 n)) v.device_properties_supported
  Writer.ptp_array (λ n. emit (Writer.u16 n)) v.capture_formats
  Writer.ptp_array (λ n. emit (Writer.u16 n)) v.image_formats
  Writer.ptp_string v.manufacturer
  Writer.ptp_string v.model
  Writer.ptp_string v.device_version
  Writer.ptp_string v.serial_number

-- The fields in `StorageInfo::decode`.
unfoldable pub storage_info_fields : Decoder StorageInfo
storage_info_fields = do
  storage_type ← u16
  filesystem_type ← u16
  access_capability ← u16
  max_capacity ← u64
  free_space_bytes ← u64
  free_space_images ← u32
  storage_description ← ptp_string
  volume_label ← ptp_string
  pure (record {
    storage_type = storage_type;
    filesystem_type = filesystem_type;
    access_capability = access_capability;
    max_capacity = max_capacity;
    free_space_bytes = free_space_bytes;
    free_space_images = free_space_images;
    storage_description = storage_description;
    volume_label = volume_label;
  })

-- `StorageInfo::decode`.
unfoldable pub decode_storage_info : List ℕ → Result DecodeError StorageInfo
unfolding storage_info_fields
decode_storage_info bytes = run (complete storage_info_fields) bytes

-- `StorageInfo::encode`.
unfoldable pub encode_storage_info : StorageInfo → Encoder
encode_storage_info v = do
  emit (Writer.u16 v.storage_type)
  emit (Writer.u16 v.filesystem_type)
  emit (Writer.u16 v.access_capability)
  emit (Writer.u64 v.max_capacity)
  emit (Writer.u64 v.free_space_bytes)
  emit (Writer.u32 v.free_space_images)
  Writer.ptp_string v.storage_description
  Writer.ptp_string v.volume_label
