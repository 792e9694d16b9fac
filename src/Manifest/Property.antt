-- ===== src/Manifest/Property.antt =====
-- crates/camera-config/src/model.rs and query.rs: the properties of a manifest. Of `Property` the fields
-- that the simulated camera reads, `payload` as whether there is one; `properties` is in the order of its keys.
use Prim.Native.String.{String}
use ptpsim.Prelude.{ℕ, List, [], ◌∷◌, Option, none, some, Bool, false, ◌==◌, if◌then◌else◌}
use ptpsim.Wire.Bytes.{ℤ}
use ptpsim.Wire.Utf16.{Text}
use ptpsim.Manifest.HexCode.{parse_hex_code}

pub data DescriptorValue : Type 0 where
  int : ℤ → DescriptorValue
  str : Text → DescriptorValue

unfoldable pub as_i64 : DescriptorValue → Option ℤ
as_i64 (DescriptorValue.int value) = some value
as_i64 (DescriptorValue.str s) = none

pub data PropertyAccess : Type 0 where
  read_only read_write : PropertyAccess

pub record Descriptor : Type 0 where
  pub form : String
  pub values : List DescriptorValue

pub record Property : Type 0 where
  pub ptype : Option String
  pub access : Option PropertyAccess
  pub initial_value : Option DescriptorValue
  pub descriptor : Option Descriptor
  pub payload : Bool

abbrev pub Properties : Type 0
Properties = List (Text × Property)

-- `parse_hex_code(k) == Some(code)`.
unfoldable pub key_is : Text → ℕ → Bool
key_is key code = elim (parse_hex_code key) [ none ↦ false | some c ↦ c == code ]

-- `CameraManifest::property`.
unfoldable pub property : Properties → ℕ → Option Property
property [] code = none
property ((key, p) ∷ m) code =
    let rest = property m code in if key_is key code then some p else rest
