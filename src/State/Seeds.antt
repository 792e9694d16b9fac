-- ===== src/State/Seeds.antt =====
-- crates/camera-sim/src/state.rs: the values that a manifest seeds, and the descriptors that the state
-- describes. A value that does not convert trips `debug_assert!` only; the model is of the release build.
use text.Mathlib.Text.{◌==◌ as str_eq}
use ptpsim.Prelude.{ℕ, List, [], ◌∷◌, Option, none, some, if◌then◌else◌, lookup, insert, nat_key}
use ptpsim.Wire.Bytes.{ℤ}
use ptpsim.Dataset.Prop.{PropValue, PropForm, DevicePropDesc}
use ptpsim.Manifest.HexCode.{parse_hex_code}
use ptpsim.Manifest.Property.{
  DescriptorValue, as_i64, PropertyAccess, read_only, read_write, Descriptor, Property, Properties,
  property,
}
use ptpsim.State.Types.{CameraState, initial}
use ptpsim.State.Typed.{datatype_of, typed, default_prop_value, typed_descriptor_value}

-- `desc.values.first()`, converted.
abbrev pub first_value : ℕ → List DescriptorValue → Option PropValue
first_value datatype [] = none
first_value datatype (v ∷ values) = typed_descriptor_value datatype v

-- The value that a property is seeded with, if any.
abbrev pub seed_value : Property → Option PropValue
seed_value prop = elim prop.initial_value [
  | some value ↦ typed_descriptor_value (datatype_of prop.ptype) value
  | none ↦ elim prop.descriptor [
    | some desc ↦ first_value (datatype_of prop.ptype) desc.values
    | none ↦ none
  ]
]

-- A value that there is, inserted.
abbrev pub insert_some : ℕ → Option PropValue → List (ℕ × PropValue) → List (ℕ × PropValue)
insert_some code none props = props
insert_some code (some v) props = insert code v props

-- One round of the loop, on the code that the key was read as.
abbrev pub seed : Option ℕ → Property → List (ℕ × PropValue) → List (ℕ × PropValue)
seed none prop props = props
seed (some code) prop props = insert_some code (seed_value prop) props

unfoldable pub seed_all : Properties → List (ℕ × PropValue) → List (ℕ × PropValue)
seed_all [] props = props
seed_all ((key, prop) ∷ m) props = seed_all m (seed (parse_hex_code key) prop props)

unfoldable pub from_manifest : Properties → CameraState
unfolding seed_all
from_manifest m = initial (seed_all m [])

-- `filter_map` of the conversion.
unfoldable pub converted : ℕ → List DescriptorValue → List PropValue
converted datatype [] = []
converted datatype (v ∷ values) =
    let rest = converted datatype values in
    elim (typed_descriptor_value datatype v) [ none ↦ rest | some w ↦ w ∷ rest ]

-- The inner `match` of a range.
abbrev pub range_form : ℕ → Option ℤ → Option ℤ → Option ℤ → PropForm
range_form datatype (some min) (some max) (some step) =
    PropForm.range (typed datatype min) (typed datatype max) (typed datatype step)
range_form datatype none max step = PropForm.no_form
range_form datatype (some min) none step = PropForm.no_form
range_form datatype (some min) (some max) none = PropForm.no_form

-- The guard `values.len() == 3`.
abbrev pub three_values : ℕ → List DescriptorValue → PropForm
three_values datatype (a ∷ b ∷ c ∷ []) = range_form datatype (as_i64 a) (as_i64 b) (as_i64 c)
three_values datatype [] = PropForm.no_form
three_values datatype (a ∷ []) = PropForm.no_form
three_values datatype (a ∷ b ∷ []) = PropForm.no_form
three_values datatype (a ∷ b ∷ c ∷ d ∷ rest) = PropForm.no_form

unfoldable pub build_form : ℕ → Option Descriptor → PropForm
build_form datatype none = PropForm.no_form
build_form datatype (some d) =
    if str_eq d.form "enum"
    then PropForm.enum (converted datatype d.values)
    else if str_eq d.form "range"
    then three_values datatype d.values
    else PropForm.no_form

abbrev pub get_set_of : Option PropertyAccess → ℕ
get_set_of (some read_write) = 1
get_set_of (some read_only) = 0
get_set_of none = 0

-- `state.props.get(&code)`, or the default.
unfoldable pub current_value : CameraState → ℕ → ℕ → PropValue
current_value state code datatype = elim (lookup code state.props) [
  | none ↦ default_prop_value datatype
  | some v ↦ v
]

-- The descriptor of a property that was found.
unfoldable pub describe : CameraState → ℕ → Property → DevicePropDesc
unfolding current_value build_form
describe state code prop =
    let datatype = datatype_of prop.ptype in
    let current = current_value state code datatype in
    record {
      code = code;
      datatype = datatype;
      get_set = get_set_of prop.access;
      factory_default = current;
      current = current;
      form = build_form datatype prop.descriptor;
    }

unfoldable pub build_prop_desc : Properties → CameraState → ℕ → Option DevicePropDesc
unfolding describe
build_prop_desc m state code = elim (property m code) [
  | none ↦ none
  | some prop ↦ some (describe state code prop)
]
