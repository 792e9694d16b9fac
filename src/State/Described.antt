-- ===== src/State/Described.antt =====
-- crates/camera-sim/src/state.rs: what the state describes is of the datatype that the manifest declares.
use text.Mathlib.Text.{◌==◌ as str_eq}
use ptpsim.Prelude.{
  ℕ, ◌^◌, ◌≤◌, ◌<◌, ◌≡◌, List, [], ◌∷◌, Option, none, some, arith, All, length, Bool-cases,
  Option-cases, inl, inr, lookup, nat_key,
}
use ptpsim.Dataset.Prop.{PropValue, PropForm}
use ptpsim.Dataset.PropValue.{IsValue, IsForm}
use ptpsim.Dataset.PropDesc.{IsPropDesc}
use ptpsim.Manifest.HexCode.{parse_hex_code}
use ptpsim.Manifest.Property.{
  DescriptorValue, as_i64, PropertyAccess, Descriptor, Property, Properties, property,
}
use ptpsim.State.Types.{CameraState}
use ptpsim.State.Typed.{datatype_of, typed_descriptor_value}
use ptpsim.State.TypedValues.{
  IsDatatype, IsDatatype-lt, datatype_of-IsDatatype, typed-IsValue, IsDescriptorValue,
  typed_descriptor_value-IsValue, default_prop_value-IsValue,
}
use ptpsim.State.Seeds.{
  converted, range_form, three_values, build_form, get_set_of, current_value, describe,
}

abbrev pub OptionIs {ℓ κ} : {A : Type ℓ} → (A → Type κ) → Option A → Type κ
OptionIs P none = Unit
OptionIs P (some a) = P a

-- A descriptor's values are in range, and fewer than 2^16.
abbrev pub IsDescriptor : Descriptor → Type 0
IsDescriptor d = All IsDescriptorValue d.values × (length d.values < 2 ^ 16)

pub record IsProperty (p : Property) : Type 0 where
  pub initial : OptionIs IsDescriptorValue p.initial_value
  pub described : OptionIs IsDescriptor p.descriptor

-- Each property is in range, and no two keys are read as the same code.
abbrev pub IsManifest : Properties → Type 0
IsManifest [] = Unit
IsManifest ((key, p) ∷ m) =
    IsProperty p × ((c : ℕ) → parse_hex_code key ≡ some c → property m c ≡ none) × IsManifest m

converted-IsValue :
    (datatype : ℕ) (values : List DescriptorValue)
    → IsDatatype datatype
    → All IsDescriptorValue values
    → All (IsValue datatype) (converted datatype values)
      × (length (converted datatype values) ≤ length values)
unfolding converted
converted-IsValue datatype [] d h = (tt, omega arith)
converted-IsValue datatype (v ∷ values) d h =
    let rest = converted-IsValue datatype values d h.1 in
    elim (Option-cases (typed_descriptor_value datatype v)) [
      | inl p ↦ rw (converted, p) (rest.0, omega (arith, rest.1))
      | inr (w, p) ↦
          rw (converted, p)
            ((typed_descriptor_value-IsValue datatype v w d h.0 p, rest.0), omega (arith, rest.1))
    ]

three_values-IsForm :
    (datatype : ℕ) (values : List DescriptorValue)
    → IsDatatype datatype
    → All IsDescriptorValue values
    → IsForm datatype (three_values datatype values)
unfolding as_i64
three_values-IsForm datatype [] d h = tt
three_values-IsForm datatype (a ∷ []) d h = tt
three_values-IsForm datatype (a ∷ b ∷ []) d h = tt
three_values-IsForm datatype (a ∷ b ∷ c ∷ x ∷ rest) d h = tt
three_values-IsForm datatype (a ∷ b ∷ c ∷ []) d h = ranged a b c h.0 h.1.0 h.1.1.0
  where
    ranged :
        (a b c : DescriptorValue)
        → IsDescriptorValue a
        → IsDescriptorValue b
        → IsDescriptorValue c
        → IsForm datatype (range_form datatype (as_i64 a) (as_i64 b) (as_i64 c))
    ranged (DescriptorValue.int x) (DescriptorValue.int y) (DescriptorValue.int z) p q r =
        (typed-IsValue datatype x d p, typed-IsValue datatype y d q, typed-IsValue datatype z d r)
    ranged (DescriptorValue.str x) b c p q r = tt
    ranged (DescriptorValue.int x) (DescriptorValue.str y) c p q r = tt
    ranged (DescriptorValue.int x) (DescriptorValue.int y) (DescriptorValue.str z) p q r = tt

build_form-IsForm :
    (datatype : ℕ) (o : Option Descriptor)
    → IsDatatype datatype
    → OptionIs IsDescriptor o
    → IsForm datatype (build_form datatype o)
unfolding build_form
build_form-IsForm datatype none d h = tt
build_form-IsForm datatype (some desc) d h =
    let values = converted-IsValue datatype desc.values d h.0 in
    let enumerated : IsForm datatype (PropForm.enum (converted datatype desc.values)) =
      (values.0, omega (arith, values.1, h.1)) in
    elim (Bool-cases (str_eq desc.form "enum")) [
      | inl p ↦ rw (build_form, p) enumerated
      | inr p ↦ elim (Bool-cases (str_eq desc.form "range")) [
        | inl q ↦ rw (build_form, p, q) (three_values-IsForm datatype desc.values d h.0)
        | inr q ↦ rw (build_form, p, q) tt
      ]
    ]

get_set_of-lt : (access : Option PropertyAccess) → get_set_of access < 2 ^ 8
get_set_of-lt access = ground arith

pub describe-IsPropDesc :
    (s : CameraState) (code : ℕ) (p : Property)
    → code < 2 ^ 16
    → IsProperty p
    → ((v : PropValue) → lookup code s.props ≡ some v → IsValue (datatype_of p.ptype) v)
    → IsPropDesc (describe s code p)
unfolding describe current_value
describe-IsPropDesc s code p l h k = record {
  code = l;
  datatype = IsDatatype-lt _ (datatype_of-IsDatatype p.ptype);
  get_set = get_set_of-lt p.access;
  factory_default = value;
  current = value;
  form = build_form-IsForm _ p.descriptor (datatype_of-IsDatatype p.ptype) h.described;
}
  where
    value : IsValue (datatype_of p.ptype) (current_value s code (datatype_of p.ptype))
    value = elim (Option-cases (lookup code s.props)) [
      | inl e ↦
          rw (current_value, e) (default_prop_value-IsValue _ (datatype_of-IsDatatype p.ptype))
      | inr (v, e) ↦ rw (current_value, e) (k v e)
    ]
