-- ===== src/State/Seeded.antt =====
-- crates/camera-sim/src/state.rs: from the manifest, over any calls, to the bytes of a descriptor.
use ptpsim.Prelude.{
  ℕ, ◌^◌, ◌<◌, ◌≡◌, refl, ap, ◌∙◌, List, [], ◌∷◌, Option, none, some, true, false, ◌==◌,
  if◌then◌else◌, arith, All, Bool-cases, Option-cases, inl, inr, lookup, lookup-insert, nat_key,
  same_self,
}
use mathlib.Core.Path.{subst}
use ptpsim.Wire.Utf16.{Text}
use ptpsim.Dataset.Prop.{PropValue}
use ptpsim.Dataset.PropValue.{IsValue}
use ptpsim.Manifest.HexCode.{parse_hex_code}
use ptpsim.Manifest.HexRoundTrip.{parse_hex_code-lt}
use ptpsim.Manifest.Property.{DescriptorValue, Descriptor, Property, Properties, property, key_is}
use ptpsim.State.Typed.{datatype_of, typed_descriptor_value}
use ptpsim.State.TypedValues.{
  datatype_of-IsDatatype, IsDescriptorValue, typed_descriptor_value-IsValue,
}
use ptpsim.State.Seeds.{first_value, seed_value, insert_some, seed, seed_all}
use ptpsim.State.Described.{OptionIs, IsDescriptor, IsProperty, IsManifest}

insert_some-lookup :
    (code c : ℕ) (v : Option PropValue) (props : List (ℕ × PropValue))
    → (code ≡ c → lookup code props ≡ none)
    → lookup code (insert_some c v props) ≡ (if code == c then v else lookup code props)
insert_some-lookup code c none props h = ground (arith, h)
insert_some-lookup code c (some v) props h = lookup-insert code c v props

seed-other :
    (code : ℕ) (key : Text) (p : Property) (props : List (ℕ × PropValue))
    → key_is key code ≡ false
    → lookup code (seed (parse_hex_code key) p props) ≡ lookup code props
unfolding key_is
seed-other code key p props h = elim (Option-cases (parse_hex_code key)) [
  | inl q ↦ rw q refl
  | inr (c, q) ↦
      rw q (
        insert_some-lookup code c (seed_value p) props (ground (arith, q, h))
        ∙ ground (arith, q, h))
]

seed-same :
    (code : ℕ) (key : Text) (p : Property) (props : List (ℕ × PropValue))
    → parse_hex_code key ≡ some code
    → lookup code props ≡ none
    → lookup code (seed (parse_hex_code key) p props) ≡ seed_value p
seed-same code key p props h k =
    rw h (insert_some-lookup code code (seed_value p) props (λ e. k) ∙ rw (same_self code) refl)

key_is-code : (key : Text) (code : ℕ) → key_is key code ≡ true → parse_hex_code key ≡ some code
unfolding key_is
key_is-code key code h = ground arith

seed_all-absent :
    (code : ℕ) (m : Properties) (props : List (ℕ × PropValue))
    → property m code ≡ none
    → lookup code (seed_all m props) ≡ lookup code props
unfolding seed_all property
seed_all-absent code [] props e = refl
seed_all-absent code ((key, p) ∷ m) props e =
    seed_all-absent code m (seed (parse_hex_code key) p props) (ground (arith, e))
    ∙ seed-other code key p props (ground (arith, e))

pub seed_all-present :
    (code : ℕ) (m : Properties) (p : Property) (props : List (ℕ × PropValue))
    → IsManifest m
    → lookup code props ≡ none
    → property m code ≡ some p
    → lookup code (seed_all m props) ≡ seed_value p
unfolding seed_all property
seed_all-present code [] p props h k e = absurd (ground (arith, e))
seed_all-present code ((key, q) ∷ m) p props h k e = elim (Bool-cases (key_is key code)) [
  | inl t ↦
      let c = key_is-code key code t in
      let same : q ≡ p = ground (arith, t, e) in
      seed_all-absent code m (seed (parse_hex_code key) q props) (h.1 code c)
      ∙ (seed-same code key q props c k ∙ ap (λ x. seed_value x) same)
  | inr t ↦
      seed_all-present code m p (seed (parse_hex_code key) q props) h.2
        (seed-other code key q props t ∙ k) (ground (arith, t, e))
]

pub property_lem :
    (code : ℕ) (m : Properties) (p : Property)
    → IsManifest m
    → property m code ≡ some p
    → IsProperty p × (code < 2 ^ 16)
unfolding property
property_lem code [] p h e = absurd (ground (arith, e))
property_lem code ((key, q) ∷ m) p h e = elim (Bool-cases (key_is key code)) [
  | inl t ↦ (
    subst IsProperty (ground (arith, t, e)) h.0,
    parse_hex_code-lt key code (key_is-code key code t),
  )
  | inr t ↦ property_lem code m p h.2 (ground (arith, t, e))
]

pub seed_value-IsValue :
    (p : Property) → IsProperty p → OptionIs (IsValue (datatype_of p.ptype)) (seed_value p)
seed_value-IsValue p h = seeded p.initial_value p.descriptor h.initial h.described
  where
    converts :
        (v : DescriptorValue)
        → IsDescriptorValue v
        → OptionIs (IsValue (datatype_of p.ptype)) (typed_descriptor_value (datatype_of p.ptype) v)
    converts v k = elim (Option-cases (typed_descriptor_value (datatype_of p.ptype) v)) [
      | inl e ↦ rw e tt
      | inr (w, e) ↦ rw e (
          typed_descriptor_value-IsValue (datatype_of p.ptype) v w (datatype_of-IsDatatype p.ptype)
            k e)
    ]

    first :
        (values : List DescriptorValue)
        → All IsDescriptorValue values
        → OptionIs (IsValue (datatype_of p.ptype)) (first_value (datatype_of p.ptype) values)
    first [] k = tt
    first (v ∷ values) k = converts v k.0

    seeded :
        (o : Option DescriptorValue) (d : Option Descriptor)
        → OptionIs IsDescriptorValue o
        → OptionIs IsDescriptor d
        → OptionIs (IsValue (datatype_of p.ptype)) (
            seed_value (record {
              ptype = p.ptype;
              access = p.access;
              initial_value = o;
              descriptor = d;
              payload = p.payload;
            }))
    seeded (some v) d k l = converts v k
    seeded none none k l = tt
    seeded none (some desc) k l = first desc.values l.0
