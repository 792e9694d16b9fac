-- ===== src/Engine/Mutation/Prepared.antt =====
-- crates/camera-sim/src/engine.rs: what was prepared can be applied.
use Prim.Native.String.{String}
use text.Mathlib.Text.{◌==◌ as str_eq}
use text.Mathlib.TextEquality.{eq_iff}
use mathlib.Core.Path.{subst}
use ptpsim.Prelude.{
  ◌^◌, ◌≡◌, refl, sym, Option, none, some, true, false, nat_key, string_key, arith, Bool-cases, inl,
  inr,
}
use ptpsim.Wire.Bytes.{ℤ, pos, negsuc, IsSigned, to_signed}
use ptpsim.Dataset.Prop.{PropValue, datatype_code}
use ptpsim.Dataset.PropValue.{IsValue}
use ptpsim.State.Typed.{datatype_of}
use ptpsim.Engine.Gates.{value_to_i64}
use ptpsim.Engine.Mutation.{scalar_fits_property, property_transition_value}

-- The value at the property's type: of its datatype, in range, and the same number.
abbrev pub Converts : Option String → ℤ → Type 0
Converts ty v =
    (w : PropValue) × (property_transition_value ty v ≡ some w)
    × IsValue (datatype_of ty) w
    × (value_to_i64 w ≡ some v)

abbrev Fits : ℤ → String → Type 0
Fits v ty = scalar_fits_property (some ty) v ≡ true → Converts (some ty) v

u8-Fits : (v : ℤ) → Fits v "u8"
unfolding scalar_fits_property property_transition_value datatype_of datatype_code value_to_i64
u8-Fits (pos n) h = (
  PropValue.u8 n,
  ground (arith, h),
  record { of_type = refl; in_range = ground (arith, h) },
  refl,
)
u8-Fits (negsuc n) h = absurd (ground (arith, h))

u64-Fits : (v : ℤ) → IsSigned (2 ^ 63) v → Fits v "u64"
unfolding scalar_fits_property property_transition_value datatype_of datatype_code value_to_i64
    to_signed
u64-Fits (pos n) l h = (
  PropValue.u64 n,
  ground (arith, l),
  record { of_type = refl; in_range = ground (arith, l) },
  ground (arith, l),
)
u64-Fits (negsuc n) l h = absurd (ground (arith, h))

i8-Fits : (v : ℤ) → Fits v "i8"
unfolding scalar_fits_property property_transition_value datatype_of datatype_code value_to_i64
i8-Fits (pos n) h = (
  PropValue.i8 (pos n),
  ground (arith, h),
  record { of_type = refl; in_range = ground (arith, h) },
  refl,
)
i8-Fits (negsuc n) h = (
  PropValue.i8 (negsuc n),
  ground (arith, h),
  record { of_type = refl; in_range = ground (arith, h) },
  refl,
)

u16-Fits : (v : ℤ) → Fits v "u16"
unfolding scalar_fits_property property_transition_value datatype_of datatype_code value_to_i64
u16-Fits (pos n) h = (
  PropValue.u16 n,
  ground (arith, h),
  record { of_type = refl; in_range = ground (arith, h) },
  refl,
)
u16-Fits (negsuc n) h = absurd (ground (arith, h))

u32-Fits : (v : ℤ) → Fits v "u32"
unfolding scalar_fits_property property_transition_value datatype_of datatype_code value_to_i64
u32-Fits (pos n) h = (
  PropValue.u32 n,
  ground (arith, h),
  record { of_type = refl; in_range = ground (arith, h) },
  refl,
)
u32-Fits (negsuc n) h = absurd (ground (arith, h))

i16-Fits : (v : ℤ) → Fits v "i16"
unfolding scalar_fits_property property_transition_value datatype_of datatype_code value_to_i64
i16-Fits (pos n) h = (
  PropValue.i16 (pos n),
  ground (arith, h),
  record { of_type = refl; in_range = ground (arith, h) },
  refl,
)
i16-Fits (negsuc n) h = (
  PropValue.i16 (negsuc n),
  ground (arith, h),
  record { of_type = refl; in_range = ground (arith, h) },
  refl,
)

i32-Fits : (v : ℤ) → Fits v "i32"
unfolding scalar_fits_property property_transition_value datatype_of datatype_code value_to_i64
i32-Fits (pos n) h = (
  PropValue.i32 (pos n),
  ground (arith, h),
  record { of_type = refl; in_range = ground (arith, h) },
  refl,
)
i32-Fits (negsuc n) h = (
  PropValue.i32 (negsuc n),
  ground (arith, h),
  record { of_type = refl; in_range = ground (arith, h) },
  refl,
)

i64-Fits : (v : ℤ) → IsSigned (2 ^ 63) v → Fits v "i64"
unfolding property_transition_value datatype_of datatype_code value_to_i64
i64-Fits v l h = (PropValue.i64 v, refl, record { of_type = refl; in_range = l }, refl)

-- The next name of the `match`.
or_else :
    (v : ℤ) (ty name : String) → Fits v name → (str_eq ty name ≡ false → Fits v ty) → Fits v ty
or_else v ty name f g = elim (Bool-cases (str_eq ty name)) [
  | inl p ↦ subst (Fits v) (sym ((eq_iff ty name).0 p)) f
  | inr p ↦ g p
]

-- A number of 64 bits that fits a property's type converts to a value of the datatype that the type declares,
-- in its range, which reads back as the same number.
pub scalar_fits_property-Converts :
    (ty : Option String) (v : ℤ)
    → IsSigned (2 ^ 63) v
    → scalar_fits_property ty v ≡ true
    → Converts ty v
unfolding scalar_fits_property
scalar_fits_property-Converts none v l h = absurd (ground (arith, h))
scalar_fits_property-Converts (some ty) v l fits =
    (or_else v ty "u8" (u8-Fits v) λ a. or_else v ty "u16" (u16-Fits v) λ b.
        or_else v ty "u32" (u32-Fits v) λ c. or_else v ty "u64" (u64-Fits v l) λ d.
          or_else v ty "i8" (i8-Fits v) λ e. or_else v ty "i16" (i16-Fits v) λ f.
            or_else v ty "i32" (i32-Fits v) λ g.
              or_else v ty "i64" (i64-Fits v l)
                λ i h. absurd (ground (arith, a, b, c, d, e, f, g, i, h)))
      fits
