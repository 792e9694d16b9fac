-- ===== src/State/Composed.antt =====
-- crates/camera-sim/src/state.rs: any calls keep the values of the declared datatypes, and what the state
-- describes can be sent.
use ptpsim.Prelude.{
  ℕ, ◌≡◌, sym, ap, List, [], ◌∷◌, none, some, ◌==◌, if◌then◌else◌, arith, All, Bool-cases,
  Option-cases, inl, inr, ==_iff, lookup, lookup-nil, nat_key, if_case, ok, ◌++◌, ◌-◌,
}
use mathlib.Core.Path.{subst}
use ptpsim.Wire.Writer.{Writer}
use ptpsim.Dataset.Prop.{DevicePropDesc, encode_prop_desc, decode_prop_desc}
use ptpsim.Dataset.PropValue.{IsValue}
use ptpsim.Dataset.PropDesc.{IsPropDesc, prop_desc-decode-encode}
use ptpsim.Manifest.Property.{Property, Properties, property}
use ptpsim.State.Types.{CameraState, PendingTransition}
use ptpsim.State.Typed.{datatype_of}
use ptpsim.State.Seeds.{seed_value, seed_all, from_manifest, describe, build_prop_desc}
use ptpsim.State.Calls.{
  Call, arming, resolving, pushing, taking, draining, satisfying, clearing, resetting, setting,
  Cell, cell, cell_call, cell_run, run, run-cell,
}
use ptpsim.State.Described.{OptionIs, IsManifest, describe-IsPropDesc}
use ptpsim.State.Seeded.{seed_all-present, seed_value-IsValue, property_lem}

-- The value and the waiting effect of a property are of a datatype.
abbrev pub IsTypedCell : ℕ → Cell → Type 0
IsTypedCell d c =
    OptionIs (IsValue d) c.0 × OptionIs (λ (p : PendingTransition). IsValue d p.value) c.1

-- An effect that a call arms on `code` is of the datatype.
abbrev pub IsTypedCall : ℕ → ℕ → Call → Type 0
IsTypedCall code d (arming k value n) = code ≡ k → IsValue d value
IsTypedCall code d _ = Unit

cell_call-IsTyped :
    (code d : ℕ) (c : Cell) (call : Call)
    → IsTypedCell d c
    → IsTypedCall code d call
    → IsTypedCell d (cell_call code c call)
cell_call-IsTyped code d c (arming k v n) h t = elim (Bool-cases (code == k)) [
  | inl p ↦ rw p (armed (t ((==_iff code k).0 p)))
  | inr p ↦ rw p h
]
  where
    armed :
        IsValue d v
        → IsTypedCell d
            (if n == 0 then (some v, none) else (c.0, some (record { value = v; remaining = n })))
    armed k = if_case (IsTypedCell d) (n == 0) (k, tt) (h.0, k)
cell_call-IsTyped code d (value, none) (resolving k) h t = if_case (IsTypedCell d) (code == k) h h
cell_call-IsTyped code d (value, some p) (resolving k) h t =
    if_case (IsTypedCell d) (code == k)
      (if_case (IsTypedCell d) ((p.remaining - 1) == 0) (h.1, tt) (h.0, h.1)) h
cell_call-IsTyped code d c (pushing k params) h t = h
cell_call-IsTyped code d c (taking k) h t = h
cell_call-IsTyped code d c draining h t = h
cell_call-IsTyped code d c (satisfying name) h t = h
cell_call-IsTyped code d c (clearing name) h t = h
cell_call-IsTyped code d c resetting h t = h
cell_call-IsTyped code d c (setting name sequence progress) h t = h

cell_run-IsTyped :
    (code d : ℕ) (c : Cell) (calls : List Call)
    → IsTypedCell d c
    → All (IsTypedCall code d) calls
    → IsTypedCell d (cell_run code c calls)
cell_run-IsTyped code d c [] h t = h
cell_run-IsTyped code d c (call ∷ calls) h t =
    cell_run-IsTyped code d (cell_call code c call) calls (cell_call-IsTyped code d c call h t.0)
      t.1

-- Every value of the state is of the datatype that the manifest declares for its property.
abbrev pub IsTyped : Properties → CameraState → Type 0
IsTyped m s =
    (code : ℕ) (p : Property)
    → property m code ≡ some p
    → IsTypedCell (datatype_of p.ptype) (cell code s)

-- The effects that the calls arm are of the declared datatypes.
abbrev pub AreTypedCalls : Properties → List Call → Type 0
AreTypedCalls m calls =
    (code : ℕ) (p : Property)
    → property m code ≡ some p
    → All (IsTypedCall code (datatype_of p.ptype)) calls

-- A manifest whose keys are read as different codes and whose values are in range seeds a state in which
-- every value is of the datatype that the manifest declares, and any calls whose effects are of the declared
-- datatypes keep it so, while the effects wait and once they are visible.
pub run-from_manifest-IsTyped :
    (m : Properties) (calls : List Call)
    → IsManifest m
    → AreTypedCalls m calls
    → IsTyped m (run (from_manifest m) calls)
unfolding from_manifest
run-from_manifest-IsTyped m calls h t code p e =
    let d = datatype_of p.ptype in
    let seeded : lookup code (seed_all m []) ≡ seed_value p =
      seed_all-present code m p [] h (lookup-nil code) e in
    let fresh : IsTypedCell d (cell code (from_manifest m)) = (
      subst (OptionIs (IsValue d)) (sym seeded)
          (seed_value-IsValue p (property_lem code m p h e).0),
      subst (OptionIs (λ (x : PendingTransition). IsValue d x.value)) (sym (lookup-nil code)) tt,
    ) in
    subst (IsTypedCell d) (sym (run-cell code (from_manifest m) calls))
      (cell_run-IsTyped code d (cell code (from_manifest m)) calls fresh (t code p e))

-- Whatever the state describes after such calls is encoded without an error, and decoded back to the same
-- descriptor, of the code that was asked for.
pub build_prop_desc-decode :
    (m : Properties) (calls : List Call) (code : ℕ) (d : DevicePropDesc) (w : Writer)
    → IsManifest m
    → AreTypedCalls m calls
    → build_prop_desc m (run (from_manifest m) calls) code ≡ some d
    → (bytes : List ℕ) × (encode_prop_desc d w ≡ ok (record { buf = w.buf ++ bytes }))
      × (decode_prop_desc bytes ≡ ok d)
      × (d.code ≡ code)
unfolding build_prop_desc describe
build_prop_desc-decode m calls code d w h t e = elim (Option-cases (property m code)) [
  | inl q ↦ absurd (ground (arith, q, e))
  | inr (p, q) ↦
      let s = run (from_manifest m) calls in
      let same : describe s code p ≡ d = ground (arith, q, e) in
      let known = property_lem code m p h q in
      let typed_cell = run-from_manifest-IsTyped m calls h t code p q in
      let sound : IsPropDesc d = subst IsPropDesc same (
        describe-IsPropDesc s code p known.1 known.0
          (λ v l. subst (OptionIs (IsValue (datatype_of p.ptype))) l typed_cell.0)) in
      let trip = prop_desc-decode-encode d w sound in
      (trip.0, trip.1, trip.2, ap (λ (x : DevicePropDesc). x.code) (sym same))
]
