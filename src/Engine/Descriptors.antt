-- ===== src/Engine/Descriptors.antt =====
-- crates/camera-sim/src/engine.rs: the refusals of the access point, and the bounded auxiliary
-- descriptors. Of a `StateOverlay` the fields that the engine itself applies.
use ptpsim.Prelude.{
  ℕ, ◌+◌, ◌-◌, ◌≤◌, ◌≡◌, refl, Option, none, some, Result, ok, err, Bool, false, ◌||◌, leb, ltb,
  ◌==◌, if◌then◌else◌, List, [], ◌∷◌, arith,
}
pub mod Ledger

pub record Descriptors : Type 0 where
  pub ap_one_shot_latch : Bool
  pub ap_held_term : Bool
  pub aux_descriptor_budget : Option ℕ
  pub aux_descriptor_used : ℕ
  pub aux_managed_used : ℕ

abbrev pub new : Descriptors
new = record {
  ap_one_shot_latch = false;
  ap_held_term = false;
  aux_descriptor_budget = none;
  aux_descriptor_used = 0;
  aux_managed_used = 0;
}

-- A constructor for each message.
pub data DescriptorError : Type 0 where
  not_configured emfile nothing_to_close : DescriptorError

-- `Some((0x0080, 2))` of a refusal.
unfoldable pub ap_should_refuse : Descriptors → Descriptors × Option (ℕ × ℕ)
ap_should_refuse d =
    if d.ap_held_term
    then (d, some (0x0080, 2))
    else if d.ap_one_shot_latch
    then (record d { ap_one_shot_latch = false }, some (0x0080, 2))
    else (d, none)

unfoldable pub ap_refusal_active : Descriptors → Bool
ap_refusal_active d = d.ap_held_term || d.ap_one_shot_latch

unfoldable pub aux_available : Descriptors → Option ℕ
aux_available d = elim d.aux_descriptor_budget [
  | none ↦ none
  | some b ↦ some (b - d.aux_descriptor_used)
]

unfoldable pub aux_orphan_leak : Descriptors → Result DescriptorError Descriptors
aux_orphan_leak d = elim d.aux_descriptor_budget [
  | none ↦ err not_configured
  | some budget ↦
      if leb budget d.aux_descriptor_used
      then err emfile
      else ok (record d { aux_descriptor_used = d.aux_descriptor_used + 1 })
]

unfoldable pub aux_managed_open : Descriptors → Result DescriptorError (Descriptors × ℕ)
aux_managed_open d = elim d.aux_descriptor_budget [
  | none ↦ err not_configured
  | some budget ↦
      if leb budget d.aux_descriptor_used
      then err emfile
      else ok (
        record d {
          aux_descriptor_used = d.aux_descriptor_used + 1;
          aux_managed_used = d.aux_managed_used + 1;
        },
        d.aux_descriptor_used + 1,
      )
]

unfoldable pub aux_managed_close : Descriptors → Result DescriptorError Descriptors
aux_managed_close d =
    if d.aux_managed_used == 0
    then err nothing_to_close
    else ok (record d {
      aux_managed_used = d.aux_managed_used - 1;
      aux_descriptor_used = d.aux_descriptor_used - 1;
    })

unfoldable pub aux_reset_state : Descriptors → Descriptors
aux_reset_state d = record d { aux_descriptor_used = 0; aux_managed_used = 0 }

-- The overlay's settings of these fields.
pub record Overlay : Type 0 where
  pub ap_act_short_latch : Option Bool
  pub ap_held_term : Option Bool
  pub aux_descriptor_budget : Option ℕ
  pub aux_reset : Option Bool

abbrev pub value_or {ℓ} : {A : Type ℓ} → A → Option A → A
value_or a none = a
value_or a (some b) = b

-- A new budget, to which what is used is clamped.
abbrev pub set_budget : Descriptors → Option ℕ → Descriptors
set_budget d none = d
set_budget d (some budget) =
    if ltb budget d.aux_descriptor_used
    then record d { aux_descriptor_budget = some budget; aux_descriptor_used = budget }
    else record d { aux_descriptor_budget = some budget }

unfoldable pub apply_state_overlay : Descriptors → Overlay → Descriptors
unfolding aux_reset_state
apply_state_overlay d o =
    let latched = record d {
      ap_one_shot_latch = value_or d.ap_one_shot_latch o.ap_act_short_latch;
      ap_held_term = value_or d.ap_held_term o.ap_held_term;
    } in
    let budgeted = set_budget latched o.aux_descriptor_budget in
    if value_or false o.aux_reset then aux_reset_state budgeted else budgeted

pub data Call : Type 0 where
  refusing leaking opening closing resetting : Call
  overlaying : Overlay → Call

-- A call that fails changes nothing.
abbrev or_same : Descriptors → Result DescriptorError Descriptors → Descriptors
or_same d (ok e) = e
or_same d (err x) = d

abbrev opened : Result DescriptorError (Descriptors × ℕ) → Result DescriptorError Descriptors
opened (ok p) = ok p.0
opened (err x) = err x

unfoldable pub run_call : Descriptors → Call → Descriptors
run_call d refusing = (ap_should_refuse d).0
run_call d leaking = or_same d (aux_orphan_leak d)
run_call d opening = or_same d (opened (aux_managed_open d))
run_call d closing = or_same d (aux_managed_close d)
run_call d resetting = aux_reset_state d
run_call d (overlaying o) = apply_state_overlay d o

unfoldable pub run : Descriptors → List Call → Descriptors
run d [] = d
run d (c ∷ cs) = run (run_call d c) cs
