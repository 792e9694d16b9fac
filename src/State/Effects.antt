-- ===== src/State/Effects.antt =====
-- crates/camera-sim/src/state.rs: when a deferred effect becomes visible.
use ptpsim.Prelude.{
  ℕ, ◌-◌, ◌<◌, ◌≡◌, refl, ap, ◌∙◌, List, [], ◌∷◌, Option, none, some, leb, if◌then◌else◌, arith,
  lookup, nat_key, Bool-cases, inl, inr, ne→==, All, zero, suc, same_self,
}
use ptpsim.Dataset.Prop.{PropValue}
use ptpsim.State.Types.{CameraState, arm_effect}
use ptpsim.State.Calls.{
  Call, arming, resolving, pushing, taking, draining, satisfying, clearing, resetting, setting, run,
  run_call, is_poll, polls, IsUnarmed, Cell, cell, cell_call, cell_run, run-cell, call-cell,
}

settled-call :
    (code : ℕ) (value : Option PropValue) (c : Call)
    → IsUnarmed code c
    → cell_call code (value, none) c ≡ (value, none)
settled-call code value (arming k v n) h = rw (ne→== code k h) refl
settled-call code value (resolving k) h = ground arith
settled-call code value (pushing k params) h = refl
settled-call code value (taking k) h = refl
settled-call code value draining h = refl
settled-call code value (satisfying name) h = refl
settled-call code value (clearing name) h = refl
settled-call code value resetting h = refl
settled-call code value (setting name sequence progress) h = refl

settled-run :
    (code : ℕ) (value : Option PropValue) (calls : List Call)
    → All (IsUnarmed code) calls
    → cell_run code (value, none) calls ≡ (value, none)
settled-run code value [] h = refl
settled-run code value (c ∷ cs) h =
    ap (λ x. cell_run code x cs) (settled-call code value c h.0) ∙ settled-run code value cs h.1

-- The effect after so many polls.
abbrev after_polls : Option PropValue → PropValue → (remaining polls : ℕ) → Cell
after_polls old value r n =
    if leb r n
    then (some value, none)
    else (old, some (record { value = value; remaining = r - n }))

waiting-call :
    (code : ℕ) (old : Option PropValue) (value : PropValue) (r : ℕ) (c : Call)
    → IsUnarmed code c
    → 0 < r
    → cell_call code (old, some (record { value = value; remaining = r })) c
      ≡ after_polls old value r (is_poll code c)
waiting-call code old value r (arming k v n) h p = rw (ne→== code k h) (ground arith)
waiting-call code old value r (resolving k) h p = ground arith
waiting-call code old value r (pushing k params) h p = ground arith
waiting-call code old value r (taking k) h p = ground arith
waiting-call code old value r draining h p = ground arith
waiting-call code old value r (satisfying name) h p = ground arith
waiting-call code old value r (clearing name) h p = ground arith
waiting-call code old value r resetting h p = ground arith
waiting-call code old value r (setting name sequence progress) h p = ground arith

waiting-run :
    (code : ℕ) (old : Option PropValue) (value : PropValue) (r : ℕ) (calls : List Call)
    → All (IsUnarmed code) calls
    → 0 < r
    → cell_run code (old, some (record { value = value; remaining = r })) calls
      ≡ after_polls old value r (polls code calls)
waiting-run code old value r [] h p = ground arith
waiting-run code old value r (c ∷ cs) h p =
    ap (λ x. cell_run code x cs) (waiting-call code old value r c h.0 p)
    ∙ elim (Bool-cases (leb r (is_poll code c))) [
      | inl q ↦ rw q (settled-run code (some value) cs h.1 ∙ ground arith)
      | inr q ↦
          rw q
            (waiting-run code old value (r - is_poll code c) cs h.1 (ground arith) ∙ ground arith)
    ]

arming-call :
    (code : ℕ) (c : Cell) (value : PropValue) (n : ℕ)
    → cell_call code c (arming code value n) ≡ after_polls c.0 value n 0
arming-call code c value n = rw (same_self code) (ground arith)

armed-run :
    (code : ℕ) (old : Option PropValue) (value : PropValue) (n : ℕ) (calls : List Call)
    → All (IsUnarmed code) calls
    → cell_run code (after_polls old value n 0) calls ≡ after_polls old value n (polls code calls)
armed-run code old value zero calls h = settled-run code (some value) calls h ∙ ground arith
armed-run code old value (suc n) calls h =
    ap (λ x. cell_run code x calls) unpolled
    ∙ waiting-run code old value (suc n) calls h (omega arith)
  where
    unpolled :
        after_polls old value (suc n) 0 ≡ (old, some (record { value = value; remaining = suc n }))
    unpolled = ground arith

-- An effect armed on a property, followed by any calls that do not arm it again: the property has its
-- old value until it was polled as often as the effect waits, polls of other properties not counted,
-- and the effect's value from then on; with nothing to wait for it has it at once.
pub arm_effect-run :
    (s : CameraState) (code : ℕ) (value : PropValue) (settle_after_polls : ℕ) (calls : List Call)
    → All (IsUnarmed code) calls
    → lookup code (run (arm_effect s code value settle_after_polls) calls).props
      ≡ (if leb settle_after_polls (polls code calls) then some value else lookup code s.props)
unfolding run_call
arm_effect-run s code value n calls h =
    ap (λ x. x.0)
      (run-cell code (arm_effect s code value n) calls
        ∙ (ap (λ x. cell_run code x calls) (armed ∙ arming-call code (cell code s) value n)
            ∙ armed-run code (lookup code s.props) value n calls h))
    ∙ ground arith
  where
    armed :
        cell code (arm_effect s code value n) ≡ cell_call code (cell code s) (arming code value n)
    armed = call-cell code s (arming code value n)
