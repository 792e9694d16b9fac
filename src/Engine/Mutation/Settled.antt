-- ===== src/Engine/Mutation/Settled.antt =====
-- crates/camera-sim/src/engine.rs: what applying a transition leaves in the state.
use ptpsim.Prelude.{
  ℕ, zero, suc, ◌≡◌, refl, ap, ◌∙◌, List, Option, none, some, ok, false, ◌==◌, lookup, insert,
  lookup-insert, same_self, nat_key, arith,
}
use ptpsim.Wire.Bytes.{ℤ}
use ptpsim.Dataset.Prop.{PropValue}
use ptpsim.Manifest.Property.{Properties}
use ptpsim.State.Types.{PendingTransition, CameraState, arm_effect}
use ptpsim.Engine.Gates.{value_to_i64}
use ptpsim.Engine.Receive.Tokens.{ptype_of}
use ptpsim.Engine.Mutation.{
  property_transition_value, PreparedPropertyTransition, PreparedResponderMutation, Responder,
  write_initial, arm_terminal, returned, apply_transition, apply_responder_mutation,
}
use ptpsim.Engine.Mutation.Prepared.{Converts}

-- The property has a value that reads as the number.
abbrev Reads : CameraState → ℕ → ℤ → Type 0
Reads s target v = (w : PropValue) × (lookup target s.props ≡ some w) × (value_to_i64 w ≡ some v)

-- A value that reads as the number waits for the polls.
abbrev Waits : CameraState → ℕ → ℤ → ℕ → Type 0
Waits s target v polls =
    (w : PropValue) × (lookup target s.pending ≡ some (record { value = w; remaining = polls }))
    × (value_to_i64 w ≡ some v)

-- A terminal value without polls is read at once; with polls it waits for as many of them, and meanwhile
-- the initial value, if there is one, is read.
abbrev pub Settles : CameraState → (target : ℕ) → Option ℤ → (terminal : ℤ) → (polls : ℕ) → Type 0
Settles s target initial terminal zero = Reads s target terminal
Settles s target none terminal (suc n) = Waits s target terminal (suc n)
Settles s target (some v) terminal (suc n) = Reads s target v × Waits s target terminal (suc n)

-- A transition whose values convert at its target.
pub record IsConvertible (m : Properties) (t : PreparedPropertyTransition) : Type 0 where
  pub initial : (v : ℤ) → t.initial ≡ some v → Converts (ptype_of m t.target) v
  pub terminal : Converts (ptype_of m t.target) t.terminal

inserted :
    (code : ℕ) (w : PropValue) (m : List (ℕ × PropValue)) → lookup code (insert code w m) ≡ some w
inserted code w m = lookup-insert code code w m ∙ rw (same_self code) refl

waiting :
    (code : ℕ) (p : PendingTransition) (m : List (ℕ × PendingTransition))
    → lookup code (insert code p m) ≡ some p
waiting code p m = lookup-insert code code p m ∙ rw (same_self code) refl

later : (n : ℕ) → (suc n == 0) ≡ false
later n = ground arith

-- The initial value is read, if there is one.
abbrev Begun : CameraState → ℕ → Option ℤ → Type 0
Begun s target none = Unit
Begun s target (some v) = Reads s target v

arm_effect-Settles :
    (s : CameraState) (target : ℕ) (initial : Option ℤ) (w : PropValue) (terminal : ℤ) (polls : ℕ)
    → value_to_i64 w ≡ some terminal
    → Begun s target initial
    → Settles (arm_effect s target w polls) target initial terminal polls
unfolding arm_effect
arm_effect-Settles s target initial w terminal zero e b = (w, inserted target w s.props, e)
arm_effect-Settles s target none w terminal (suc n) e b =
    rw (later n) (w, waiting target (record { value = w; remaining = suc n }) s.pending, e)
arm_effect-Settles s target (some v) w terminal (suc n) e b =
    rw (later n) (b, (w, waiting target (record { value = w; remaining = suc n }) s.pending, e))

initial_written :
    (r : Responder) (target : ℕ) (o : Option ℤ)
    → ((v : ℤ) → o ≡ some v → Converts (ptype_of r.properties target) v)
    → (s : CameraState) × (write_initial r target o ≡ some s) × Begun s target o
initial_written r target none h = (r.state, refl, tt)
initial_written r target (some v) h =
    let (w, e, typed, same) = h v refl in
    (
      record r.state { props = insert target w r.state.props },
      rw (write_initial, e) refl,
      (w, inserted target w r.state.props, same),
    )

-- A convertible transition is applied: the initial value at once, the terminal one as an effect.
pub transition_applies :
    (r : Responder) (t : PreparedPropertyTransition)
    → IsConvertible r.properties t
    → (next : Responder) × (apply_responder_mutation r
          (PreparedResponderMutation.property_transition t)
        ≡ some (ok next))
      × Settles next.state t.target t.initial t.terminal t.settle_after_polls
      × (next.queue ≡ r.queue)
unfolding apply_responder_mutation apply_transition
transition_applies r t h =
    let (s, a, begun) = initial_written r t.target t.initial h.initial in
    let (w, e, typed, same) = h.terminal in
    (
      record r { state = arm_effect s t.target w t.settle_after_polls },
      ap
            (λ o. returned (
              arm_terminal r t.target t.settle_after_polls o
                (property_transition_value (ptype_of r.properties t.target) t.terminal)))
            a
          ∙ ap (λ o. returned (arm_terminal r t.target t.settle_after_polls (some s) o)) e,
      arm_effect-Settles s t.target t.initial w t.terminal t.settle_after_polls same begun,
      refl,
    )
