-- ===== src/State/Calls.antt =====
-- crates/camera-sim/src/state.rs: the methods of `CameraState` in any order, and what a deferred effect
-- does under them.
use Prim.Native.String.{String}
use ptpsim.Prelude.{
  ℕ, ◌+◌, ◌-◌, ◌≡◌, ◌≢◌, refl, List, [], ◌∷◌, Option, none, some, ◌==◌, if◌then◌else◌, arith,
  lookup, lookup-insert, lookup-remove, nat_key, ==_iff,
}
use ptpsim.Dataset.Prop.{PropValue}
use ptpsim.State.Types.{
  CameraState, PendingTransition, arm_effect, resolve_pending, advance, push_event_with_params,
  take_event, drain_events, satisfy_gate, clear_gate, reset_gates, set_gate_progress,
}

pub data Call : Type 0 where
  arming : (code : ℕ) (value : PropValue) (settle_after_polls : ℕ) → Call
  resolving : (code : ℕ) → Call
  pushing : (code : ℕ) (params : List ℕ) → Call
  taking : (code : ℕ) → Call
  draining : Call
  satisfying : (name : String) → Call
  clearing : (name : String) → Call
  resetting : Call
  setting : (name : String) (sequence progress : ℕ) → Call

unfoldable pub run_call : CameraState → Call → CameraState
run_call s (arming code value n) = arm_effect s code value n
run_call s (resolving code) = resolve_pending s code
run_call s (pushing code params) = push_event_with_params s code params
run_call s (taking code) = (take_event s code).0
run_call s draining = (drain_events s).0
run_call s (satisfying name) = satisfy_gate s name
run_call s (clearing name) = clear_gate s name
run_call s resetting = reset_gates s
run_call s (setting name sequence progress) = set_gate_progress s name sequence progress

unfoldable pub run : CameraState → List Call → CameraState
run s [] = s
run s (c ∷ cs) = run (run_call s c) cs

abbrev pub is_poll : ℕ → Call → ℕ
is_poll code (resolving k) = if code == k then 1 else 0
is_poll code _ = 0

-- How often the value of `code` is asked for.
abbrev pub polls : ℕ → List Call → ℕ
polls code [] = 0
polls code (c ∷ cs) = is_poll code c + polls code cs

-- The call arms no effect on `code`.
abbrev pub IsUnarmed : ℕ → Call → Type 0
IsUnarmed code (arming k value n) = code ≢ k
IsUnarmed code _ = Unit

-- What the state holds of one property: its value and the effect that waits.
abbrev pub Cell : Type 0
Cell = Option PropValue × Option PendingTransition

abbrev pub cell : ℕ → CameraState → Cell
cell code s = (lookup code s.props, lookup code s.pending)

-- One poll of a property.
abbrev pub polled : Cell → Cell
polled (value, none) = (value, none)
polled (value, some p) =
    if (p.remaining - 1) == 0
    then (some p.value, none)
    else (value, some (record { value = p.value; remaining = p.remaining - 1 }))

-- One call, as the property sees it.
abbrev pub cell_call : ℕ → Cell → Call → Cell
cell_call code c (arming k value n) =
    if code == k
    then (if n == 0
        then (some value, none)
        else (c.0, some (record { value = value; remaining = n })))
    else c
cell_call code c (resolving k) = if code == k then polled c else c
cell_call code c _ = c

abbrev pub cell_run : ℕ → Cell → List Call → Cell
cell_run code c [] = c
cell_run code c (call ∷ calls) = cell_run code (cell_call code c call) calls

advance-cell :
    (code k : ℕ) (s : CameraState) (o : Option PendingTransition)
    → lookup k s.pending ≡ o
    → cell code (advance s k o) ≡ (if code == k then polled (cell code s) else cell code s)
unfolding advance
advance-cell code k s none e = ground (arith, ==_iff code k)
advance-cell code k s (some p) e = ground (
  arith,
  ==_iff code k,
  lookup-insert code k p.value s.props,
  lookup-remove code k s.pending,
  lookup-insert code k (record { value = p.value; remaining = p.remaining - 1 }) s.pending,
)

pub call-cell :
    (code : ℕ) (s : CameraState) (c : Call)
    → cell code (run_call s c) ≡ cell_call code (cell code s) c
unfolding run_call arm_effect resolve_pending push_event_with_params take_event drain_events
    satisfy_gate clear_gate reset_gates set_gate_progress
call-cell code s (arming k value n) = ground (
  arith,
  lookup-insert code k value s.props,
  lookup-remove code k s.pending,
  lookup-insert code k (record { value = value; remaining = n }) s.pending,
)
call-cell code s (resolving k) = advance-cell code k s (lookup k s.pending) refl
call-cell code s (pushing k params) = refl
call-cell code s (taking k) = ground arith
call-cell code s draining = refl
call-cell code s (satisfying name) = refl
call-cell code s (clearing name) = refl
call-cell code s resetting = refl
call-cell code s (setting name sequence progress) = ground arith

-- Whatever methods are called, in whatever order: each property's value and waiting effect are those
-- of a cell of its own, which reads only the effects armed on that property and the polls of it.
pub run-cell :
    (code : ℕ) (s : CameraState) (calls : List Call)
    → cell code (run s calls) ≡ cell_run code (cell code s) calls
unfolding run
run-cell code s [] = refl
run-cell code s (c ∷ cs) = rw (← call-cell code s c) (run-cell code (run_call s c) cs)
