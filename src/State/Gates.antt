-- ===== src/State/Gates.antt =====
-- crates/camera-sim/src/state.rs: the ordered preconditions of a session, and what the calls keep of the state.
use Prim.Native.String.{String}
use text.Mathlib.Text.{◌==◌ as str_eq}
use ptpsim.Prelude.{
  ℕ, ◌≡◌, Bool, false, ◌==◌, ◌&&◌, not, if◌then◌else◌, arith, lookup-insert, lookup-remove,
  lookup-retain_keys, nat_key, string_key, pair_key,
}
use ptpsim.State.Types.{CameraState, gate_satisfied, clear_gate, gate_progress, set_gate_progress}

abbrev pub same_gate : String → ℕ → String → ℕ → Bool
same_gate a i b j = str_eq a b && (i == j)

-- Writing the progress of one sequence, zero included, is read back there, and the progress of any other
-- gate or sequence stays.
pub gate_progress-set_gate_progress :
    (s : CameraState) (name other : String) (sequence i progress : ℕ)
    → gate_progress (set_gate_progress s name sequence progress) other i
      ≡ (if same_gate other i name sequence then progress else gate_progress s other i)
unfolding gate_progress set_gate_progress
gate_progress-set_gate_progress s name other sequence i progress = ground (
  arith,
  lookup-insert (other, i) (name, sequence) progress s.gate_progress,
  lookup-remove (other, i) (name, sequence) s.gate_progress,
)

-- Clearing a gate makes it unsatisfied, with no progress in any of its sequences, and leaves whether any other
-- gate is satisfied and how far it is.
pub clear_gate_lem :
    (s : CameraState) (name other : String) (i : ℕ)
    → (gate_satisfied (clear_gate s name) other
        ≡ (if str_eq other name then false else gate_satisfied s other))
      × (gate_progress (clear_gate s name) other i
          ≡ (if str_eq other name then 0 else gate_progress s other i))
unfolding gate_satisfied clear_gate gate_progress
clear_gate_lem s name other i = (
  ground (arith, lookup-remove other name s.satisfied_gates),
  ground (arith, lookup-retain_keys (other, i) (λ key. not (str_eq key.0 name)) s.gate_progress),
)
