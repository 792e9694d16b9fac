-- ===== src/State/Invariant.antt =====
-- crates/camera-sim/src/state.rs: what the methods keep true of the state.
use Prim.Native.String.{String}
use text.Mathlib.Text.{◌==◌ as str_eq}
use ptpsim.Prelude.{
  ℕ, ◌<◌, ◌≡◌, refl, ap, ◌∙◌, sym, List, [], ◌∷◌, Option, none, some, not, arith, lookup,
  lookup-insert, lookup-nil, lookup-remove, lookup-retain_keys, nat_key, string_key, pair_key,
}
use ptpsim.Dataset.Prop.{PropValue}
use ptpsim.State.Types.{
  CameraState, PendingTransition, initial, arm_effect, resolve_pending, advance,
  push_event_with_params, take_event, drain_events, satisfy_gate, clear_gate, reset_gates,
  set_gate_progress,
}
use ptpsim.State.Calls.{
  Call, arming, resolving, pushing, taking, draining, satisfying, clearing, resetting, setting, run,
  run_call, cell_call, call-cell,
}

-- An effect that waits has polls left to wait for, and progress that is stored is not zero.
pub record IsValid (s : CameraState) : Type 0 where
  pub waits : (code : ℕ) (p : PendingTransition) → lookup code s.pending ≡ some p → 0 < p.remaining
  pub advances : (name : String) (i n : ℕ) → lookup (name, i) s.gate_progress ≡ some n → 0 < n

cell_call-waits :
    (code : ℕ) (value : Option PropValue) (o : Option PendingTransition) (c : Call)
    (p : PendingTransition)
    → ((q : PendingTransition) → o ≡ some q → 0 < q.remaining)
    → (cell_call code (value, o) c).1 ≡ some p
    → 0 < p.remaining
cell_call-waits code value o (arming k v n) p h e = ground (arith, h p)
cell_call-waits code value none (resolving k) p h e = ground (arith, h p)
cell_call-waits code value (some q) (resolving k) p h e = ground (arith, h q refl)
cell_call-waits code value o (pushing k params) p h e = h p e
cell_call-waits code value o (taking k) p h e = h p e
cell_call-waits code value o draining p h e = h p e
cell_call-waits code value o (satisfying name) p h e = h p e
cell_call-waits code value o (clearing name) p h e = h p e
cell_call-waits code value o resetting p h e = h p e
cell_call-waits code value o (setting name sequence progress) p h e = h p e

call-advances :
    (s : CameraState) (c : Call) (name : String) (i n : ℕ)
    → ((m : ℕ) → lookup (name, i) s.gate_progress ≡ some m → 0 < m)
    → lookup (name, i) (run_call s c).gate_progress ≡ some n
    → 0 < n
unfolding run_call arm_effect resolve_pending push_event_with_params take_event drain_events
    satisfy_gate clear_gate reset_gates set_gate_progress advance
call-advances s (arming k v m) name i n h e = ground (arith, h n)
call-advances s (resolving k) name i n h e = ground (arith, h n)
call-advances s (pushing k params) name i n h e = h n e
call-advances s (taking k) name i n h e = ground (arith, h n)
call-advances s draining name i n h e = h n e
call-advances s (satisfying g) name i n h e = h n e
call-advances s (clearing g) name i n h e =
    ground (arith, h n, lookup-retain_keys (name, i) (λ key. not (str_eq key.0 g)) s.gate_progress)
call-advances s resetting name i n h e =
    ground (arith, lookup-nil {K = String × ℕ} {V = ℕ} (name, i))
call-advances s (setting g j m) name i n h e = ground (
  arith,
  h n,
  lookup-insert (name, i) (g, j) m s.gate_progress,
  lookup-remove (name, i) (g, j) s.gate_progress,
)

run_call-IsValid : (s : CameraState) (c : Call) → IsValid s → IsValid (run_call s c)
run_call-IsValid s c h = record {
  waits = λ code p e.
      cell_call-waits code (lookup code s.props) (lookup code s.pending) c p (h.waits code)
        (sym (ap (λ x. x.1) (call-cell code s c)) ∙ e);
  advances = λ name i n e. call-advances s c name i n (h.advances name i) e;
}

-- From a new state with any property values, whatever methods are called: an effect that waits has at least
-- one poll left to wait for, so that it becomes visible, and no progress of zero is stored for a gate.
pub run-IsValid :
    (props : List (ℕ × PropValue)) (calls : List Call) → IsValid (run (initial props) calls)
unfolding run
run-IsValid props calls = keeps (initial props) calls (fresh)
  where
    fresh : IsValid (initial props)
    fresh = record {
      waits = λ code p e. ground (arith, e, lookup-nil {V = PendingTransition} code);
      advances = λ name i n e. ground (arith, e, lookup-nil {K = String × ℕ} {V = ℕ} (name, i));
    }

    keeps : (s : CameraState) (cs : List Call) → IsValid s → IsValid (run s cs)
    keeps s [] h = h
    keeps s (c ∷ cs) h = keeps (run_call s c) cs (run_call-IsValid s c h)
