-- ===== src/Tests/Engines.antt =====
-- crates/camera-sim/src/engine.rs at concrete requests.
use ptpsim.Prelude.{
  ℕ, ◌+◌, ◌%◌, ◌^◌, ◌<◌, if◌then◌else◌, ◌≡◌, ◌↔◌, refl, List, [], ◌∷◌, ◌++◌, none, some, true,
  false, arith, lookup, insert, remove, retain_keys, nat_key,
}
use ptpsim.Wire.Bytes.{pos}
use ptpsim.Packet.Types.{OperationRequest}
use ptpsim.State.Types.{CameraState, initial, gate_satisfied, gate_progress}
use ptpsim.State.Typed.{datatype_of, typed}
use ptpsim.Engine.Receive.{CameraInitiatedQueue, new, head_handle, remaining}
use ptpsim.Engine.Receive.Runs.{acknowledge_all, acknowledged, acknowledge_all-completes}
use ptpsim.Engine.Receive.Tokens.{StreamCompletion, complete_stream, ptype_of, count_of, count_code}
use ptpsim.Engine.Receive.Once.{receiver, next, complete_stream-once}
use ptpsim.Engine.Gates.{
  GateMatcher, get_prop, send_op, successful_operation, GateSequence, Hits, hits_of, advance_from,
}
use ptpsim.Engine.Gates.History.{after, IsReset, Completed, gate_satisfied-Completed}

abbrev two_objects : CameraInitiatedQueue
two_objects = new (7 ∷ 8 ∷ [])

-- Ten bytes, the last four first.
acknowledge_all-completes_example :
    let r = acknowledge_all two_objects ((6, 4) ∷ (0, 6) ∷ []) 10 in
    ((r.1 ≡ true) ↔ ((x : ℕ) → x < 10 → acknowledged ((6, 4) ∷ (0, 6) ∷ []) 10 x ≡ true))
    × (r.0.head ≡ (if r.1 then 0 + 1 else 0))
    × (r.0.generation ≡ (if r.1 then (0 + 1) % 2 ^ 64 else 0))
    × (r.0.handles ≡ 7 ∷ 8 ∷ [])
acknowledge_all-completes_example =
    acknowledge_all-completes (7 ∷ 8 ∷ []) 0 0 6 4 ((0, 6) ∷ []) 10 (omega arith)

abbrev whole : StreamCompletion
whole = record { generation = 0; handle = 7; offset = 0; len = 10; object_size = 10 }

abbrev blank : CameraState
blank = initial []

complete_stream-once_example :
    (two_objects.generation ≡ whole.generation)
    × (head_handle two_objects ≡ some 7)
    × ((complete_stream (receiver [] none two_objects blank) whole).0.queue
        ≡ some (next two_objects))
    × (remaining (next two_objects) + 1 ≡ remaining two_objects)
    × ((code : ℕ)
        → count_code (receiver [] none two_objects blank) ≡ some code
        → lookup code (complete_stream (receiver [] none two_objects blank) whole).0.state.props
          ≡ some (typed (datatype_of (ptype_of [] code)) (pos (count_of (next two_objects)))))
    × (complete_stream (complete_stream (receiver [] none two_objects blank) whole).0 whole
        ≡ ((complete_stream (receiver [] none two_objects blank) whole).0, false))
unfolding complete_stream head_handle ptpsim.Engine.Receive.acknowledge
complete_stream-once_example =
    complete_stream-once [] none two_objects blank whole (omega arith) refl

-- A gate of two steps.
abbrev bootstrap : GateSequence
bootstrap = record {
  name = "bootstrap";
  steps = get_prop 0xd21c ∷ successful_operation 0x1002 ∷ [];
}

abbrev reading : OperationRequest
reading = record { data_phase_info = 1; code = 0x1015; transaction_id = 1; params = 0xd21c ∷ [] }

abbrev opening_session : OperationRequest
opening_session = record { data_phase_info = 1; code = 0x1002; transaction_id = 2; params = 1 ∷ [] }

-- The newest first.
abbrev requests : List Hits
requests = hits_of [] opening_session none ∷ hits_of [] reading none ∷ []

blank-IsReset : IsReset blank
unfolding gate_satisfied gate_progress lookup
blank-IsReset = record { unsatisfied = λ name. refl; unbegun = λ name i. refl }

gate_satisfied-Completed_example :
    (newer : List Hits) × (older : List Hits) × (requests ≡ newer ++ older)
    × Completed "bootstrap" (bootstrap ∷ []) older
unfolding gate_satisfied lookup after advance_from gate_progress
    ptpsim.Engine.Gates.gate_match_for_manifest ptpsim.State.Types.set_gate_progress
    ptpsim.State.Types.clear_gate remove insert retain_keys ptpsim.State.Types.satisfy_gate
gate_satisfied-Completed_example =
    gate_satisfied-Completed (bootstrap ∷ []) blank requests "bootstrap" blank-IsReset refl

-- Two sequences of one gate that begin with the same step.
abbrev direct : GateSequence
direct = record { name = "bootstrap"; steps = get_prop 0xd21c ∷ successful_operation 0x1003 ∷ [] }

-- The first of the two is forgotten when the second begins with the same request, so that its steps do not satisfy the gate.
shared_start_forgets :
    gate_satisfied (after (bootstrap ∷ direct ∷ []) blank requests) "bootstrap" ≡ false
unfolding gate_satisfied lookup after advance_from gate_progress
    ptpsim.Engine.Gates.gate_match_for_manifest ptpsim.State.Types.set_gate_progress
    ptpsim.State.Types.clear_gate remove insert retain_keys
shared_start_forgets = refl
