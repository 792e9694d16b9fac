-- ===== src/Engine/Gates.antt =====
-- crates/camera-sim/src/engine.rs: the steps that the gates and the shutter sequence wait for.
use ptpsim.Prelude.{
  ℕ, ◌+◌, ◌-◌, ◌%◌, ◌^◌, List, [], ◌∷◌, Option, none, some, Result, ok, err, Bool, true, false,
  ◌&&◌, ◌||◌, not, ltb, leb, ◌==◌, if◌then◌else◌, length, lookup, nat_key,
}
use Prim.Native.String.{String}
use ptpsim.Wire.Bytes.{ℤ, pos, negsuc, to_signed}
use ptpsim.Wire.Reader.{Reader}
use ptpsim.Dataset.Prop.{PropValue, read_value}
use ptpsim.Packet.Types.{OperationRequest}
use ptpsim.Manifest.Property.{Properties, property}
use ptpsim.State.Types.{
  CameraState, gate_satisfied, gate_progress, set_gate_progress, satisfy_gate, clear_gate,
}
use ptpsim.State.Typed.{datatype_of}
use ptpsim.Engine.Receive.{get}
use ptpsim.Engine.Receive.Tokens.{ptype_of}
pub mod Rounds
pub mod Earned
pub mod History

pub data GateMatcher : Type 0 where
  set_prop : (prop : ℕ) (value : Option ℤ) → GateMatcher
  get_prop : (prop : ℕ) → GateMatcher
  send_op : (op : ℕ) (params : List ℕ) → GateMatcher
  successful_operation : (op : ℕ) → GateMatcher

pub record GateSequence : Type 0 where
  pub name : String
  pub steps : List GateMatcher

unfoldable pub value_to_i64 : PropValue → Option ℤ
value_to_i64 (PropValue.i8 x) = some x
value_to_i64 (PropValue.u8 x) = some (pos x)
value_to_i64 (PropValue.i16 x) = some x
value_to_i64 (PropValue.u16 x) = some (pos x)
value_to_i64 (PropValue.i32 x) = some x
value_to_i64 (PropValue.u32 x) = some (pos x)
value_to_i64 (PropValue.i64 x) = some x
value_to_i64 (PropValue.u64 x) = some (to_signed (2 ^ 63) x)
value_to_i64 (PropValue.str s) = none

abbrev pub eq_i64 : ℤ → ℤ → Bool
eq_i64 (pos m) (pos n) = m == n
eq_i64 (negsuc m) (negsuc n) = m == n
eq_i64 (pos m) (negsuc n) = false
eq_i64 (negsuc m) (pos n) = false

abbrev pub eq_list : List ℕ → List ℕ → Bool
eq_list [] [] = true
eq_list (x ∷ xs) (y ∷ ys) = (x == y) && eq_list xs ys
eq_list [] (y ∷ ys) = false
eq_list (x ∷ xs) [] = false

-- `params.first() == Some(&prop)`.
abbrev pub first_is : List ℕ → ℕ → Bool
first_is [] prop = false
first_is (p ∷ ps) prop = p == prop

-- The bytes decode at the datatype to a number that is the expected one.
unfoldable pub decodes_to : ℕ → List ℕ → ℤ → Bool
decodes_to datatype bytes expected = elim (read_value datatype (record { buf = bytes; pos = 0 })) [
  | err e ↦ false
  | ok (v, r) ↦ elim (value_to_i64 v) [ none ↦ false | some x ↦ eq_i64 x expected ]
]

-- The data of a write against the matcher's value.
abbrev pub data_matches : Properties → ℕ → Option ℤ → Option (List ℕ) → Bool
data_matches m prop value none = false
data_matches m prop none (some bytes) = true
data_matches m prop (some expected) (some bytes) =
    decodes_to (datatype_of (ptype_of m prop)) bytes expected

unfoldable pub gate_match_for_manifest :
    Properties → GateMatcher → OperationRequest → Option (List ℕ) → Bool
gate_match_for_manifest m (get_prop prop) req data_in =
    (req.code == 0x1015) && first_is req.params prop
gate_match_for_manifest m (set_prop prop value) req data_in =
    (req.code == 0x1016) && (first_is req.params prop && data_matches m prop value data_in)
gate_match_for_manifest m (send_op op params) req data_in =
    (req.code == op) && eq_list req.params params
gate_match_for_manifest m (successful_operation op) req data_in = req.code == op

-- A request, as the matchers that it fits.
abbrev pub Hits : Type 0
Hits = GateMatcher → Bool

abbrev pub hits_of : Properties → OperationRequest → Option (List ℕ) → Hits
hits_of m req data_in matcher = gate_match_for_manifest m matcher req data_in

-- `get(index).is_some_and`.
abbrev pub hits_at : Hits → List GateMatcher → ℕ → Bool
hits_at hits steps i = elim (get steps i) [ none ↦ false | some matcher ↦ hits matcher ]

unfoldable pub advance_gate_progress : CameraState → GateSequence → ℕ → ℕ → CameraState
advance_gate_progress s sequence index progress =
    if leb (length sequence.steps) progress
    then set_gate_progress (satisfy_gate s sequence.name) sequence.name index 0
    else set_gate_progress s sequence.name index progress

-- Behind the first `if` of the loop's body.
unfoldable pub start_sequence : Hits → CameraState → GateSequence → ℕ → CameraState
unfolding advance_gate_progress
start_sequence hits s sequence index =
    if hits_at hits sequence.steps 0
    then advance_gate_progress (clear_gate s sequence.name) sequence index 1
    else s

-- The loop's body.
unfoldable pub advance_sequence : Hits → CameraState → GateSequence → ℕ → CameraState
unfolding start_sequence advance_gate_progress
advance_sequence hits s sequence index =
    let progress = gate_progress s sequence.name index in
    if gate_satisfied s sequence.name
    then s
    else if ltb 0 progress
    then (if hits_at hits sequence.steps progress
        then advance_gate_progress s sequence index (progress + 1)
        else start_sequence hits (set_gate_progress s sequence.name index 0) sequence index)
    else start_sequence hits s sequence index

unfoldable pub advance_from : Hits → CameraState → ℕ → List GateSequence → CameraState
unfolding advance_sequence
advance_from hits s index [] = s
advance_from hits s index (sequence ∷ rest) =
    advance_from hits (advance_sequence hits s sequence index) (index + 1) rest

unfoldable pub advance_sequence_gates :
    Properties → List GateSequence → CameraState → OperationRequest → Option (List ℕ) → CameraState
unfolding advance_from
advance_sequence_gates m sequences s req data_in =
    advance_from (hits_of m req data_in) s 0 sequences
