-- ===== src/State/Types.antt =====
-- crates/camera-sim/src/state.rs: `Phase`, `CameraState` and the calls that change it. `active_mode`
-- and the names of gates are opaque texts.
use Prim.Native.String.{String}
use text.Mathlib.Text.{◌==◌ as str_eq}
use ptpsim.Prelude.{
  ℕ, ◌-◌, List, [], ◌∷◌, ◌++◌, Option, none, some, Bool, true, false, not, ◌||◌, ◌==◌,
  if◌then◌else◌, lookup, insert, remove, retain_keys, nat_key, string_key, pair_key,
}
use ptpsim.Dataset.Prop.{PropValue}

pub data Phase : Type 0 where
  disconnected session_open image_import queued_receive live_view streaming closed : Phase

abbrev pub state_name : Phase → String
state_name disconnected = "disconnected"
state_name session_open = "sessionOpen"
state_name image_import = "imageImport"
state_name queued_receive = "queuedReceive"
state_name live_view = "liveView"
state_name streaming = "streaming"
state_name closed = "closed"

-- An arm of the `match` with three spellings.
abbrev pub one_of : String → String → String → String → Bool
one_of name a b c = str_eq name a || (str_eq name b || str_eq name c)

unfoldable pub from_state_name : String → Option Phase
from_state_name name =
    if str_eq name "disconnected"
    then some disconnected
    else if one_of name "sessionOpen" "session_open" "session-open"
    then some session_open
    else if one_of name "imageImport" "image_import" "image-import"
    then some image_import
    else if one_of name "queuedReceive" "queued_receive" "queued-receive"
    then some queued_receive
    else if one_of name "liveView" "live_view" "live-view"
    then some live_view
    else if str_eq name "streaming"
    then some streaming
    else if str_eq name "closed"
    then some closed
    else none

pub record QueuedEvent : Type 0 where
  pub code : ℕ
  pub params : List ℕ

pub record PendingTransition : Type 0 where
  pub value : PropValue
  pub remaining : ℕ

pub record CameraState : Type 0 where
  pub session_open : Bool
  pub phase : Phase
  pub active_mode : Option String
  pub props : List (ℕ × PropValue)
  pub pending : List (ℕ × PendingTransition)
  pub events : List QueuedEvent
  pub satisfied_gates : List (String × Unit {0})
  pub gate_progress : List ((String × ℕ) × ℕ)

-- The state that `from_manifest` builds on its property values.
abbrev pub initial : List (ℕ × PropValue) → CameraState
initial props = record {
  session_open = false;
  phase = disconnected;
  active_mode = none;
  props = props;
  pending = [];
  events = [];
  satisfied_gates = [];
  gate_progress = [];
}

unfoldable pub arm_effect : CameraState → ℕ → PropValue → ℕ → CameraState
arm_effect s code value settle_after_polls =
    if settle_after_polls == 0
    then record s { props = insert code value s.props; pending = remove code s.pending }
    else record s {
      pending = insert code (record { value = value; remaining = settle_after_polls }) s.pending;
    }

-- The `if let` of `resolve_pending` on the entry that was found.
unfoldable pub advance : CameraState → ℕ → Option PendingTransition → CameraState
advance s code none = s
advance s code (some p) =
    if (p.remaining - 1) == 0
    then record s { props = insert code p.value s.props; pending = remove code s.pending }
    else record s {
      pending = insert code (record { value = p.value; remaining = p.remaining - 1 }) s.pending;
    }

unfoldable pub resolve_pending : CameraState → ℕ → CameraState
unfolding advance
resolve_pending s code = advance s code (lookup code s.pending)

unfoldable pub push_event_with_params : CameraState → ℕ → List ℕ → CameraState
push_event_with_params s code params = record s {
  events = s.events ++ (record { code = code; params = params } ∷ []);
}

unfoldable pub push_event : CameraState → ℕ → CameraState
unfolding push_event_with_params
push_event s code = push_event_with_params s code []

-- `iter().position` of a code and the `remove` at it: `none` when the code is not queued.
unfoldable pub remove_first : ℕ → List QueuedEvent → Option (List QueuedEvent)
remove_first code [] = none
remove_first code (e ∷ es) =
    let rest = remove_first code es in
    if e.code == code then some es else elim rest [ none ↦ none | some r ↦ some (e ∷ r) ]

unfoldable pub take_event : CameraState → ℕ → CameraState × Bool
take_event s code = elim (remove_first code s.events) [
  | none ↦ (s, false)
  | some es ↦ (record s { events = es }, true)
]

unfoldable pub drain_events : CameraState → CameraState × List QueuedEvent
drain_events s = (record s { events = [] }, s.events)

unfoldable pub gate_satisfied : CameraState → String → Bool
gate_satisfied s name = elim (lookup name s.satisfied_gates) [ none ↦ false | some _ ↦ true ]

unfoldable pub satisfy_gate : CameraState → String → CameraState
satisfy_gate s name = record s { satisfied_gates = insert name tt s.satisfied_gates }

unfoldable pub clear_gate : CameraState → String → CameraState
clear_gate s name = record s {
  satisfied_gates = remove name s.satisfied_gates;
  gate_progress = retain_keys (λ key. not (str_eq key.0 name)) s.gate_progress;
}

unfoldable pub reset_gates : CameraState → CameraState
reset_gates s = record s { satisfied_gates = []; gate_progress = [] }

unfoldable pub gate_progress : CameraState → String → ℕ → ℕ
gate_progress s name sequence = elim (lookup (name, sequence) s.gate_progress) [
  | none ↦ 0
  | some progress ↦ progress
]

unfoldable pub set_gate_progress : CameraState → String → ℕ → ℕ → CameraState
set_gate_progress s name sequence progress =
    if progress == 0
    then record s { gate_progress = remove (name, sequence) s.gate_progress }
    else record s { gate_progress = insert (name, sequence) progress s.gate_progress }

unfoldable pub mode_key : CameraState → String
mode_key s = elim s.phase [
  | live_view ↦ "liveView"
  | streaming ↦ "liveView"
  | image_import ↦ "imageImport"
  | _ ↦ ""
]

unfoldable pub manifest_mode_path : CameraState → String
manifest_mode_path s = elim s.active_mode [
  | some mode ↦ mode
  | none ↦ elim s.phase [
    | session_open ↦ "shooting/stills"
    | live_view ↦ "shooting/stills"
    | streaming ↦ "shooting/stills"
    | image_import ↦ "image-transfer"
    | _ ↦ ""
  ]
]
