-- ===== src/Engine/Mutation.antt =====
-- crates/camera-sim/src/engine.rs: the mutations that a responder prepares and then applies.
use Prim.Native.String.{String}
use text.Mathlib.Text.{◌==◌ as str_eq}
use ptpsim.Prelude.{
  ℕ, ◌+◌, ◌-◌, ◌^◌, ◌≤◌, ◌<◌, List, [], ◌∷◌, Option, none, some, Result, ok, err, Bool, true, false,
  ◌&&◌, ◌||◌, not, ltb, leb, ◌==◌, if◌then◌else◌, lookup, insert, nat_key, string_key, length,
}
use ptpsim.Wire.Bytes.{ℤ, pos, negsuc}
use ptpsim.Wire.Utf16.{Text}
use ptpsim.Dataset.Prop.{PropValue}
use ptpsim.Manifest.HexCode.{parse_hex_code}
use ptpsim.Manifest.Property.{Property, Properties, property}
use ptpsim.State.Types.{CameraState, arm_effect}
use ptpsim.Engine.Receive.Tokens.{ptype_of}
use ptpsim.Engine.Transfer.{TransferQueue, enqueue_count, pending_enqueue, announce_added}
pub mod Prepared
pub mod Settled
pub mod Applied

-- `try_from` of an `i64` succeeds.
abbrev pub unsigned_fits : ℕ → ℤ → Bool
unsigned_fits bits (pos v) = ltb v (2 ^ bits)
unsigned_fits bits (negsuc v) = false

abbrev pub signed_fits : ℕ → ℤ → Bool
signed_fits bits (pos v) = ltb v (2 ^ (bits - 1))
signed_fits bits (negsuc v) = ltb v (2 ^ (bits - 1))

-- `value >= 0`.
abbrev pub is_nonnegative : ℤ → Bool
is_nonnegative (pos v) = true
is_nonnegative (negsuc v) = false

unfoldable pub scalar_fits_property : Option String → ℤ → Bool
scalar_fits_property none value = false
scalar_fits_property (some ty) value =
    if str_eq ty "u8"
    then unsigned_fits 8 value
    else if str_eq ty "u16"
    then unsigned_fits 16 value
    else if str_eq ty "u32"
    then unsigned_fits 32 value
    else if str_eq ty "u64"
    then is_nonnegative value
    else if str_eq ty "i8"
    then signed_fits 8 value
    else if str_eq ty "i16"
    then signed_fits 16 value
    else if str_eq ty "i32"
    then signed_fits 32 value
    else str_eq ty "i64"

-- `try_from(value).ok()?` into an unsigned type, wrapped.
abbrev pub unsigned_value : ℕ → (ℕ → PropValue) → ℤ → Option PropValue
unsigned_value bits wrap (pos v) = if ltb v (2 ^ bits) then some (wrap v) else none
unsigned_value bits wrap (negsuc v) = none

abbrev pub signed_value : ℕ → (ℤ → PropValue) → ℤ → Option PropValue
signed_value bits wrap value = if signed_fits bits value then some (wrap value) else none

unfoldable pub property_transition_value : Option String → ℤ → Option PropValue
property_transition_value none value = none
property_transition_value (some ty) value =
    if str_eq ty "u8"
    then unsigned_value 8 PropValue.u8 value
    else if str_eq ty "u16"
    then unsigned_value 16 PropValue.u16 value
    else if str_eq ty "u32"
    then unsigned_value 32 PropValue.u32 value
    else if str_eq ty "u64"
    then unsigned_value 64 PropValue.u64 value
    else if str_eq ty "i8"
    then signed_value 8 PropValue.i8 value
    else if str_eq ty "i16"
    then signed_value 16 PropValue.i16 value
    else if str_eq ty "i32"
    then signed_value 32 PropValue.i32 value
    else if str_eq ty "i64"
    then some (PropValue.i64 value)
    else none

pub data ActionArgumentValue : Type 0 where
  u64 : ℕ → ActionArgumentValue
  string : Text → ActionArgumentValue

pub data PropertyTransitionTerminal : Type 0 where
  fixed : (value : ℤ) → PropertyTransitionTerminal
  parameter : (name : String) → PropertyTransitionTerminal

pub data ResponderMutation : Type 0 where
  enqueue_objects : (count_param : String) → ResponderMutation
  property_transition :
      (target : Text) (initial : Option ℤ) (terminal : PropertyTransitionTerminal)
      (settle_after_polls : ℕ)
      → ResponderMutation

pub record PreparedPropertyTransition : Type 0 where
  pub target : ℕ
  pub initial : Option ℤ
  pub terminal : ℤ
  pub settle_after_polls : ℕ

pub data PreparedResponderMutation : Type 0 where
  enqueue_objects : (count affected : ℕ) → PreparedResponderMutation
  property_transition : PreparedPropertyTransition → PreparedResponderMutation

-- A constructor for each message.
pub data MutationError : Type 0 where
  parameter_not_numeric count_exceeds_u32 queue_not_configured invalid_target unknown_target
        not_scalar terminal_not_numeric terminal_exceeds_i64 does_not_fit :
      MutationError

abbrev pub Parameters : Type 0
Parameters = List (String × ActionArgumentValue)

-- `parameters.get(..)` as a `U64`.
abbrev pub numeric : Option ActionArgumentValue → Option ℕ
numeric none = none
numeric (some (ActionArgumentValue.u64 n)) = some n
numeric (some (ActionArgumentValue.string s)) = none

unfoldable pub pending_standard_object_enqueue : Option TransferQueue → ℕ → Result MutationError ℕ
pending_standard_object_enqueue none count = err queue_not_configured
pending_standard_object_enqueue (some q) count = ok (pending_enqueue q count)

unfoldable pub prepare_enqueue :
    Option TransferQueue → Option ℕ → Result MutationError PreparedResponderMutation
unfolding pending_standard_object_enqueue
prepare_enqueue queue none = err parameter_not_numeric
prepare_enqueue queue (some count) =
    if ltb count (2 ^ 32)
    then elim (pending_standard_object_enqueue queue count) [
      | err e ↦ err e
      | ok affected ↦ ok (PreparedResponderMutation.enqueue_objects count affected)
    ]
    else err count_exceeds_u32

-- The `match terminal`.
unfoldable pub resolve_terminal : Parameters → PropertyTransitionTerminal → Result MutationError ℤ
resolve_terminal parameters (fixed value) = ok value
resolve_terminal parameters (parameter name) = elim (numeric (lookup name parameters)) [
  | none ↦ err terminal_not_numeric
  | some n ↦ if ltb n (2 ^ 63) then ok (pos n) else err terminal_exceeds_i64
]

-- `initial.is_some_and(..)`, negated.
abbrev pub initial_fits : Option String → Option ℤ → Bool
initial_fits ty none = true
initial_fits ty (some v) = scalar_fits_property ty v

-- Behind the target's property, with the terminal value.
unfoldable pub prepare_value :
    ℕ
    → Property
    → Option ℤ
    → ℕ
    → Result MutationError ℤ
    → Result MutationError PreparedResponderMutation
unfolding scalar_fits_property
prepare_value code prop initial polls (err e) = err e
prepare_value code prop initial polls (ok terminal) =
    if not (initial_fits prop.ptype initial) || not (scalar_fits_property prop.ptype terminal)
    then err does_not_fit
    else ok (
        PreparedResponderMutation.property_transition (record {
          target = code;
          initial = initial;
          terminal = terminal;
          settle_after_polls = polls;
        }))

-- Behind the target's code.
unfoldable pub prepare_target :
    Option Property
    → Parameters
    → ℕ
    → Option ℤ
    → PropertyTransitionTerminal
    → ℕ
    → Result MutationError PreparedResponderMutation
unfolding prepare_value resolve_terminal
prepare_target none parameters code initial terminal polls = err unknown_target
prepare_target (some prop) parameters code initial terminal polls =
    if prop.payload
    then err not_scalar
    else prepare_value code prop initial polls (resolve_terminal parameters terminal)

unfoldable pub prepare_responder_mutation :
    Properties
    → Option TransferQueue
    → ResponderMutation
    → Parameters
    → Result MutationError PreparedResponderMutation
unfolding prepare_enqueue prepare_target
prepare_responder_mutation m queue (ResponderMutation.enqueue_objects count_param) parameters =
    prepare_enqueue queue (numeric (lookup count_param parameters))
prepare_responder_mutation m queue
      (ResponderMutation.property_transition target initial terminal polls) parameters =
    elim (parse_hex_code target) [
      | none ↦ err invalid_target
      | some code ↦ prepare_target (property m code) parameters code initial terminal polls
    ]

-- The fields of `Engine` that a mutation changes, and what it reads of the manifest.
pub record Responder : Type 0 where
  pub properties : Properties
  pub announces : Bool
  pub queue : Option TransferQueue
  pub state : CameraState

-- The initial value, written at once; `none` is the panic of `expect`.
abbrev pub write_initial : Responder → ℕ → Option ℤ → Option CameraState
write_initial r target none = some r.state
write_initial r target (some v) =
    elim (property_transition_value (ptype_of r.properties target) v) [
      | none ↦ none
      | some w ↦ some (record r.state { props = insert target w r.state.props })
    ]

-- The effect behind the initial value; `none` is a panic of either conversion.
abbrev pub arm_terminal :
    Responder → ℕ → ℕ → Option CameraState → Option PropValue → Option Responder
arm_terminal r target polls none w = none
arm_terminal r target polls (some s) none = none
arm_terminal r target polls (some s) (some w) =
    some (record r { state = arm_effect s target w polls })

unfoldable pub apply_transition : Responder → PreparedPropertyTransition → Option Responder
unfolding property_transition_value
apply_transition r t =
    arm_terminal r t.target t.settle_after_polls (write_initial r t.target t.initial)
      (property_transition_value (ptype_of r.properties t.target) t.terminal)

-- `none` is the panic of the `debug_assert_eq!`, when the queue drifted since the preparation.
unfoldable pub apply_enqueue :
    Responder
    → Option TransferQueue
    → (count affected : ℕ) → Option (Result MutationError Responder)
apply_enqueue r none count affected = some (err queue_not_configured)
apply_enqueue r (some q) count affected =
    let step = enqueue_count q count in
    if step.1 == affected
    then some (
        ok (record r {
          queue = some step.0;
          state = announce_added r.announces r.state step.1 step.0;
        }))
    else none

abbrev pub returned : Option Responder → Option (Result MutationError Responder)
returned none = none
returned (some next) = some (ok next)

-- `none` is a panic, of a debug build.
unfoldable pub apply_responder_mutation :
    Responder → PreparedResponderMutation → Option (Result MutationError Responder)
unfolding apply_enqueue apply_transition
apply_responder_mutation r (PreparedResponderMutation.enqueue_objects count affected) =
    apply_enqueue r r.queue count affected
apply_responder_mutation r (PreparedResponderMutation.property_transition t) =
    returned (apply_transition r t)
