-- ===== src/Fault/Types.antt =====
-- crates/camera-sim/src/fault.rs: rules, mutations and wire plans. `WireFraming` is that of
-- crates/camera-config/src/model.rs. A kind's name is a constructor in place of a string, and the
-- reason why a mutation is refused is one in place of the formatted message.
use Prim.Native.String.{String}
use ptpsim.Wire.Bytes.{ℤ}
use ptpsim.Prelude.{
  ℕ, ◌+◌, ◌-◌, ◌^◌, List, Option, none, some, Result, ok, err, Bool, true, false, length, ltb, leb,
  if◌then◌else◌, min,
}

abbrev pub max_delay_ms : ℕ
max_delay_ms = 60000

abbrev pub max_replacement_bytes : ℕ
max_replacement_bytes = 4096

pub data WireFraming : Type 0 where
  standard compressed usb : WireFraming

pub record FaultSelector : Type 0 where
  pub operation : ℕ
  pub params : Option (List ℕ)
  pub skip : ℕ
  pub count : Option ℕ

pub data FaultStage : Type 0 where
  at_command at_data at_response : FaultStage

pub data DataOrResponse : Type 0 where
  of_data of_response : DataOrResponse

pub data FaultMutation : Type 0 where
  fail_response : (response : ℕ) → FaultMutation
  close : (stage : FaultStage) → FaultMutation
  delay : (stage : DataOrResponse) (ms : ℕ) → FaultMutation
  suppress : (stage : DataOrResponse) → FaultMutation
  truncate_data : (keep : ℕ) → FaultMutation
  replace_data : (bytes : List ℕ) → FaultMutation
  replace_transaction_id : (transaction_id : ℕ) → FaultMutation
  data_framing : (framing : WireFraming) → FaultMutation
  property_readback : (value : ℤ) → FaultMutation

abbrev pub kind : FaultMutation → String
kind (fail_response response) = "failResponse"
kind (close stage) = "close"
kind (delay stage ms) = "delay"
kind (suppress stage) = "suppress"
kind (truncate_data keep) = "truncateData"
kind (replace_data bytes) = "replaceData"
kind (replace_transaction_id transaction_id) = "replaceTransactionId"
kind (data_framing framing) = "dataFraming"
kind (property_readback value) = "propertyReadback"

pub data Refusal : Type 0 where
  delay_too_long : (ms : ℕ) → Refusal
  replacement_too_long : (bytes : ℕ) → Refusal

unfoldable pub validate : FaultMutation → Result Refusal (Unit {0})
validate (delay stage ms) = if ltb max_delay_ms ms then err (delay_too_long ms) else ok tt
validate (replace_data bytes) =
    if ltb max_replacement_bytes (length bytes)
    then err (replacement_too_long (length bytes))
    else ok tt
validate (fail_response response) = ok tt
validate (close stage) = ok tt
validate (suppress stage) = ok tt
validate (truncate_data keep) = ok tt
validate (replace_transaction_id transaction_id) = ok tt
validate (data_framing framing) = ok tt
validate (property_readback value) = ok tt

pub record FaultSpec : Type 0 where
  pub selector : FaultSelector
  pub mutation : FaultMutation

pub record FaultRule : Type 0 where
  pub id : ℕ
  pub selector : FaultSelector
  pub mutation : FaultMutation
  pub seen : ℕ
  pub applied : ℕ

pub record FaultView : Type 0 where
  pub id : ℕ
  pub selector : FaultSelector
  pub mutation : FaultMutation
  pub seen : ℕ
  pub applied : ℕ
  pub exhausted : Bool

pub record FaultApplication : Type 0 where
  pub id : ℕ
  pub operation : ℕ
  pub params : List ℕ
  pub kind : String

pub data WirePlan : Type 0 where
  no_plan close_before_data close_before_response suppress_data suppress_response : WirePlan
  delay_data : (ms : ℕ) → WirePlan
  delay_response : (ms : ℕ) → WirePlan
  plan_transaction_id : (transaction_id : ℕ) → WirePlan
  plan_framing : (framing : WireFraming) → WirePlan

pub record AppliedFault : Type 0 where
  pub id : ℕ
  pub kind : String
  pub wire : WirePlan

abbrev pub wire_plan : FaultMutation → WirePlan
wire_plan (close at_data) = close_before_data
wire_plan (close at_response) = close_before_response
wire_plan (close at_command) = no_plan
wire_plan (delay of_data ms) = delay_data ms
wire_plan (delay of_response ms) = delay_response ms
wire_plan (suppress of_data) = suppress_data
wire_plan (suppress of_response) = suppress_response
wire_plan (replace_transaction_id transaction_id) = plan_transaction_id transaction_id
wire_plan (data_framing framing) = plan_framing framing
wire_plan (fail_response response) = no_plan
wire_plan (truncate_data keep) = no_plan
wire_plan (replace_data bytes) = no_plan
wire_plan (property_readback value) = no_plan

-- `u32` saturates.
abbrev pub saturating_add : (width m n : ℕ) → ℕ
saturating_add width m n = min (m + n) (2 ^ width - 1)

-- Armed after `skip` matching occurrences, for `count` of them, or for ever.
unfoldable pub armed : FaultSelector → (seen_before : ℕ) → Bool
armed selector seen_before =
    if ltb seen_before selector.skip
    then false
    else below selector.count (seen_before - selector.skip)
  where
    below : Option ℕ → ℕ → Bool
    below none n = true
    below (some count) n = ltb n count

unfoldable pub exhausted : FaultSelector → (seen : ℕ) → Bool
exhausted selector seen = past selector.count
  where
    past : Option ℕ → Bool
    past none = false
    past (some count) = leb (saturating_add 32 selector.skip count) seen
