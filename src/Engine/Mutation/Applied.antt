-- ===== src/Engine/Mutation/Applied.antt =====
-- crates/camera-sim/src/engine.rs: a mutation that was prepared is applied without a panic.
use ptpsim.Prelude.{◌+◌, ◌^◌, ◌≡◌, Option, none, some, ok, nat_key, string_key}
use ptpsim.Wire.Bytes.{ℤ, IsSigned}
use ptpsim.Manifest.Property.{Property}
use ptpsim.Engine.Transfer.{TransferQueue}
use ptpsim.Engine.Transfer.Conserved.{IsConserved}
use ptpsim.Engine.Mutation.{
  ResponderMutation, fixed, parameter, PropertyTransitionTerminal, PreparedResponderMutation,
  Responder, apply_responder_mutation,
}
use ptpsim.Engine.Mutation.Settled.{Settles}

-- The numbers of a mutation are `i64`s.
abbrev pub IsTerminal : PropertyTransitionTerminal → Type 0
IsTerminal (fixed value) = IsSigned (2 ^ 63) value
IsTerminal (parameter name) = Unit

abbrev pub IsInitial : Option ℤ → Type 0
IsInitial none = Unit
IsInitial (some v) = IsSigned (2 ^ 63) v

abbrev pub IsMutation : ResponderMutation → Type 0
IsMutation (ResponderMutation.enqueue_objects count_param) = Unit
IsMutation (ResponderMutation.property_transition target initial terminal polls) =
    IsInitial initial × IsTerminal terminal

-- What the queue must be when the mutation is applied. An enqueue wants the queue on which it was
-- prepared, with each object where it belongs; a transition wants nothing.
abbrev pub IsReady : ResponderMutation → (before now : Option TransferQueue) → Type 0
IsReady (ResponderMutation.enqueue_objects count_param) before now =
    (q : TransferQueue) × (before ≡ some q) × (now ≡ some q) × IsConserved q
IsReady (ResponderMutation.property_transition target initial terminal polls) before now = Unit

-- What a mutation has done.
abbrev pub Applied : Responder → PreparedResponderMutation → Responder → Type 0
Applied r (PreparedResponderMutation.enqueue_objects count affected) next =
    (q : TransferQueue) × (t : TransferQueue) × (r.queue ≡ some q)
    × (next.queue ≡ some t)
    × (t.next_index ≡ q.next_index + affected)
Applied r (PreparedResponderMutation.property_transition t) next =
    Settles next.state t.target t.initial t.terminal t.settle_after_polls × (next.queue ≡ r.queue)

Applies : Responder → PreparedResponderMutation → Type 0
Applies r p =
    (next : Responder) × (apply_responder_mutation r p ≡ some (ok next)) × Applied r p next
