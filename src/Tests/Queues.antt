-- ===== src/Tests/Queues.antt =====
-- crates/camera-sim/src/engine.rs: the transfer queue and the mutations, at concrete objects.
use ptpsim.Prelude.{
  ℕ, ◌+◌, ◌≡◌, refl, [], ◌∷◌, ◌++◌, ◌||◌, none, some, true, false, ok, nat_key, take, drop,
}
use ptpsim.Wire.Bytes.{pos, negsuc}
use ptpsim.Manifest.Property.{Property, Properties}
use ptpsim.State.Types.{CameraState, initial}
use ptpsim.Engine.Gates.{successful_operation}
use ptpsim.Engine.Transfer.{
  TransferQueue, startup_seeded, shutter_seeded, drain, contains, enqueue_count, pending_enqueue,
  complete_shutter,
}
use ptpsim.Engine.Transfer.Conserved.{IsConserved}
use ptpsim.Engine.Transfer.Enqueue.{enqueue_count-pending}
use ptpsim.Engine.Transfer.Once.{
  Operation, enqueuing, draining, operate_all, operate_all-IsConserved, drain-once,
  shutter-IsConserved,
}
use ptpsim.Engine.Transfer.Announced.{announced, complete_shutter-announced}
use ptpsim.Engine.Mutation.{
  ResponderMutation, PreparedResponderMutation, Responder, fixed, prepare_responder_mutation,
  apply_responder_mutation,
}
use ptpsim.Engine.Mutation.Applied.{Applied}

abbrev blank : CameraState
blank = initial []

abbrev shutter_queue : TransferQueue
shutter_queue = shutter_seeded "pcss" (7 ∷ 8 ∷ 9 ∷ []) 2 (successful_operation 0x100e ∷ [])

shutter_queue-IsConserved : IsConserved shutter_queue
unfolding contains
shutter_queue-IsConserved =
    shutter-IsConserved "pcss" (7 ∷ 8 ∷ 9 ∷ []) 2 (successful_operation 0x100e ∷ [])
      (refl, (refl, (refl, tt)))

operate_all-IsConserved_example :
    IsConserved
      (operate_all (startup_seeded "app" (7 ∷ 8 ∷ 9 ∷ [])) (draining 8 ∷ enqueuing 1 ∷ []))
    × IsConserved (
        operate_all
          (shutter_seeded "app" (7 ∷ 8 ∷ 9 ∷ []) 2 (successful_operation 0x100e ∷ []))
          (draining 8 ∷ enqueuing 1 ∷ []))
unfolding contains
operate_all-IsConserved_example =
    operate_all-IsConserved "app" (7 ∷ 8 ∷ 9 ∷ []) 2 (successful_operation 0x100e ∷ [])
      (draining 8 ∷ enqueuing 1 ∷ []) (refl, (refl, (refl, tt)))

abbrev offered : TransferQueue
offered = operate_all shutter_queue (enqueuing 2 ∷ [])

offered-IsConserved : IsConserved offered
unfolding operate_all enqueue_count ptpsim.Engine.Transfer.Once.operate shutter_seeded
offered-IsConserved = (enqueue_count-pending shutter_queue 2 shutter_queue-IsConserved).2

drain-once_example :
    (contains (operate_all (drain offered 8).0 (enqueuing 5 ∷ [])).available 8 ≡ false)
    × ((drain (operate_all (drain offered 8).0 (enqueuing 5 ∷ [])) 8).1 ≡ false)
unfolding drain operate_all ptpsim.Engine.Transfer.Once.operate enqueue_count shutter_seeded
drain-once_example = drain-once offered 8 (enqueuing 5 ∷ []) offered-IsConserved refl

enqueue_count-pending_example :
    ((enqueue_count shutter_queue 5).1 ≡ pending_enqueue shutter_queue 5)
    × ((enqueue_count shutter_queue 5).0.next_index
        ≡ shutter_queue.next_index + pending_enqueue shutter_queue 5)
    × IsConserved (enqueue_count shutter_queue 5).0
    × ((x : ℕ)
        → contains (enqueue_count shutter_queue 5).0.available x ≡ (
            contains shutter_queue.available x
            || contains
                (take
                  (pending_enqueue shutter_queue 5)
                  (drop shutter_queue.next_index shutter_queue.handles))
                x))
enqueue_count-pending_example = enqueue_count-pending shutter_queue 5 shutter_queue-IsConserved

complete_shutter-announced_example :
    ((complete_shutter true shutter_queue blank).1.events
      ≡ [] ++ announced (take (pending_enqueue shutter_queue 2) (drop 0 (7 ∷ 8 ∷ 9 ∷ []))))
    × ((complete_shutter false shutter_queue blank).1.events ≡ [])
unfolding shutter_seeded
complete_shutter-announced_example =
    complete_shutter-announced shutter_queue blank shutter_queue-IsConserved

-- "0xd001"
abbrev exposure : Properties
exposure =
    (
      48 ∷ 120 ∷ 100 ∷ 48 ∷ 48 ∷ 49 ∷ [],
      record {
        ptype = some "i16";
        access = none;
        initial_value = none;
        descriptor = none;
        payload = false;
      },
    )
    ∷ []

abbrev settling : ResponderMutation
settling =
    ResponderMutation.property_transition (48 ∷ 120 ∷ 100 ∷ 48 ∷ 48 ∷ 49 ∷ []) (some (pos 0))
      (fixed (negsuc 2)) 3

abbrev prepared : PreparedResponderMutation
prepared = PreparedResponderMutation.property_transition (record {
  target = 0xd001;
  initial = some (pos 0);
  terminal = negsuc 2;
  settle_after_polls = 3;
})

abbrev responder : Responder
responder = record {
  properties = exposure;
  announces = true;
  queue = some shutter_queue;
  state = blank;
}

-- A transition is prepared also where no queue is configured.
settling-prepared : prepare_responder_mutation exposure none settling [] ≡ ok prepared
unfolding prepare_responder_mutation ptpsim.Manifest.HexCode.parse_hex_code
    ptpsim.Manifest.HexCode.from_hex ptpsim.Manifest.HexCode.strip_hex_prefix
    ptpsim.Manifest.HexCode.trim ptpsim.Manifest.HexCode.hex_digits
    ptpsim.Manifest.HexCode.hex_digit ptpsim.Manifest.Property.property
    ptpsim.Manifest.Property.key_is
settling-prepared = refl

-- Two more objects of a queue that has one completed.
abbrev drained : TransferQueue
drained = (drain (enqueue_count shutter_queue 1).0 7).0

-- An enqueue that was prepared for one object more than the queue has left panics in a debug build.
drifted :
    apply_responder_mutation
      (record responder { queue = some drained })
      (PreparedResponderMutation.enqueue_objects 5 3)
    ≡ none
unfolding apply_responder_mutation drain enqueue_count shutter_seeded
drifted = refl
