-- ===== src/Engine/Transfer/Announced.antt =====
-- crates/camera-sim/src/engine.rs: the events that announce the objects of a shutter.
use ptpsim.Prelude.{
  ℕ, zero, suc, ◌+◌, ◌-◌, ◌≡◌, sym, ap, ◌∙◌, List, [], ◌∷◌, ◌++◌, true, false, ltb, take, drop,
  arith, append-nil, append_assoc,
}
use ptpsim.State.Types.{QueuedEvent, CameraState, push_event_with_params}
use ptpsim.Engine.Transfer.{
  TransferQueue, enqueue_rounds, enqueue_count, enqueue_next, pending_enqueue, announce, newest,
  announce_added, complete_shutter,
}
use ptpsim.Engine.Transfer.Conserved.{IsConserved, same_fields}
use ptpsim.Engine.Transfer.Enqueue.{enqueue_rounds_lem, enqueue_count-pending}

-- One ObjectAdded event for each handle.
abbrev pub announced : List ℕ → List QueuedEvent
announced [] = []
announced (h ∷ hs) = record { code = 0x4002; params = h ∷ [] } ∷ announced hs

announce-events :
    (s : CameraState) (hs : List ℕ) → (announce s hs).events ≡ s.events ++ announced hs
unfolding push_event_with_params
announce-events s [] = sym (append-nil s.events)
announce-events s (h ∷ hs) =
    announce-events (push_event_with_params s 0x4002 (h ∷ [])) hs
    ∙ append_assoc s.events (record { code = 0x4002; params = h ∷ [] } ∷ []) (announced hs)

announce_added-events :
    (s : CameraState) (added : ℕ) (q : TransferQueue)
    → (announce_added true s added q).events ≡ s.events ++ announced (newest q added)
unfolding announce_added
announce_added-events s zero q =
    sym (append-nil s.events) ∙ ap (λ hs. s.events ++ announced hs) nothing
  where
    nothing : [] ≡ newest q 0
    nothing =
        let none_taken : 0 ≡ q.next_index - (q.next_index - 0) = omega arith in
        ap (λ n. take n (drop (q.next_index - 0) q.handles)) none_taken
announce_added-events s (suc n) q = rw some_added (announce-events s (newest q (suc n)))
  where
    some_added : ltb 0 (suc n) ≡ true
    some_added = ground arith

silent :
    (s : CameraState) (added : ℕ) (q : TransferQueue)
    → (announce_added false s added q).events ≡ s.events
unfolding announce_added
silent s added q = ground arith

newest_lem :
    (q t : TransferQueue) (added pending : ℕ)
    → t.handles ≡ q.handles
    → t.next_index ≡ q.next_index + pending
    → added ≡ pending
    → newest t added ≡ take pending (drop q.next_index q.handles)
newest_lem q t added pending h n a =
    ap (λ hs. take (t.next_index - (t.next_index - added)) (drop (t.next_index - added) hs)) h
    ∙ (ap (λ k. take k (drop (t.next_index - added) q.handles)) (omega (arith, n, a))
        ∙ ap (λ k. take pending (drop k q.handles)) (omega (arith, n, a)))

-- When the shutter's sequence is complete on a queue of distinct handles and the manifest declares the event,
-- one event is queued for each object that becomes available, in the order of the handles, behind the events
-- that are queued already; without the declaration none is.
pub complete_shutter-announced :
    (q : TransferQueue) (s : CameraState)
    → IsConserved q
    → ((complete_shutter true q s).1.events
        ≡ s.events
          ++ announced
              (take (pending_enqueue q q.enqueue_per_shutter) (drop q.next_index q.handles)))
      × ((complete_shutter false q s).1.events ≡ s.events)
unfolding complete_shutter enqueue_next enqueue_count pending_enqueue
complete_shutter-announced q s h =
    let t = record q { shutter_progress = 0 } in
    let count = enqueue_count-pending t q.enqueue_per_shutter (same_fields q 0 h) in
    let left = enqueue_rounds_lem q.enqueue_per_shutter t (same_fields q 0 h) in
    (
      announce_added-events s _ (enqueue_rounds q.enqueue_per_shutter t)
          ∙ ap (λ hs. s.events ++ announced hs)
              (newest_lem q (enqueue_rounds q.enqueue_per_shutter t) _ _ left.handles count.1
                count.0),
      silent s _ (enqueue_rounds q.enqueue_per_shutter t),
    )
