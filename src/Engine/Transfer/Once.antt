-- ===== src/Engine/Transfer/Once.antt =====
-- crates/camera-sim/src/engine.rs: the operations of a `TransferQueue` in any order.
use Prim.Native.String.{String}
use ptpsim.Prelude.{
  ℕ, ◌≡◌, refl, sym, ap, List, [], ◌∷◌, Option, none, some, Bool, true, false, leb, length, take,
  arith, Bool-cases, inl, inr, take-length_le,
}
use mathlib.Core.Path.{subst}
use ptpsim.Engine.Gates.{GateMatcher, Hits}
use ptpsim.State.Types.{CameraState}
use ptpsim.Engine.Transfer.{
  TransferQueue, contains, insert_handle, collect, startup_seeded, shutter_seeded, drain,
  enqueue_count, shutter_step, advance_shutter, advance_transfer_queue,
}
use ptpsim.Engine.Transfer.Conserved.{
  Distinct, contains-remove_handle, IsConserved, drain-IsConserved,
}
use ptpsim.Engine.Transfer.Kept.{
  Kept, Kept-trans, progress-Kept, rounds-Kept, drain-Kept, shutter-Kept,
}

-- What may happen to a queue: a request that may complete the shutter's sequence, an enqueue, an object
-- that was drained.
pub data Operation : Type 0 where
  requesting : (hits : Hits) (announces : Bool) (s : CameraState) → Operation
  enqueuing : (count : ℕ) → Operation
  draining : (handle : ℕ) → Operation

unfoldable pub operate : TransferQueue → Operation → TransferQueue
operate q (requesting hits announces s) = (advance_transfer_queue hits announces q s).0
operate q (enqueuing count) = (enqueue_count q count).0
operate q (draining handle) = (drain q handle).0

unfoldable pub operate_all : TransferQueue → List Operation → TransferQueue
operate_all q [] = q
operate_all q (o ∷ os) = operate_all (operate q o) os

collect-Distinct : (xs : List ℕ) → Distinct xs → collect xs ≡ xs
unfolding collect insert_handle
collect-Distinct [] h = refl
collect-Distinct (x ∷ xs) h = rw (collect-Distinct xs h.1, h.0) refl

take_all : (xs : List ℕ) → take (length xs) xs ≡ xs
take_all xs = take-length_le (length xs) xs (omega arith)

request-Kept :
    (hits : Hits) (announces : Bool) (q : TransferQueue) (s : CameraState)
    (o : Option (List GateMatcher))
    → IsConserved q
    → Kept q (advance_shutter hits announces q s o).0
unfolding advance_shutter
request-Kept hits announces q s none h = progress-Kept q q.shutter_progress h
request-Kept hits announces q s (some sequence) h =
    elim (Bool-cases (leb (length sequence) (shutter_step hits sequence q.shutter_progress))) [
      | inl p ↦ rw p (shutter-Kept announces q s h)
      | inr p ↦ rw p (progress-Kept q (shutter_step hits sequence q.shutter_progress) h)
    ]

operate-Kept : (q : TransferQueue) (o : Operation) → IsConserved q → Kept q (operate q o)
unfolding operate advance_transfer_queue enqueue_count
operate-Kept q (requesting hits announces s) h =
    request-Kept hits announces q s q.shutter_sequence h
operate-Kept q (enqueuing count) h = rounds-Kept count q h
operate-Kept q (draining handle) h = drain-Kept q handle h

operate_all-Kept :
    (q : TransferQueue) (os : List Operation) → IsConserved q → Kept q (operate_all q os)
unfolding operate_all
operate_all-Kept q [] h = progress-Kept q q.shutter_progress h
operate_all-Kept q (o ∷ os) h =
    let first = operate-Kept q o h in
    Kept-trans q (operate q o) (operate_all (operate q o) os) first
      (operate_all-Kept (operate q o) os first.conserved)

seeded-IsConserved :
    (connection : String) (handles : List ℕ)
    → Distinct handles
    → IsConserved (startup_seeded connection handles)
unfolding startup_seeded
seeded-IsConserved connection handles h = record {
  distinct = h;
  unique = subst Distinct (sym (collect-Distinct handles h)) h;
  reached = omega arith;
  within = λ x e. rw (take_all handles) (rw (collect-Distinct handles h) at e);
  counted = omega (arith, ap (λ t. length t) (collect-Distinct handles h));
}

pub shutter-IsConserved :
    (connection : String) (handles : List ℕ) (count : ℕ) (sequence : List GateMatcher)
    → Distinct handles
    → IsConserved (shutter_seeded connection handles count sequence)
unfolding shutter_seeded contains
shutter-IsConserved connection handles count sequence h = record {
  distinct = h;
  unique = tt;
  reached = omega arith;
  within = λ x e. absurd (ground (arith, e));
  counted = omega arith;
}

-- On a queue of distinct handles that is seeded at startup or for the shutter, whatever is requested, enqueued
-- and drained: each object that was made available so far is either available or counted as completed, no
-- handle is available twice, and no more objects are made available than there are.
pub operate_all-IsConserved :
    (connection : String) (handles : List ℕ) (count : ℕ) (sequence : List GateMatcher)
    (os : List Operation)
    → Distinct handles
    → IsConserved (operate_all (startup_seeded connection handles) os)
      × IsConserved (operate_all (shutter_seeded connection handles count sequence) os)
operate_all-IsConserved connection handles count sequence os h = (
  (operate_all-Kept _ os (seeded-IsConserved connection handles h)).conserved,
  (operate_all-Kept _ os (shutter-IsConserved connection handles count sequence h)).conserved,
)

drained_gone :
    (q : TransferQueue) (handle : ℕ)
    → IsConserved q
    → (drain q handle).1 ≡ true
    → (contains (take (drain q handle).0.next_index (drain q handle).0.handles) handle ≡ true)
      × (contains (drain q handle).0.available handle ≡ false)
unfolding drain
drained_gone q h c e = elim (Bool-cases (contains q.available h)) [
  | inl p ↦ rw (drain, p) (c.within h p, ground (arith, contains-remove_handle h h q.available))
  | inr p ↦ absurd (ground (arith, p, e))
]

-- An object that was drained is not drained again, and is not enumerated, whatever is requested, enqueued and
-- drained in between.
pub drain-once :
    (q : TransferQueue) (handle : ℕ) (os : List Operation)
    → IsConserved q
    → (drain q handle).1 ≡ true
    → (contains (operate_all (drain q handle).0 os).available handle ≡ false)
      × ((drain (operate_all (drain q handle).0 os) handle).1 ≡ false)
unfolding drain
drain-once q h os c e =
    let kept = operate_all-Kept (drain q h).0 os (drain-IsConserved q h c) in
    let now = drained_gone q h c e in
    let left = kept.gone h now.0 now.1 in (left.1, rw (drain, left.1) refl)
