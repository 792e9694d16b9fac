-- ===== src/Engine/Transfer/Kept.antt =====
-- crates/camera-sim/src/engine.rs: each operation of a `TransferQueue` forgets no object.
use ptpsim.Prelude.{
  ℕ, zero, suc, ◌+◌, ◌≤◌, ◌≡◌, refl, ap, ◌∙◌, some, Bool, true, false, ◌==◌, take, arith,
  Bool-cases, Option-cases, inl, inr, ==_iff,
}
use ptpsim.Engine.Receive.{get}
use ptpsim.State.Types.{CameraState}
use ptpsim.Engine.Transfer.{
  TransferQueue, contains, remove_handle, drain, enqueue_rounds, enqueue_count, enqueue_next,
  complete_shutter,
}
use ptpsim.Engine.Transfer.Conserved.{
  contains-insert_handle, contains-remove_handle, get-new, contains-take_suc, IsConserved,
  same_fields, drain-IsConserved, offer, offer-IsConserved,
}

-- A queue that an operation leaves: conserved, of the same handles, with no object forgotten.
pub record Kept (q t : TransferQueue) : Type 0 where
  pub conserved : IsConserved t
  pub handles : t.handles ≡ q.handles
  pub later : q.next_index ≤ t.next_index
  pub gone :
      (x : ℕ)
      → contains (take q.next_index q.handles) x ≡ true
      → contains q.available x ≡ false
      → (contains (take t.next_index t.handles) x ≡ true) × (contains t.available x ≡ false)

pub Kept-trans : (q t u : TransferQueue) → Kept q t → Kept t u → Kept q u
Kept-trans q t u a b = record {
  conserved = b.conserved;
  handles = b.handles ∙ a.handles;
  later = omega (arith, a.later, b.later);
  gone = λ x m n. let g = a.gone x m n in b.gone x g.0 g.1;
}

-- Only the shutter's progress may differ.
pub progress-Kept :
    (q : TransferQueue) (progress : ℕ)
    → IsConserved q
    → Kept q (record q { shutter_progress = progress })
progress-Kept q progress h = record {
  conserved = same_fields q progress h;
  handles = refl;
  later = omega arith;
  gone = λ x m n. (m, n);
}

offer-Kept :
    (q : TransferQueue) (handle : ℕ)
    → IsConserved q
    → get q.handles q.next_index ≡ some handle
    → Kept q (offer q handle)
offer-Kept q h c e = record {
  conserved = offer-IsConserved q h c e;
  handles = refl;
  later = omega arith;
  gone = λ x m n. (
    ground (arith, m, contains-take_suc q.handles q.next_index h x e),
    ground (arith, n, contains-insert_handle h x q.available, other x m),
  );
}
  where
    other : (x : ℕ) → contains (take q.next_index q.handles) x ≡ true → (h == x) ≡ false
    other x m = elim (Bool-cases (h == x)) [
      | inr p ↦ p
      | inl p ↦ absurd (
          ground (
            arith,
            m,
            get-new q.handles q.next_index h c.distinct e,
            ap (λ y. contains (take q.next_index q.handles) y) ((==_iff h x).0 p),
          ))
    ]

pub rounds-Kept : (count : ℕ) (q : TransferQueue) → IsConserved q → Kept q (enqueue_rounds count q)
unfolding enqueue_rounds
rounds-Kept zero q h = progress-Kept q q.shutter_progress h
rounds-Kept (suc n) q h = elim (Option-cases (get q.handles q.next_index)) [
  | inl e ↦ rw (enqueue_rounds, e) (progress-Kept q q.shutter_progress h)
  | inr (x, e) ↦
      rw (enqueue_rounds, e)
        (Kept-trans q (offer q x) (enqueue_rounds n (offer q x)) (offer-Kept q x h e)
          (rounds-Kept n (offer q x) (offer-IsConserved q x h e)))
]

drained-Kept :
    (q : TransferQueue) (handle completed : ℕ)
    → IsConserved (record q { available = remove_handle handle q.available; completed = completed })
    → Kept q (record q { available = remove_handle handle q.available; completed = completed })
drained-Kept q h completed c = record {
  conserved = c;
  handles = refl;
  later = omega arith;
  gone = λ x m n. (m, ground (arith, n, contains-remove_handle h x q.available));
}

pub drain-Kept : (q : TransferQueue) (handle : ℕ) → IsConserved q → Kept q (drain q handle).0
unfolding drain
drain-Kept q h c = elim (Bool-cases (contains q.available h)) [
  | inl p ↦
      let kept = rw (drain, p) at (drain-IsConserved q h c) in
      rw p (drained-Kept q h (q.completed + 1) kept)
  | inr p ↦
      let kept = rw (drain, p) at (drain-IsConserved q h c) in
      rw p (drained-Kept q h q.completed kept)
]

pub shutter-Kept :
    (announces : Bool) (q : TransferQueue) (s : CameraState)
    → IsConserved q
    → Kept q (complete_shutter announces q s).0
unfolding complete_shutter enqueue_next enqueue_count
shutter-Kept announces q s h =
    let t = record q { shutter_progress = 0 } in
    Kept-trans q t (enqueue_rounds q.enqueue_per_shutter t) (progress-Kept q 0 h)
      (rounds-Kept q.enqueue_per_shutter t (same_fields q 0 h))
