-- ===== src/Engine/Transfer/Enqueue.antt =====
-- crates/camera-sim/src/engine.rs: what an enqueue makes available.
use ptpsim.Prelude.{
  ℕ, zero, suc, ◌+◌, ◌≡◌, refl, ap, ◌∙◌, List, [], ◌∷◌, none, some, ◌||◌, min, length, take, drop,
  length-drop, arith, Option-cases, inl, inr,
}
use ptpsim.Engine.Receive.{get}
use ptpsim.Engine.Transfer.{TransferQueue, contains, enqueue_rounds, enqueue_count, pending_enqueue}
use ptpsim.Engine.Transfer.Conserved.{
  get-none, contains-insert_handle, IsConserved, offer, offer-IsConserved,
}

-- What the rounds of an enqueue leave.
pub record Enqueued (q t : TransferQueue) (count : ℕ) : Type 0 where
  pub conserved : IsConserved t
  pub handles : t.handles ≡ q.handles
  pub completed : t.completed ≡ q.completed
  pub offered :
      (x : ℕ)
      → contains t.available x
        ≡ (contains q.available x || contains (take count (drop q.next_index q.handles)) x)
  pub next_index : t.next_index ≡ min (q.next_index + count) (length q.handles)

drop-none : (xs : List ℕ) (i : ℕ) → get xs i ≡ none → drop i xs ≡ []
drop-none [] zero e = refl
drop-none [] (suc i) e = refl
drop-none (y ∷ xs) zero e = absurd (ground (arith, e))
drop-none (y ∷ xs) (suc i) e = drop-none xs i e

drop-some : (xs : List ℕ) (i x : ℕ) → get xs i ≡ some x → drop i xs ≡ x ∷ drop (i + 1) xs
drop-some [] zero x e = absurd (ground (arith, e))
drop-some [] (suc i) x e = absurd (ground (arith, e))
drop-some (y ∷ xs) zero x e = ground (arith, e)
drop-some (y ∷ xs) (suc i) x e = drop-some xs i x e ∙ ap (λ k. x ∷ drop k (y ∷ xs)) (one_more i)
  where
    one_more : (i : ℕ) → suc (i + 1) ≡ suc i + 1
    one_more i = omega arith

take-min : (n : ℕ) (xs : List ℕ) → take n xs ≡ take (min n (length xs)) xs
take-min zero xs = ap (λ k. take k xs) (least (length xs))
  where
    least : (n : ℕ) → 0 ≡ min 0 n
    least n = omega arith
take-min (suc n) [] = ap (λ k. take {A = ℕ} k []) (none_left n)
  where
    none_left : (n : ℕ) → 0 ≡ min (suc n) 0
    none_left n = omega arith
take-min (suc n) (x ∷ xs) =
    ap (λ t. x ∷ t) (take-min n xs) ∙ ap (λ k. take k (x ∷ xs)) (one_more n (length xs))
  where
    one_more : (m n : ℕ) → suc (min m n) ≡ min (suc m) (suc n)
    one_more m n = omega arith

pub enqueue_rounds_lem :
    (count : ℕ) (q : TransferQueue) → IsConserved q → Enqueued q (enqueue_rounds count q) count
unfolding enqueue_rounds contains
enqueue_rounds_lem zero q h = record {
  conserved = h;
  handles = refl;
  completed = refl;
  offered = λ x. ground arith;
  next_index = omega (arith, h.reached);
}
enqueue_rounds_lem (suc n) q h = elim (Option-cases (get q.handles q.next_index)) [
  | inl e ↦
      rw (enqueue_rounds, e)
        (record {
          conserved = h;
          handles = refl;
          completed = refl;
          offered = λ x. rw (drop-none q.handles q.next_index e) (ground arith);
          next_index = omega (arith, h.reached, get-none q.handles q.next_index e);
        })
  | inr (x, e) ↦
      let rest = enqueue_rounds_lem n (offer q x) (offer-IsConserved q x h e) in
      rw (enqueue_rounds, e)
        (record {
          conserved = rest.conserved;
          handles = rest.handles;
          completed = rest.completed;
          offered = λ y.
              rest.offered y
              ∙ rw (drop-some q.handles q.next_index x e, contains-insert_handle x y q.available)
                  (ground arith);
          next_index = rest.next_index ∙ omega arith;
        })
]

-- On a queue whose handles are distinct: the number of objects that is predicted before an enqueue is the number
-- that the enqueue then makes available, whatever was drained before. The handles that are available then are
-- those that were, and that many of the handles behind the index, which moves on by as many.
pub enqueue_count-pending :
    (q : TransferQueue) (count : ℕ)
    → IsConserved q
    → ((enqueue_count q count).1 ≡ pending_enqueue q count)
      × ((enqueue_count q count).0.next_index ≡ q.next_index + pending_enqueue q count)
      × IsConserved (enqueue_count q count).0
      × ((x : ℕ)
          → contains (enqueue_count q count).0.available x ≡ (
              contains q.available x
              || contains (take (pending_enqueue q count) (drop q.next_index q.handles)) x))
unfolding enqueue_count pending_enqueue
enqueue_count-pending q count h =
    let e = enqueue_rounds_lem count q h in
    (
      omega (arith, e.completed, e.next_index, e.conserved.counted, h.counted, h.reached),
      omega (arith, e.next_index, h.reached),
      e.conserved,
      λ x.
          e.offered x
          ∙ ap (λ hs. contains q.available x || contains hs x)
              (take-min count (drop q.next_index q.handles)
                ∙ ap (λ n. take (min count n) (drop q.next_index q.handles))
                    (length-drop q.next_index q.handles)),
    )
