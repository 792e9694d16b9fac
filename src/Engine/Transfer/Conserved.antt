-- ===== src/Engine/Transfer/Conserved.antt =====
-- crates/camera-sim/src/engine.rs: what the operations of a `TransferQueue` keep.
use ptpsim.Prelude.{
  ℕ, zero, suc, ◌+◌, ◌≤◌, ◌<◌, ◌≡◌, refl, ap, ◌∙◌, List, [], ◌∷◌, none, some, true, false, ◌||◌,
  ◌==◌, if◌then◌else◌, length, take, arith, Bool-cases, inl, inr, ==_iff,
}
use mathlib.Core.Path.{subst}
use ptpsim.Engine.Receive.{get}
use ptpsim.Engine.Transfer.{TransferQueue, contains, insert_handle, remove_handle, drain}

-- No handle twice.
abbrev pub Distinct : List ℕ → Type 0
Distinct [] = Unit
Distinct (x ∷ xs) = (contains xs x ≡ false) × Distinct xs

pub contains-insert_handle :
    (x y : ℕ) (xs : List ℕ) → contains (insert_handle x xs) y ≡ ((x == y) || contains xs y)
unfolding contains insert_handle
contains-insert_handle x y xs = elim (Bool-cases (contains xs x)) [
  | inl p ↦
      rw p (elim (Bool-cases (x == y)) [ inl e ↦ rw (e, ← (==_iff x y).0 e) p | inr e ↦ rw e refl ])
  | inr p ↦ rw p refl
]

pub contains-remove_handle :
    (x y : ℕ) (xs : List ℕ)
    → contains (remove_handle x xs) y ≡ (if x == y then false else contains xs y)
unfolding contains remove_handle
contains-remove_handle x y [] = ground arith
contains-remove_handle x y (z ∷ zs) =
    ground (arith, contains-remove_handle x y zs, ==_iff x y, ==_iff z x, ==_iff z y)

pub Distinct-insert_handle : (x : ℕ) (xs : List ℕ) → Distinct xs → Distinct (insert_handle x xs)
unfolding insert_handle
Distinct-insert_handle x xs h = elim (Bool-cases (contains xs x)) [
  | inl p ↦ rw p h
  | inr p ↦ rw p (p, h)
]

Distinct-remove_handle : (x : ℕ) (xs : List ℕ) → Distinct xs → Distinct (remove_handle x xs)
unfolding remove_handle
Distinct-remove_handle x [] h = tt
Distinct-remove_handle x (y ∷ ys) h = elim (Bool-cases (y == x)) [
  | inl p ↦ rw p (Distinct-remove_handle x ys h.1)
  | inr p ↦
      rw p (ground (arith, h.0, contains-remove_handle x y ys), Distinct-remove_handle x ys h.1)
]

remove_handle-absent : (x : ℕ) (xs : List ℕ) → contains xs x ≡ false → remove_handle x xs ≡ xs
unfolding contains remove_handle
remove_handle-absent x [] h = refl
remove_handle-absent x (y ∷ ys) h = ground (arith, h, remove_handle-absent x ys)

length-remove_handle :
    (x : ℕ) (xs : List ℕ)
    → Distinct xs
    → length (remove_handle x xs) + (if contains xs x then 1 else 0) ≡ length xs
unfolding contains remove_handle
length-remove_handle x [] h = omega arith
length-remove_handle x (y ∷ ys) h = elim (Bool-cases (y == x)) [
  | inl p ↦
      let gone : contains ys x ≡ false =
        subst (λ z. contains ys z ≡ false) ((==_iff y x).0 p) h.0 in
      rw p (omega (arith, ap (λ t. length t) (remove_handle-absent x ys gone)))
  | inr p ↦ rw p (omega (arith, length-remove_handle x ys h.1))
]

suc_add : (m n : ℕ) → suc m + n ≡ suc (m + n)
suc_add m n = omega arith

-- The handles up to the index, and one more.
pub contains-take_suc :
    (xs : List ℕ) (i x y : ℕ)
    → get xs i ≡ some x
    → contains (take (i + 1) xs) y ≡ (contains (take i xs) y || (x == y))
unfolding contains
contains-take_suc [] zero x y e = absurd (ground (arith, e))
contains-take_suc [] (suc i) x y e = absurd (ground (arith, e))
contains-take_suc (z ∷ zs) zero x y e = ground (arith, e)
contains-take_suc (z ∷ zs) (suc i) x y e =
    ap (λ k. contains (take k (z ∷ zs)) y) (suc_add i 1)
    ∙ ground (arith, contains-take_suc zs i x y e)

get-contains : (xs : List ℕ) (i x : ℕ) → get xs i ≡ some x → contains xs x ≡ true
unfolding contains
get-contains [] zero x e = absurd (ground (arith, e))
get-contains [] (suc i) x e = absurd (ground (arith, e))
get-contains (z ∷ zs) zero x e = ground (arith, e)
get-contains (z ∷ zs) (suc i) x e = ground (arith, get-contains zs i x e)

-- What stands at the index is not before it.
pub get-new :
    (xs : List ℕ) (i x : ℕ) → Distinct xs → get xs i ≡ some x → contains (take i xs) x ≡ false
unfolding contains
get-new xs zero x h e = refl
get-new [] (suc i) x h e = refl
get-new (z ∷ zs) (suc i) x h e = elim (Bool-cases (z == x)) [
  | inl p ↦ absurd (ground (arith, h.0, get-contains zs i x e, (==_iff z x).0 p))
  | inr p ↦ rw p (get-new zs i x h.1 e)
]

pub get-lt : (xs : List ℕ) (i x : ℕ) → get xs i ≡ some x → i < length xs
get-lt [] zero x e = absurd (ground (arith, e))
get-lt [] (suc i) x e = absurd (ground (arith, e))
get-lt (y ∷ xs) zero x e = omega arith
get-lt (y ∷ xs) (suc i) x e = omega (arith, get-lt xs i x e)

pub get-none : (xs : List ℕ) (i : ℕ) → get xs i ≡ none → length xs ≤ i
get-none [] i e = omega arith
get-none (y ∷ xs) zero e = absurd (ground (arith, e))
get-none (y ∷ xs) (suc i) e = omega (arith, get-none xs i e)

-- Every object that was made available so far is available or completed, and none is twice; none is available
-- that stands behind the index.
pub record IsConserved (q : TransferQueue) : Type 0 where
  pub distinct : Distinct q.handles
  pub unique : Distinct q.available
  pub reached : q.next_index ≤ length q.handles
  pub within :
      (x : ℕ) → contains q.available x ≡ true → contains (take q.next_index q.handles) x ≡ true
  pub counted : length q.available + q.completed ≡ q.next_index

removed :
    (q : TransferQueue) (handle completed : ℕ)
    → IsConserved q
    → length (remove_handle handle q.available) + completed ≡ q.next_index
    → IsConserved (record q { available = remove_handle handle q.available; completed = completed })
removed q x c h e = record {
  distinct = h.distinct;
  unique = Distinct-remove_handle x q.available h.unique;
  reached = h.reached;
  within = λ y m. h.within y (ground (arith, m, contains-remove_handle x y q.available));
  counted = e;
}

pub drain-IsConserved :
    (q : TransferQueue) (handle : ℕ) → IsConserved q → IsConserved (drain q handle).0
unfolding drain
drain-IsConserved q x h =
    let left = length-remove_handle x q.available h.unique in
    elim (Bool-cases (contains q.available x)) [
      | inl p ↦ rw p (removed q x (q.completed + 1) h (ground (arith, p, h.counted, left)))
      | inr p ↦ rw p (removed q x q.completed h (ground (arith, p, h.counted, left)))
    ]

-- One object more.
abbrev pub offer : TransferQueue → ℕ → TransferQueue
offer q handle = record q {
  available = insert_handle handle q.available;
  next_index = q.next_index + 1;
}

pub offer_fresh :
    (q : TransferQueue) (handle : ℕ)
    → IsConserved q
    → get q.handles q.next_index ≡ some handle
    → contains q.available handle ≡ false
offer_fresh q x h e = elim (Bool-cases (contains q.available x)) [
  | inl p ↦ absurd (ground (arith, h.within x p, get-new q.handles q.next_index x h.distinct e))
  | inr p ↦ p
]

pub offer-IsConserved :
    (q : TransferQueue) (handle : ℕ)
    → IsConserved q
    → get q.handles q.next_index ≡ some handle
    → IsConserved (offer q handle)
unfolding insert_handle
offer-IsConserved q x h e = record {
  distinct = h.distinct;
  unique = Distinct-insert_handle x q.available h.unique;
  reached = omega (arith, get-lt q.handles q.next_index x e);
  within = λ y m. ground (
    arith,
    m,
    h.within y,
    contains-insert_handle x y q.available,
    contains-take_suc q.handles q.next_index x y e,
  );
  counted = rw (offer_fresh q x h e) (omega (arith, h.counted));
}

pub same_fields :
    (q : TransferQueue) (progress : ℕ)
    → IsConserved q
    → IsConserved (record q { shutter_progress = progress })
same_fields q progress h = record {
  distinct = h.distinct;
  unique = h.unique;
  reached = h.reached;
  within = h.within;
  counted = h.counted;
}
