-- ===== src/Engine/Receive/Ranges.antt =====
-- crates/camera-sim/src/engine.rs: the ranges of `CameraInitiatedQueue::acknowledge`, as sets of bytes.
use ptpsim.Prelude.{
  ℕ, ◌+◌, ◌^◌, ◌≤◌, ◌<◌, ◌≡◌, refl, ap, ◌∙◌, List, [], ◌∷◌, Bool, false, ◌&&◌, ◌||◌, ltb, leb,
  arith, Bool-cases, inl, inr, All, ltb→lt,
}
use ptpsim.Engine.Receive.{
  Range, le_range, insert_sorted, sort, max, merge_from, merge, range_end, deliver,
}

abbrev pub in_range : ℕ → Range → Bool
in_range x (s, e) = leb s x && ltb x e

-- The byte is in one of the ranges.
abbrev pub covers : List Range → ℕ → Bool
covers [] x = false
covers (r ∷ rs) x = in_range x r || covers rs x

or_swap : (a b c : Bool) → (a || (b || c)) ≡ (b || (a || c))
or_swap a b c = ground arith

covers-insert_sorted :
    (r : Range) (rs : List Range) (x : ℕ)
    → covers (insert_sorted r rs) x ≡ (in_range x r || covers rs x)
unfolding insert_sorted
covers-insert_sorted r [] x = refl
covers-insert_sorted r (q ∷ qs) x = elim (Bool-cases (le_range r q)) [
  | inl p ↦ rw p refl
  | inr p ↦
      rw (p, covers-insert_sorted r qs x) (or_swap (in_range x q) (in_range x r) (covers qs x))
]

covers-sort : (rs : List Range) (x : ℕ) → covers (sort rs) x ≡ covers rs x
unfolding sort
covers-sort [] x = refl
covers-sort (r ∷ rs) x = rw (covers-insert_sorted r (sort rs) x, covers-sort rs x) refl

-- Ranges that are not empty, by their starts, none of which is below `low`.
abbrev pub Ordered : ℕ → List Range → Type 0
Ordered low [] = Unit
Ordered low ((s, e) ∷ rs) = (low ≤ s) × (s < e) × Ordered s rs

-- None of them empty.
abbrev pub IsNonempty : Range → Type 0
IsNonempty (s, e) = s < e

Ordered-insert_sorted :
    (low s e : ℕ) (rs : List Range)
    → low ≤ s
    → s < e
    → Ordered low rs
    → Ordered low (insert_sorted (s, e) rs)
unfolding insert_sorted
Ordered-insert_sorted low s e [] l n h = (l, n, tt)
Ordered-insert_sorted low s e ((a, b) ∷ rs) l n h = elim (Bool-cases (le_range (s, e) (a, b))) [
  | inl p ↦ rw p (l, n, (ground arith, h.1, h.2))
  | inr p ↦ rw p (h.0, h.1, Ordered-insert_sorted a s e rs (ground arith) n h.2)
]

Ordered-sort : (rs : List Range) → All IsNonempty rs → Ordered 0 (sort rs)
unfolding sort
Ordered-sort [] h = tt
Ordered-sort ((s, e) ∷ rs) h =
    Ordered-insert_sorted 0 s e (sort rs) (omega arith) h.0 (Ordered-sort rs h.1)

-- The first starts behind `end`.
abbrev pub StartsBehind : ℕ → List Range → Type 0
StartsBehind end [] = Unit
StartsBehind end ((s, e) ∷ rs) = end < s

-- Ranges that are not empty, in their order, with a byte or more between one and the next.
abbrev pub IsSeparated : List Range → Type 0
IsSeparated [] = Unit
IsSeparated ((s, e) ∷ rs) = (s < e) × StartsBehind e rs × IsSeparated rs

pub IsSeparated-IsNonempty : (rs : List Range) → IsSeparated rs → All IsNonempty rs
IsSeparated-IsNonempty [] h = tt
IsSeparated-IsNonempty ((s, e) ∷ rs) h = (h.0, IsSeparated-IsNonempty rs h.2)

Ordered-lower : (x y : ℕ) (rs : List Range) → x ≤ y → Ordered y rs → Ordered x rs
Ordered-lower x y [] l h = tt
Ordered-lower x y ((s, e) ∷ rs) l h = (omega (arith, h.0), h.1, h.2)

StartsBehind-merge_from : (x s e : ℕ) (rs : List Range) → x < s → StartsBehind x (merge_from s e rs)
unfolding merge_from
StartsBehind-merge_from x s e [] h = h
StartsBehind-merge_from x s e ((a, b) ∷ rs) h = elim (Bool-cases (leb a e)) [
  | inl p ↦ rw p (StartsBehind-merge_from x s (max e b) rs h)
  | inr p ↦ rw p h
]

merge_from-IsSeparated :
    (s e : ℕ) (rs : List Range) → s < e → Ordered s rs → IsSeparated (merge_from s e rs)
unfolding merge_from
merge_from-IsSeparated s e [] l h = (l, tt, tt)
merge_from-IsSeparated s e ((a, b) ∷ rs) l h = elim (Bool-cases (leb a e)) [
  | inl p ↦
      rw p (merge_from-IsSeparated s (max e b) rs (ground arith) (Ordered-lower s a rs h.0 h.2))
  | inr p ↦
      rw p
        (l, StartsBehind-merge_from e a b rs (ground arith), merge_from-IsSeparated a b rs h.1 h.2)
]

covers-merge_from :
    (s e : ℕ) (rs : List Range) (x : ℕ)
    → s < e
    → Ordered s rs
    → covers (merge_from s e rs) x ≡ (in_range x (s, e) || covers rs x)
unfolding merge_from
covers-merge_from s e [] x l h = refl
covers-merge_from s e ((a, b) ∷ rs) x l h = elim (Bool-cases (leb a e)) [
  | inl p ↦ rw p (
      covers-merge_from s (max e b) rs x (ground arith) (Ordered-lower s a rs h.0 h.2)
      ∙ joined x s e a b (covers rs x) h.0 h.1 (ground arith))
  | inr p ↦ rw p (ap (λ t. in_range x (s, e) || t) (covers-merge_from a b rs x h.1 h.2))
]
  where
    joined :
        (x s e a b : ℕ) (c : Bool)
        → s ≤ a
        → a < b
        → a ≤ e
        → (in_range x (s, max e b) || c) ≡ (in_range x (s, e) || (in_range x (a, b) || c))
    joined x s e a b c k l m = ground arith

merge-IsSeparated : (rs : List Range) → Ordered 0 rs → IsSeparated (merge rs)
unfolding merge
merge-IsSeparated [] h = tt
merge-IsSeparated ((s, e) ∷ rs) h = merge_from-IsSeparated s e rs h.1 h.2

covers-merge : (rs : List Range) (x : ℕ) → Ordered 0 rs → covers (merge rs) x ≡ covers rs x
unfolding merge
covers-merge [] x h = refl
covers-merge ((s, e) ∷ rs) x h = covers-merge_from s e rs x h.1 h.2

-- What is asked for of an object: the bytes from the offset, as far as it reaches.
abbrev pub is_asked : (offset len object_size x : ℕ) → Bool
is_asked offset len object_size x = leb offset x && (ltb x (offset + len) && ltb x object_size)

pub deliver-IsSeparated :
    (rs : List Range) (offset len object_size : ℕ)
    → IsSeparated rs
    → IsSeparated (deliver rs offset len object_size)
unfolding deliver
deliver-IsSeparated rs offset len size h =
    elim (Bool-cases (ltb offset (range_end offset len size))) [
      | inl p ↦ rw p (
          merge-IsSeparated _ (
            Ordered-sort ((offset, range_end offset len size) ∷ rs)
              (ltb→lt offset _ p, IsSeparated-IsNonempty rs h)))
      | inr p ↦ rw p h
    ]

pub covers-deliver :
    (rs : List Range) (offset len object_size x : ℕ)
    → object_size < 2 ^ 64
    → IsSeparated rs
    → covers (deliver rs offset len object_size) x
      ≡ (is_asked offset len object_size x || covers rs x)
unfolding deliver
covers-deliver rs offset len size x l h =
    elim (Bool-cases (ltb offset (range_end offset len size))) [
      | inl p ↦
          let nonempty : All IsNonempty ((offset, range_end offset len size) ∷ rs) =
            (ltb→lt offset _ p, IsSeparated-IsNonempty rs h) in
          rw p (
            covers-merge _ x (Ordered-sort ((offset, range_end offset len size) ∷ rs) nonempty)
            ∙ (covers-sort ((offset, range_end offset len size) ∷ rs) x
                ∙ asked offset len size x (covers rs x) l))
      | inr p ↦ rw p (unasked offset len size x (covers rs x) l p)
    ]
  where
    asked :
        (offset len size x : ℕ) (c : Bool)
        → size < 2 ^ 64
        → (in_range x (offset, range_end offset len size) || c) ≡ (is_asked offset len size x || c)
    asked offset len size x c l = ground arith

    unasked :
        (offset len size x : ℕ) (c : Bool)
        → size < 2 ^ 64
        → ltb offset (range_end offset len size) ≡ false
        → c ≡ (is_asked offset len size x || c)
    unasked offset len size x c l p = ground arith
