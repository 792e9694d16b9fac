-- ===== src/Engine/Receive.antt =====
-- crates/camera-sim/src/engine.rs: `CameraInitiatedQueue`, the objects that the camera sends one after
-- another, each when all of its bytes were delivered.
use ptpsim.Prelude.{
  ℕ, ◌+◌, ◌-◌, ◌%◌, ◌^◌, List, [], ◌∷◌, Option, none, some, Bool, true, false, ◌&&◌, ◌||◌, ltb, leb,
  ◌==◌, if◌then◌else◌, min, length, drop,
}
pub mod Ranges
pub mod Delivery
pub mod Runs
pub mod Tokens
pub mod Once

-- A range of bytes, from the first to the one behind the last.
abbrev pub Range : Type 0
Range = ℕ × ℕ

pub record CameraInitiatedQueue : Type 0 where
  pub handles : List ℕ
  pub head : ℕ
  pub generation : ℕ
  pub delivered : List Range

abbrev pub new : List ℕ → CameraInitiatedQueue
new handles = record { handles = handles; head = 0; generation = 0; delivered = [] }

-- `get` of a vector.
abbrev pub get {ℓ} : {A : Type ℓ} → List A → ℕ → Option A
get xs i = elim (drop i xs) [ [] ↦ none | x ∷ _ ↦ some x ]

unfoldable pub head_handle : CameraInitiatedQueue → Option ℕ
head_handle q = get q.handles q.head

unfoldable pub remaining : CameraInitiatedQueue → ℕ
remaining q = length q.handles - q.head

-- The order of pairs, and `sort_unstable`: pairs that compare equal are the same.
abbrev pub le_range : Range → Range → Bool
le_range (a, b) (c, d) = ltb a c || ((a == c) && leb b d)

unfoldable pub insert_sorted : Range → List Range → List Range
insert_sorted r [] = r ∷ []
insert_sorted r (q ∷ qs) =
    let rest = insert_sorted r qs in if le_range r q then r ∷ q ∷ qs else q ∷ rest

unfoldable pub sort : List Range → List Range
unfolding insert_sorted
sort [] = []
sort (r ∷ rs) = insert_sorted r (sort rs)

abbrev pub max : ℕ → ℕ → ℕ
max a b = if leb a b then b else a

-- The loop of `acknowledge`, whose `last_mut` is carried as the range `start` to `end`.
unfoldable pub merge_from : ℕ → ℕ → List Range → List Range
merge_from start end [] = (start, end) ∷ []
merge_from start end ((s, e) ∷ rs) =
    let joined = merge_from start (max end e) rs in
    let rest = merge_from s e rs in if leb s end then joined else (start, end) ∷ rest

unfoldable pub merge : List Range → List Range
unfolding merge_from
merge [] = []
merge ((s, e) ∷ rs) = merge_from s e rs

-- `saturating_add` of `u64`, and the clipping to the object.
abbrev pub range_end : (offset len object_size : ℕ) → ℕ
range_end offset len object_size = min (min (offset + len) (2 ^ 64 - 1)) object_size

-- The ranges after one more.
unfoldable pub deliver : List Range → (offset len object_size : ℕ) → List Range
unfolding merge sort
deliver delivered offset len object_size =
    if ltb offset (range_end offset len object_size)
    then merge (sort ((offset, range_end offset len object_size) ∷ delivered))
    else delivered

-- `first().is_some_and`.
unfoldable pub first_covers : List Range → ℕ → Bool
first_covers [] object_size = false
first_covers ((start, end) ∷ rs) object_size = (start == 0) && leb object_size end

abbrev pub is_complete : List Range → ℕ → Bool
is_complete delivered object_size = (object_size == 0) || first_covers delivered object_size

unfoldable pub acknowledge :
    CameraInitiatedQueue → (offset len object_size : ℕ) → CameraInitiatedQueue × Bool
unfolding deliver first_covers
acknowledge q offset len object_size =
    let delivered = deliver q.delivered offset len object_size in
    if is_complete delivered object_size
    then (
      record q { head = q.head + 1; generation = (q.generation + 1) % 2 ^ 64; delivered = [] },
      true,
    )
    else (record q { delivered = delivered }, false)
