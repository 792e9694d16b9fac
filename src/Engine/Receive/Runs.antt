-- ===== src/Engine/Receive/Runs.antt =====
-- crates/camera-sim/src/engine.rs: acknowledgements of one object in any order, whole or in part.
use ptpsim.Prelude.{
  ℕ, ◌+◌, ◌%◌, ◌^◌, ◌<◌, ◌≡◌, ◌↔◌, refl, ◌∙◌, List, [], ◌∷◌, Bool, true, false, ◌||◌, if◌then◌else◌,
  arith, Bool-cases, inl, inr,
}
use ptpsim.Engine.Receive.{CameraInitiatedQueue, acknowledge, deliver, is_complete}
use ptpsim.Engine.Receive.Ranges.{covers, IsSeparated, is_asked}
use ptpsim.Engine.Receive.Delivery.{Whole, Acknowledged, acknowledge_lem}

-- How far the queue's head and generation are moved, by whether the object was completed.
abbrev Moves : CameraInitiatedQueue → CameraInitiatedQueue × Bool → Type 0
Moves q (t, done) =
    (t.head ≡ (if done then q.head + 1 else q.head))
    × (t.generation ≡ (if done then (q.generation + 1) % 2 ^ 64 else q.generation))
    × (t.handles ≡ q.handles)

-- Acknowledgements one after another, as far as the first that completes the object.
unfoldable pub acknowledge_all :
    CameraInitiatedQueue → List (ℕ × ℕ) → ℕ → CameraInitiatedQueue × Bool
acknowledge_all q [] object_size = (q, false)
acknowledge_all q ((offset, len) ∷ acks) object_size =
    let step = acknowledge q offset len object_size in
    let rest = acknowledge_all step.0 acks object_size in if step.1 then (step.0, true) else rest

-- The byte is in one of the acknowledged ranges.
abbrev pub acknowledged : List (ℕ × ℕ) → ℕ → ℕ → Bool
acknowledged [] object_size x = false
acknowledged ((offset, len) ∷ acks) object_size x =
    is_asked offset len object_size x || acknowledged acks object_size x

Acknowledges : CameraInitiatedQueue → List (ℕ × ℕ) → ℕ → Type 0
Acknowledges q acks size =
    ((acknowledge_all q acks size).1 ≡ true)
    ↔ Whole size (λ x. acknowledged acks size x || covers q.delivered x)

or_mono :
    (size : ℕ) (f g h : ℕ → Bool)
    → Whole size (λ x. f x || h x)
    → Whole size (λ x. (f x || g x) || h x)
or_mono size f g h w x l = ground (arith, w x l)

regroup :
    (size : ℕ) (a b c d : ℕ → Bool)
    → ((x : ℕ) → d x ≡ (a x || c x))
    → Whole size (λ x. b x || d x) ↔ Whole size (λ x. (a x || b x) || c x)
regroup size a b c d e = (λ w x l. ground (arith, w x l, e x), λ w x l. ground (arith, w x l, e x))

-- What holds of the acknowledgements that are left, if any.
abbrev Continues : CameraInitiatedQueue → List (ℕ × ℕ) → ℕ → Type 0
Continues q [] size = Unit
Continues q (a ∷ acks) size = Acknowledges q (a ∷ acks) size

-- What is left when the first acknowledgement does not complete the object.
later :
    (q : CameraInitiatedQueue) (offset len : ℕ) (acks : List (ℕ × ℕ)) (size : ℕ)
    → Acknowledged q offset len size
    → (acknowledge q offset len size).1 ≡ false
    → Continues (acknowledge q offset len size).0 acks size
    → ((acknowledge_all (acknowledge q offset len size).0 acks size).1 ≡ true)
      ↔ Whole size
          (λ x. (is_asked offset len size x || acknowledged acks size x) || covers q.delivered x)
unfolding acknowledge_all Acknowledges
later q offset len [] size step p ih = (
  λ e. absurd (ground (arith, e)),
  λ w. absurd (ground (arith, p, step.completes.1 (λ x m. ground (arith, w x m)))),
)
later q offset len ((o, k) ∷ more) size step p ih =
    let now = ih in
    let same =
      regroup size (is_asked offset len size) (acknowledged ((o, k) ∷ more) size)
        (covers q.delivered) (covers (acknowledge q offset len size).0.delivered)
        (step.remembers p) in
    (λ e. same.0 (now.0 e), λ w. now.1 (same.1 w))

-- By whether the first acknowledgement completes the object.
by_first :
    (q : CameraInitiatedQueue) (offset len : ℕ) (acks : List (ℕ × ℕ)) (size : ℕ)
    → Acknowledged q offset len size
    → Continues (acknowledge q offset len size).0 acks size
    → Acknowledges q ((offset, len) ∷ acks) size
unfolding acknowledge_all Acknowledges
by_first q offset len acks size step ih = elim (Bool-cases (acknowledge q offset len size).1) [
  | inl p ↦ rw p (
    λ e.
        or_mono size (is_asked offset len size) (acknowledged acks size) (covers q.delivered)
          (step.completes.0 p),
    λ w. refl,
  )
  | inr p ↦ rw p (later q offset len acks size step p ih)
]

acknowledge_all_lem :
    (q : CameraInitiatedQueue) (offset len : ℕ) (acks : List (ℕ × ℕ)) (size : ℕ)
    → size < 2 ^ 64
    → IsSeparated q.delivered
    → Acknowledges q ((offset, len) ∷ acks) size
acknowledge_all_lem q offset len [] size l h =
    by_first q offset len [] size (acknowledge_lem q offset len size l h) tt
acknowledge_all_lem q offset len ((o, k) ∷ more) size l h =
    let step = acknowledge_lem q offset len size l h in
    let rest =
      acknowledge_all_lem (acknowledge q offset len size).0 o k more size l step.separated in
    by_first q offset len ((o, k) ∷ more) size step rest

acknowledge-Moves :
    (q : CameraInitiatedQueue) (offset len size : ℕ) → Moves q (acknowledge q offset len size)
unfolding acknowledge
acknowledge-Moves q offset len size =
    elim (Bool-cases (is_complete (deliver q.delivered offset len size) size)) [
      | inl p ↦ rw p (refl, refl, refl)
      | inr p ↦ rw p (refl, refl, refl)
    ]

-- Behind a step that moved nothing, the rest moves what it moves from here.
Moves-behind :
    (q t : CameraInitiatedQueue) (r : CameraInitiatedQueue × Bool)
    → Moves q (t, false)
    → Moves t r
    → Moves q r
Moves-behind q t r h k = (rw (k.0, h.0) refl, rw (k.1, h.1) refl, k.2 ∙ h.2)

acknowledge_all-Moves :
    (q : CameraInitiatedQueue) (acks : List (ℕ × ℕ)) (size : ℕ)
    → Moves q (acknowledge_all q acks size)
unfolding acknowledge_all
acknowledge_all-Moves q [] size = (refl, refl, refl)
acknowledge_all-Moves q ((offset, len) ∷ acks) size =
    let step = acknowledge q offset len size in
    let moved = acknowledge-Moves q offset len size in
    elim (Bool-cases step.1) [
      | inl p ↦ rw p (rw p at moved)
      | inr p ↦ rw p (
          Moves-behind q step.0 (acknowledge_all step.0 acks size) (rw p at moved)
            (acknowledge_all-Moves step.0 acks size))
    ]

-- One acknowledgement or more of an object, of any ranges in any order, overlapping, repeated or in pieces,
-- on a queue that has none of it yet: they complete the object exactly if every byte of it is in one of the
-- ranges. If they complete it, the head of the queue moves on by one object and the generation by one, and if
-- not, both stay; the handles stay in either case.
pub acknowledge_all-completes :
    (handles : List ℕ) (head generation offset len : ℕ) (acks : List (ℕ × ℕ)) (object_size : ℕ)
    → object_size < 2 ^ 64
    → let r =
        acknowledge_all
          (record { handles = handles; head = head; generation = generation; delivered = [] })
          ((offset, len) ∷ acks)
          object_size in
      ((r.1 ≡ true)
        ↔ ((x : ℕ) → x < object_size → acknowledged ((offset, len) ∷ acks) object_size x ≡ true))
      × (r.0.head ≡ (if r.1 then head + 1 else head))
      × (r.0.generation ≡ (if r.1 then (generation + 1) % 2 ^ 64 else generation))
      × (r.0.handles ≡ handles)
unfolding Acknowledges
acknowledge_all-completes handles head generation offset len acks size l =
    let q : CameraInitiatedQueue = record {
      handles = handles;
      head = head;
      generation = generation;
      delivered = [];
    } in
    let lem = acknowledge_all_lem q offset len acks size l tt in
    let moved = acknowledge_all-Moves q ((offset, len) ∷ acks) size in
    (
      (λ e x m. ground (arith, lem.0 e x m), λ w. lem.1 (λ x m. ground (arith, w x m))),
      moved.0,
      moved.1,
      moved.2,
    )
