-- ===== src/Engine/Receive/Delivery.antt =====
-- crates/camera-sim/src/engine.rs: when the head of the camera's queue advances.
use ptpsim.Prelude.{
  ℕ, ◌+◌, ◌^◌, ◌<◌, ◌≡◌, ◌↔◌, refl, sym, ◌∙◌, List, [], ◌∷◌, Bool, true, false, ◌||◌, leb, ◌==◌,
  if◌then◌else◌, arith, Bool-cases, inl, inr,
}
use ptpsim.Engine.Receive.{
  Range, CameraInitiatedQueue, deliver, first_covers, is_complete, acknowledge,
}
use ptpsim.Engine.Receive.Ranges.{
  in_range, covers, StartsBehind, IsSeparated, is_asked, deliver-IsSeparated, covers-deliver,
}

-- Every byte of the object.
abbrev pub Whole : ℕ → (ℕ → Bool) → Type 0
Whole object_size f = (x : ℕ) → x < object_size → f x ≡ true

behind_false : (rs : List Range) (x : ℕ) → IsSeparated rs → StartsBehind x rs → covers rs x ≡ false
behind_false [] x h k = refl
behind_false ((s, e) ∷ rs) x h k =
    rw (before x s e k) (behind_false rs x h.2 (later rs e h.1 (omega (arith, h.0, k))))
  where
    before : (x s e : ℕ) → x < s → in_range x (s, e) ≡ false
    before x s e l = ground arith

    later : (qs : List Range) (y : ℕ) → StartsBehind y qs → x < y → StartsBehind x qs
    later [] y g l = tt
    later ((a, b) ∷ qs) y g l = omega (arith, g, l)

-- The first range covers the object exactly if all of the ranges together do.
pub is_complete_lem :
    (rs : List Range) (object_size : ℕ)
    → IsSeparated rs
    → (is_complete rs object_size ≡ true) ↔ Whole object_size (covers rs)
unfolding first_covers
is_complete_lem [] size h = (
  λ e x l. ground arith,
  λ w. elim (Bool-cases (size == 0)) [
    | inl p ↦ rw p refl
    | inr p ↦ ground (arith, w 0 (ground arith))
  ],
)
is_complete_lem ((s, e) ∷ rs) size h = (
  λ c x l. ground (arith, c, l),
  λ w. elim (Bool-cases (size == 0)) [
    | inl p ↦ rw p refl
    | inr p ↦ elim (Bool-cases (s == 0)) [
      | inr q ↦
          absurd
            (ground (arith, p, q, w 0 (ground (arith, p)), behind_false rs 0 h.2 (nearer rs e h.1)))
      | inl q ↦ elim (Bool-cases (leb size e)) [
        | inl r ↦ rw (p, q, r) refl
        | inr r ↦
            absurd (ground (arith, p, q, r, w e (ground (arith, r)), behind_false rs e h.2 h.1))
      ]
    ]
  ],
)
  where
    nearer : (qs : List Range) (y : ℕ) → StartsBehind y qs → StartsBehind 0 qs
    nearer [] y g = tt
    nearer ((a, b) ∷ qs) y g = omega (arith, g)

-- One acknowledgement completes the object exactly if it and the earlier ones together reach every
-- byte; if not, they are remembered, and the head stays.
pub record Acknowledged (q : CameraInitiatedQueue) (offset len object_size : ℕ) : Type 0 where
  pub completes :
      ((acknowledge q offset len object_size).1 ≡ true)
      ↔ Whole object_size (λ x. is_asked offset len object_size x || covers q.delivered x)
  pub remembers :
      (acknowledge q offset len object_size).1 ≡ false
      → (x : ℕ)
      → covers (acknowledge q offset len object_size).0.delivered x
        ≡ (is_asked offset len object_size x || covers q.delivered x)
  pub head :
      (acknowledge q offset len object_size).0.head
      ≡ (if (acknowledge q offset len object_size).1 then q.head + 1 else q.head)
  pub separated : IsSeparated (acknowledge q offset len object_size).0.delivered

pub Whole-ext :
    (object_size : ℕ) (f g : ℕ → Bool)
    → ((x : ℕ) → f x ≡ g x)
    → Whole object_size f
    → Whole object_size g
Whole-ext size f g e w x l = sym (e x) ∙ w x l

pub acknowledge_lem :
    (q : CameraInitiatedQueue) (offset len object_size : ℕ)
    → object_size < 2 ^ 64
    → IsSeparated q.delivered
    → Acknowledged q offset len object_size
unfolding acknowledge
acknowledge_lem q offset len size l h =
    elim (Bool-cases (is_complete (deliver q.delivered offset len size) size)) [
      | inl p ↦ record {
        completes = rw p (λ e. Whole-ext size _ _ union (whole.0 p), λ w. refl);
        remembers = rw p (λ e. absurd (ground (arith, e)));
        head = rw p refl;
        separated = rw p tt;
      }
      | inr p ↦ record {
        completes = rw p (
          λ e. absurd (ground (arith, e)),
          λ w. ground (arith, p, whole.1 (Whole-ext size _ _ (λ x. sym (union x)) w)),
        );
        remembers = rw p (λ e. union);
        head = rw p refl;
        separated = rw p (deliver-IsSeparated q.delivered offset len size h);
      }
    ]
  where
    union :
        (x : ℕ)
        → covers (deliver q.delivered offset len size) x
          ≡ (is_asked offset len size x || covers q.delivered x)
    union x = covers-deliver q.delivered offset len size x l h

    whole :
        (is_complete (deliver q.delivered offset len size) size ≡ true)
        ↔ Whole size (covers (deliver q.delivered offset len size))
    whole =
        is_complete_lem (deliver q.delivered offset len size) size
          (deliver-IsSeparated q.delivered offset len size h)
