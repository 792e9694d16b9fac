-- ===== src/Engine/Receive/Once.antt =====
-- crates/camera-sim/src/engine.rs: an object of the camera's queue is acknowledged once.
use ptpsim.Prelude.{
  ℕ, zero, suc, ◌+◌, ◌%◌, ◌^◌, ◌<◌, ◌≡◌, ◌≢◌, refl, ap, ◌∙◌, List, [], ◌∷◌, Option, none, some,
  true, false, ◌==◌, length, arith, Bool-cases, inl, inr, ==_iff, lookup, lookup-insert, nat_key,
  same_self, ne→==,
}
use ptpsim.Wire.Bytes.{pos}
use ptpsim.Wire.Utf16.{Text}
use ptpsim.Manifest.Property.{Properties}
use ptpsim.State.Types.{CameraState}
use ptpsim.State.Typed.{datatype_of, typed}
use ptpsim.Engine.Receive.{
  CameraInitiatedQueue, head_handle, remaining, acknowledge, get, deliver, is_complete,
}
use ptpsim.Engine.Receive.Tokens.{
  StreamCompletion, Receiver, ptype_of, count_of, insert_count, count_code, sync_counts,
  sync_camera_initiated_counts, is_head, advance, complete_on, complete_stream,
}

abbrev pub receiver : Properties → Option Text → CameraInitiatedQueue → CameraState → Receiver
receiver m member q s = record { properties = m; count_member = member; queue = some q; state = s }

-- The queue behind its head.
abbrev pub next : CameraInitiatedQueue → CameraInitiatedQueue
next q = record q { head = q.head + 1; generation = (q.generation + 1) % 2 ^ 64; delivered = [] }

acknowledge-next :
    (q : CameraInitiatedQueue) (offset len object_size : ℕ)
    → (acknowledge q offset len object_size).1 ≡ true
    → acknowledge q offset len object_size ≡ (next q, true)
unfolding acknowledge
acknowledge-next q offset len size e =
    elim (Bool-cases (is_complete (deliver q.delivered offset len size) size)) [
      | inl p ↦ rw p refl
      | inr p ↦ absurd (ground (arith, p, e))
    ]

is_head_lem : (o : Option ℕ) (handle : ℕ) → is_head o handle ≡ true → o ≡ some handle
is_head_lem none handle e = absurd (ground (arith, e))
is_head_lem (some h) handle e = ap (λ x. some x) ((==_iff h handle).0 e)

-- The state behind an advance.
abbrev settled : Properties → Option Text → CameraInitiatedQueue → CameraState → Receiver
settled m member q s =
    sync_counts (receiver m member (next q) s) (count_code (receiver m member (next q) s))
      (some (next q))

-- What a completion that is accepted was for, and what it leaves.
record Accepted (m : Properties) (member : Option Text) (q : CameraInitiatedQueue) (s : CameraState)
    (c : StreamCompletion) : Type 0 where
  current : q.generation ≡ c.generation
  of_head : head_handle q ≡ some c.handle
  leaves : complete_stream (receiver m member q s) c ≡ (settled m member q s, true)

accepted :
    (m : Properties) (member : Option Text) (q : CameraInitiatedQueue) (s : CameraState)
    (c : StreamCompletion)
    → (complete_stream (receiver m member q s) c).1 ≡ true
    → Accepted m member q s c
unfolding complete_stream complete_on advance sync_camera_initiated_counts
accepted m member q s c e = elim (Bool-cases (q.generation == c.generation)) [
  | inr p ↦ absurd (ground (arith, p, e))
  | inl p ↦ elim (Bool-cases (is_head (head_handle q) c.handle)) [
    | inr k ↦ absurd (ground (arith, p, k, e))
    | inl k ↦ elim (Bool-cases (acknowledge q c.offset c.len c.object_size).1) [
      | inr a ↦ absurd (ground (arith, p, k, a, e))
      | inl a ↦ record {
        current = (==_iff q.generation c.generation).0 p;
        of_head = is_head_lem (head_handle q) c.handle k;
        leaves = rw (p, k, acknowledge-next q c.offset c.len c.object_size a) refl;
      }
    ]
  ]
]

sync_counts-queue :
    (r : Receiver) (o : Option ℕ) (q : CameraInitiatedQueue)
    → (sync_counts r o (some q)).queue ≡ r.queue
unfolding sync_counts
sync_counts-queue r none q = refl
sync_counts-queue r (some code) q = refl

-- A completion of another generation is ignored.
complete_stream-stale :
    (r : Receiver) (q : CameraInitiatedQueue) (c : StreamCompletion)
    → r.queue ≡ some q
    → q.generation ≢ c.generation
    → complete_stream r c ≡ (r, false)
unfolding complete_stream complete_on
complete_stream-stale r q c e n = rw (e, ne→== q.generation c.generation n) refl

get-lt : (xs : List ℕ) (i x : ℕ) → get xs i ≡ some x → i < length xs
get-lt [] zero x e = absurd (ground (arith, e))
get-lt [] (suc i) x e = absurd (ground (arith, e))
get-lt (y ∷ xs) zero x e = omega arith
get-lt (y ∷ xs) (suc i) x e = omega (arith, get-lt xs i x e)

-- A completion that is accepted was of the queue's generation and of the object at its head. It
-- moves the head on by one object; one object less remains; the count that the manifest declares shows what remains;
-- and the same completion a second time changes nothing.
pub complete_stream-once :
    (m : Properties) (member : Option Text) (q : CameraInitiatedQueue) (s : CameraState)
    (c : StreamCompletion)
    → q.generation < 2 ^ 64
    → (complete_stream (receiver m member q s) c).1 ≡ true
    → (q.generation ≡ c.generation)
      × (head_handle q ≡ some c.handle)
      × ((complete_stream (receiver m member q s) c).0.queue ≡ some (next q))
      × (remaining (next q) + 1 ≡ remaining q)
      × ((code : ℕ)
          → count_code (receiver m member q s) ≡ some code
          → lookup code (complete_stream (receiver m member q s) c).0.state.props
            ≡ some (typed (datatype_of (ptype_of m code)) (pos (count_of (next q)))))
      × (complete_stream (complete_stream (receiver m member q s) c).0 c
          ≡ ((complete_stream (receiver m member q s) c).0, false))
unfolding remaining head_handle sync_counts insert_count
complete_stream-once m member q s c l e =
    let a = accepted m member q s c e in
    let queue =
      sync_counts-queue (receiver m member (next q) s) (count_code (receiver m member q s))
        (next q) in
    (
      a.current,
      a.of_head,
      rw a.leaves queue,
      omega (arith, get-lt q.handles q.head c.handle a.of_head),
      λ code k. rw (a.leaves, k) (lookup-insert code code _ s.props ∙ rw (same_self code) refl),
      rw a.leaves (
          complete_stream-stale (settled m member q s) (next q) c queue
            (λ g. omega (arith, g, a.current, l))),
    )
