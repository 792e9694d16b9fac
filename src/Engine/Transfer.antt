-- ===== src/Engine/Transfer.antt =====
-- crates/camera-sim/src/engine.rs: `TransferQueue`, the objects that a connection enumerates, which the
-- startup or the shutter makes available. `available` is the list of a `BTreeSet`.
use Prim.Native.String.{String}
use text.Mathlib.Text.{◌==◌ as str_eq}
use ptpsim.Prelude.{
  ℕ, zero, suc, ◌+◌, ◌-◌, ◌^◌, List, [], ◌∷◌, ◌++◌, Option, none, some, Result, ok, err, Bool, true,
  false, ◌||◌, ◌&&◌, not, ltb, leb, ◌==◌, if◌then◌else◌, min, length, take, drop,
}
use ptpsim.Packet.Types.{OperationRequest}
use ptpsim.State.Types.{CameraState, push_event_with_params}
use ptpsim.Engine.Receive.{get}
use ptpsim.Engine.Gates.{GateMatcher, send_op, Hits, hits_at}
pub mod Conserved
pub mod Enqueue
pub mod Kept
pub mod Once
pub mod Announced

unfoldable pub contains : List ℕ → ℕ → Bool
contains [] x = false
contains (y ∷ ys) x = (y == x) || contains ys x

unfoldable pub insert_handle : ℕ → List ℕ → List ℕ
unfolding contains
insert_handle x xs = if contains xs x then xs else x ∷ xs

unfoldable pub remove_handle : ℕ → List ℕ → List ℕ
remove_handle x [] = []
remove_handle x (y ∷ ys) = let rest = remove_handle x ys in if y == x then rest else y ∷ rest

pub record TransferQueue : Type 0 where
  pub connection : String
  pub handles : List ℕ
  pub available : List ℕ
  pub next_index : ℕ
  pub enqueue_per_shutter : ℕ
  pub shutter_sequence : Option (List GateMatcher)
  pub shutter_progress : ℕ
  pub shutter_busy_responses_remaining : ℕ
  pub completed : ℕ

-- `collect` into the set.
unfoldable pub collect : List ℕ → List ℕ
unfolding insert_handle
collect [] = []
collect (x ∷ xs) = insert_handle x (collect xs)

unfoldable pub startup_seeded : String → List ℕ → TransferQueue
unfolding collect
startup_seeded connection handles = record {
  connection = connection;
  handles = handles;
  available = collect handles;
  next_index = length handles;
  enqueue_per_shutter = 0;
  shutter_sequence = none;
  shutter_progress = 0;
  shutter_busy_responses_remaining = 0;
  completed = 0;
}

unfoldable pub shutter_seeded : String → List ℕ → ℕ → List GateMatcher → TransferQueue
shutter_seeded connection handles enqueue_per_shutter sequence = record {
  connection = connection;
  handles = handles;
  available = [];
  next_index = 0;
  enqueue_per_shutter = enqueue_per_shutter;
  shutter_sequence = some sequence;
  shutter_progress = 0;
  shutter_busy_responses_remaining = 0;
  completed = 0;
}

-- The handles that pass the filter, in their order.
abbrev pub available_of : List ℕ → List ℕ → List ℕ
available_of [] available = []
available_of (h ∷ hs) available =
    let rest = available_of hs available in if contains available h then h ∷ rest else rest

-- `TransferQueue::handles`.
unfoldable pub available_handles : TransferQueue → List ℕ
available_handles q = available_of q.handles q.available

unfoldable pub drain : TransferQueue → ℕ → TransferQueue × Bool
unfolding contains remove_handle
drain q handle =
    if contains q.available handle
    then (
      record q { available = remove_handle handle q.available; completed = q.completed + 1 },
      true,
    )
    else (record q { available = remove_handle handle q.available }, false)

-- The rounds of `enqueue_count`, as far as the handles last.
unfoldable pub enqueue_rounds : ℕ → TransferQueue → TransferQueue
unfolding insert_handle
enqueue_rounds zero q = q
enqueue_rounds (suc n) q = elim (get q.handles q.next_index) [
  | none ↦ q
  | some handle ↦
      enqueue_rounds n
        (record q { available = insert_handle handle q.available; next_index = q.next_index + 1 })
]

unfoldable pub enqueue_count : TransferQueue → ℕ → TransferQueue × ℕ
unfolding enqueue_rounds
enqueue_count q count =
    let t = enqueue_rounds count q in (t, length t.available - length q.available)

unfoldable pub enqueue_next : TransferQueue → TransferQueue
unfolding enqueue_count
enqueue_next q = (enqueue_count q q.enqueue_per_shutter).0

-- `pending_standard_object_enqueue` on the queue that is configured.
unfoldable pub pending_enqueue : TransferQueue → ℕ → ℕ
pending_enqueue q count = min count (length q.handles - q.next_index)

-- The progress of the shutter's sequence behind a request.
abbrev pub shutter_step : Hits → List GateMatcher → ℕ → ℕ
shutter_step hits sequence progress =
    if hits_at hits sequence progress
    then progress + 1
    else if hits_at hits sequence 0
    then 1
    else 0

-- One event of an added object for each of the handles.
abbrev pub announce : CameraState → List ℕ → CameraState
announce s [] = s
announce s (h ∷ hs) = announce (push_event_with_params s 0x4002 (h ∷ [])) hs

-- `handles[next_index - added..next_index]`.
abbrev pub newest : TransferQueue → ℕ → List ℕ
newest q added =
    take (q.next_index - (q.next_index - added)) (drop (q.next_index - added) q.handles)

-- The announcement of `added` objects. `announces` says whether the manifest has the event 0x4002.
unfoldable pub announce_added : Bool → CameraState → ℕ → TransferQueue → CameraState
announce_added announces s added q =
    if ltb 0 added && announces then announce s (newest q added) else s

-- What completing the shutter's sequence does.
unfoldable pub complete_shutter : Bool → TransferQueue → CameraState → TransferQueue × CameraState
unfolding enqueue_next announce_added
complete_shutter announces q s =
    let t = enqueue_next (record q { shutter_progress = 0 }) in
    (t, announce_added announces s (length t.available - length q.available) t)

-- `advance_transfer_queue` on the shutter's sequence, if there is one.
unfoldable pub advance_shutter :
    Hits
    → Bool
    → TransferQueue
    → CameraState
    → Option (List GateMatcher)
    → TransferQueue × CameraState
unfolding complete_shutter
advance_shutter hits announces q s none = (q, s)
advance_shutter hits announces q s (some sequence) =
    let progress = shutter_step hits sequence q.shutter_progress in
    if leb (length sequence) progress
    then complete_shutter announces q s
    else (record q { shutter_progress = progress }, s)

-- `advance_transfer_queue` on the queue that is configured.
unfoldable pub advance_transfer_queue :
    Hits → Bool → TransferQueue → CameraState → TransferQueue × CameraState
unfolding advance_shutter
advance_transfer_queue hits announces q s = advance_shutter hits announces q s q.shutter_sequence
