-- ===== src/Engine/Receive/Tokens.antt =====
-- crates/camera-sim/src/engine.rs: `complete_stream`, which acknowledges what a transport has written, and
-- the property that counts the objects that are left. Of the manifest: the properties, and the code of the
-- count's member where a camera-initiated transfer is declared.
use ptpsim.Prelude.{
  ℕ, ◌-◌, ◌^◌, Option, none, some, Bool, true, false, ◌&&◌, ◌==◌, if◌then◌else◌, min, insert,
  nat_key,
}
use Prim.Native.String.{String}
use ptpsim.Wire.Bytes.{pos}
use ptpsim.Wire.Utf16.{Text}
use ptpsim.Manifest.HexCode.{parse_hex_code}
use ptpsim.Manifest.Property.{Properties, property}
use ptpsim.State.Types.{CameraState}
use ptpsim.State.Typed.{datatype_of, typed}
use ptpsim.Engine.Receive.{CameraInitiatedQueue, head_handle, remaining, acknowledge}

pub record StreamCompletion : Type 0 where
  pub generation : ℕ
  pub handle : ℕ
  pub offset : ℕ
  pub len : ℕ
  pub object_size : ℕ

-- The fields of `Engine` that a completion reads and changes.
pub record Receiver : Type 0 where
  pub properties : Properties
  pub count_member : Option Text
  pub queue : Option CameraInitiatedQueue
  pub state : CameraState

-- `property(code).and_then(|property| property.ptype)`.
abbrev pub ptype_of : Properties → ℕ → Option String
ptype_of m code = elim (property m code) [ none ↦ none | some p ↦ p.ptype ]

-- `u32::try_from(remaining).unwrap_or(u32::MAX)`.
abbrev pub count_of : CameraInitiatedQueue → ℕ
count_of q = min (remaining q) (2 ^ 32 - 1)

unfoldable pub insert_count : Receiver → ℕ → CameraInitiatedQueue → CameraState
insert_count r code q = record r.state {
  props =
      insert code (typed (datatype_of (ptype_of r.properties code)) (pos (count_of q)))
        r.state.props;
}

-- The code of the count, where the manifest has one that can be read.
abbrev pub count_code : Receiver → Option ℕ
count_code r = elim r.count_member [ none ↦ none | some member ↦ parse_hex_code member ]

unfoldable pub sync_counts : Receiver → Option ℕ → Option CameraInitiatedQueue → Receiver
unfolding insert_count
sync_counts r none q = r
sync_counts r (some code) none = r
sync_counts r (some code) (some q) = record r { state = insert_count r code q }

unfoldable pub sync_camera_initiated_counts : Receiver → Receiver
unfolding sync_counts
sync_camera_initiated_counts r = sync_counts r (count_code r) r.queue

-- `queue.head() != Some(handle)`, negated.
abbrev pub is_head : Option ℕ → ℕ → Bool
is_head none handle = false
is_head (some h) handle = h == handle

-- `complete_stream` on the queue that there is, behind its guard.
unfoldable pub advance : Receiver → CameraInitiatedQueue × Bool → Receiver × Bool
advance r (q, advanced) =
    if advanced
    then (sync_camera_initiated_counts (record r { queue = some q }), true)
    else (record r { queue = some q }, false)

unfoldable pub complete_on : Receiver → CameraInitiatedQueue → StreamCompletion → Receiver × Bool
unfolding advance
complete_on r q c =
    if (q.generation == c.generation) && is_head (head_handle q) c.handle
    then advance r (acknowledge q c.offset c.len c.object_size)
    else (r, false)

unfoldable pub complete_stream : Receiver → StreamCompletion → Receiver × Bool
unfolding complete_on
complete_stream r c = elim r.queue [ none ↦ (r, false) | some q ↦ complete_on r q c ]
