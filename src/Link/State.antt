-- ===== src/Link/State.antt =====
-- crates/camera-sim/src/link.rs: `CameraLink`. A `&self` method that stores into an atomic or behind
-- the mutex returns the new state; sequential consistency makes any interleaving a list of calls.
use ptpsim.Prelude.{List, [], ◌∷◌, Option, none, some, Bool, true, false}
use ptpsim.Wire.Utf16.{Text}

pub record CameraLink : Type 0 where
  pub prep_written : Bool
  pub armed : Bool
  pub device_name : Option Text

abbrev pub default : CameraLink
default = record { prep_written = false; armed = true; device_name = none }

unfoldable pub note_prep_write : CameraLink → CameraLink
note_prep_write link = record link { prep_written = true }

unfoldable pub launch_ap : CameraLink → CameraLink
launch_ap link = record link { armed = link.prep_written }

abbrev pub is_armed : CameraLink → Bool
is_armed link = link.armed

unfoldable pub note_device_name : CameraLink → Text → CameraLink
note_device_name link name = record link { device_name = some name }

-- A call of a method that changes the link.
pub data Call : Type 0 where
  prep_write launch : Call
  name_write : (name : Text) → Call

unfoldable pub step : CameraLink → Call → CameraLink
unfolding note_prep_write launch_ap note_device_name
step link prep_write = note_prep_write link
step link launch = launch_ap link
step link (name_write name) = note_device_name link name

unfoldable pub run : CameraLink → List Call → CameraLink
unfolding step
run link [] = link
run link (call ∷ calls) = run (step link call) calls
