-- ===== src/Tests/Links.antt =====
-- crates/camera-sim/src/link.rs at concrete calls.
use ptpsim.Prelude.{◌≡◌, refl, [], ◌∷◌, false}
use ptpsim.Link.State.{default, is_armed, prep_write, launch, name_write, run}

-- A preparing write behind the launch comes too late.
late_prep : is_armed (run default (name_write [] ∷ launch ∷ prep_write ∷ [])) ≡ false
unfolding run
late_prep = refl
