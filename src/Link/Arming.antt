-- ===== src/Link/Arming.antt =====
-- crates/camera-sim/src/link.rs: when the session is armed, by the calls that were made.
use ptpsim.Prelude.{◌≡◌, refl, ◌∙◌, List, [], ◌∷◌, ◌++◌, Bool, true, false, ◌||◌, arith}
use ptpsim.Link.State.{
  CameraLink, default, is_armed, Call, prep_write, launch, name_write, step, run,
}

-- Whether a call of a kind was made.
abbrev pub has_prep : List Call → Bool
has_prep [] = false
has_prep (prep_write ∷ calls) = true
has_prep (launch ∷ calls) = has_prep calls
has_prep (name_write name ∷ calls) = has_prep calls

abbrev pub has_launch : List Call → Bool
has_launch [] = false
has_launch (launch ∷ calls) = true
has_launch (prep_write ∷ calls) = has_launch calls
has_launch (name_write name ∷ calls) = has_launch calls

run-append : (link : CameraLink) (xs ys : List Call) → run link (xs ++ ys) ≡ run (run link xs) ys
unfolding run
run-append link [] ys = refl
run-append link (x ∷ xs) ys = run-append (step link x) xs ys

run-prep_written :
    (link : CameraLink) (calls : List Call)
    → (run link calls).prep_written ≡ link.prep_written || has_prep calls
unfolding run
run-prep_written link [] = ground arith
run-prep_written link (prep_write ∷ calls) =
    run-prep_written (step link prep_write) calls ∙ ground arith
run-prep_written link (launch ∷ calls) = run-prep_written (step link launch) calls
run-prep_written link (name_write name ∷ calls) =
    run-prep_written (step link (name_write name)) calls

run-armed :
    (link : CameraLink) (calls : List Call)
    → has_launch calls ≡ false
    → (run link calls).armed ≡ link.armed
unfolding run
run-armed link [] h = refl
run-armed link (prep_write ∷ calls) h = run-armed (step link prep_write) calls h
run-armed link (launch ∷ calls) h = absurd (cc h)
run-armed link (name_write name ∷ calls) h = run-armed (step link (name_write name)) calls h

-- As long as no access point was launched the session is armed. Behind the last launch it is armed
-- exactly if a preparing write came before that launch, whatever is written after it.
pub run-is_armed :
    (before after : List Call)
    → has_launch after ≡ false
    → (is_armed (run default after) ≡ true)
      × (is_armed (run default (before ++ (launch ∷ after))) ≡ has_prep before)
unfolding run
run-is_armed before after h = (
  run-armed default after h,
  rw (run-append default before (launch ∷ after))
      (run-armed (step (run default before) launch) after h ∙ run-prep_written default before),
)
