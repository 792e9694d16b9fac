-- ===== src/Tests/Descriptors.antt =====
-- crates/camera-sim/src/engine.rs: the auxiliary descriptors, at concrete calls.
use ptpsim.Prelude.{◌≡◌, refl, List, [], ◌∷◌, none, some, nat_key}
use ptpsim.Engine.Descriptors
use ptpsim.Engine.Descriptors.{Call, Descriptors, leaking, opening, closing, overlaying}
use ptpsim.Engine.Descriptors.Ledger.{
  Counts, IsWithin, empty, enter_all, all_wide, left_of, run-IsKept,
}

abbrev shrinking : Descriptors.Overlay
shrinking = record {
  ap_act_short_latch = none;
  ap_held_term = none;
  aux_descriptor_budget = some 1;
  aux_reset = none;
}

abbrev growing : Descriptors.Overlay
growing = record {
  ap_act_short_latch = none;
  ap_held_term = none;
  aux_descriptor_budget = some 3;
  aux_reset = none;
}

abbrev session : List Call
session = overlaying growing ∷ opening ∷ opening ∷ opening ∷ overlaying shrinking ∷ closing ∷ []

-- Two of three are open when the budget is set to two, and one more is refused.
abbrev steady : List Call
steady =
    overlaying growing
    ∷ opening
    ∷ leaking
    ∷ opening
    ∷ closing
    ∷ overlaying (record growing { aux_descriptor_budget = some 2 })
    ∷ opening
    ∷ []

run-IsKept_example :
    let d = Descriptors.run Descriptors.new steady in
    let l = enter_all empty steady in
    Counts d l × IsWithin l × (Descriptors.aux_available d ≡ left_of l)
unfolding all_wide
run-IsKept_example = run-IsKept steady refl

steady_open : (Descriptors.run Descriptors.new steady).aux_descriptor_used ≡ 2
unfolding Descriptors.run Descriptors.run_call Descriptors.aux_managed_close
    Descriptors.aux_orphan_leak Descriptors.apply_state_overlay Descriptors.aux_managed_open
steady_open = refl

-- Two of three managed descriptors are still open, and none counts as used.
shrunk_budget_forgets :
    ((Descriptors.run Descriptors.new session).aux_managed_used ≡ 2)
    × ((Descriptors.run Descriptors.new session).aux_descriptor_used ≡ 0)
unfolding Descriptors.run Descriptors.run_call Descriptors.aux_managed_close
    Descriptors.apply_state_overlay Descriptors.aux_managed_open
shrunk_budget_forgets = (refl, refl)
