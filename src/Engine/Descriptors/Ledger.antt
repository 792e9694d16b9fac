-- ===== src/Engine/Descriptors/Ledger.antt =====
-- crates/camera-sim/src/engine.rs: the counters of the auxiliary descriptors against a ledger of the
-- descriptors that are open.
use mathlib.Core.Path.{subst}
use ptpsim.Prelude.{
  ℕ, ◌+◌, ◌-◌, ◌≤◌, ◌≡◌, refl, sym, Option, none, some, Bool, true, false, ◌||◌, ◌&&◌, leb, ltb,
  ◌==◌, if◌then◌else◌, List, [], ◌∷◌, arith,
}
use ptpsim.Engine.Descriptors.{
  Descriptors, new, ap_should_refuse, aux_available, aux_orphan_leak, aux_managed_open,
  aux_managed_close, aux_reset_state, value_or, apply_state_overlay, Call, refusing, leaking,
  opening, closing, resetting, overlaying, run_call, run,
}

-- The descriptors that are open: those that leaked, which only a reset gives back, and those of the
-- managed connections.
pub record Ledger : Type 0 where
  pub budget : Option ℕ
  pub orphans : ℕ
  pub managed : ℕ

abbrev pub empty : Ledger
empty = record { budget = none; orphans = 0; managed = 0 }

abbrev pub in_use : Ledger → ℕ
in_use l = l.orphans + l.managed

-- One more descriptor is within the budget.
abbrev pub has_room : Ledger → Bool
has_room l = elim l.budget [ none ↦ false | some b ↦ ltb (in_use l) b ]

-- The budget behind an overlay.
abbrev budget_of : Option ℕ → Option ℕ → Option ℕ
budget_of old none = old
budget_of old (some b) = some b

-- A call that the budget, or what is open, does not allow is not entered.
unfoldable pub enter : Ledger → Call → Ledger
enter l refusing = l
enter l leaking = if has_room l then record l { orphans = l.orphans + 1 } else l
enter l opening = if has_room l then record l { managed = l.managed + 1 } else l
enter l closing = if l.managed == 0 then l else record l { managed = l.managed - 1 }
enter l resetting = record l { orphans = 0; managed = 0 }
enter l (overlaying o) =
    if value_or false o.aux_reset
    then record { budget = budget_of l.budget o.aux_descriptor_budget; orphans = 0; managed = 0 }
    else record l { budget = budget_of l.budget o.aux_descriptor_budget }

unfoldable pub enter_all : Ledger → List Call → Ledger
unfolding enter
enter_all l [] = l
enter_all l (c ∷ cs) = enter_all (enter l c) cs

-- An overlay that sets a budget sets it to what is open or more, or closes everything.
abbrev pub is_wide : Ledger → Call → Bool
is_wide l (overlaying o) =
    elim o.aux_descriptor_budget [ none ↦ true | some b ↦ leb (in_use l) b ]
    || value_or false o.aux_reset
is_wide l _ = true

unfoldable pub all_wide : Ledger → List Call → Bool
unfolding enter
all_wide l [] = true
all_wide l (c ∷ cs) = is_wide l c && all_wide (enter l c) cs

-- No more is open than the budget allows; without a budget nothing is.
abbrev pub IsWithin : Ledger → Type 0
IsWithin l = elim l.budget [ none ↦ in_use l ≡ 0 | some b ↦ in_use l ≤ b ]

-- What the budget leaves.
abbrev pub left_of : Ledger → Option ℕ
left_of l = elim l.budget [ none ↦ none | some b ↦ some (b - in_use l) ]

-- The counters say what is open.
abbrev pub Counts : Descriptors → Ledger → Type 0
Counts d l =
    (d.aux_descriptor_budget ≡ l.budget)
    × (d.aux_descriptor_used ≡ in_use l)
    × (d.aux_managed_used ≡ l.managed)

-- The descriptors with the counters of a ledger.
abbrev counted : Descriptors → Ledger → Descriptors
counted d l = record d {
  aux_descriptor_budget = l.budget;
  aux_descriptor_used = in_use l;
  aux_managed_used = l.managed;
}

Counts-counted : (d : Descriptors) (l : Ledger) → Counts d l → counted d l ≡ d
Counts-counted d l h i = record d {
  aux_descriptor_budget = sym h.0 i;
  aux_descriptor_used = sym h.1 i;
  aux_managed_used = sym h.2 i;
}

-- Each call on counters that say what is open.
call-Counts :
    (d : Descriptors) (l : Ledger) (c : Call)
    → is_wide l c ≡ true
    → IsWithin l
    → Counts (run_call (counted d l) c) (enter l c) × IsWithin (enter l c)
unfolding run_call enter ap_should_refuse aux_orphan_leak aux_managed_open aux_managed_close
    aux_reset_state apply_state_overlay
call-Counts d l refusing w h = ground (arith, h)
call-Counts d l leaking w h = ground (arith, h)
call-Counts d l opening w h = ground (arith, h)
call-Counts d l closing w h = ground (arith, h)
call-Counts d l resetting w h = ground (arith, h)
call-Counts d l (overlaying o) w h = ground (arith, w, h)

run-Counts :
    (d : Descriptors) (l : Ledger) (cs : List Call)
    → all_wide l cs ≡ true
    → Counts d l
    → IsWithin l
    → Counts (run d cs) (enter_all l cs) × IsWithin (enter_all l cs)
unfolding run enter_all all_wide
run-Counts d l [] w c h = (c, h)
run-Counts d l (k ∷ cs) w c h =
    let wide : (is_wide l k ≡ true) × (all_wide (enter l k) cs ≡ true) = ground (arith, w) in
    let (counts, within) = call-Counts d l k wide.0 h in
    run-Counts (run_call d k) (enter l k) cs wide.1
      (subst (λ e. Counts (run_call e k) (enter l k)) (Counts-counted d l c) counts) within

-- However descriptors are leaked, opened and closed, reset and given other budgets, as long as no budget is set
-- below what is open without closing everything: the counters are those of a ledger that enters what is opened
-- exactly if it is within the budget and takes out what is closed; what the ledger has open is within the budget,
-- and nothing is open without one; and what the engine calls available is the rest of the budget.
pub run-IsKept :
    (cs : List Call)
    → all_wide empty cs ≡ true
    → let d = run new cs in
      let l = enter_all empty cs in Counts d l × IsWithin l × (aux_available d ≡ left_of l)
unfolding aux_available
run-IsKept cs w =
    let (counts, within) = run-Counts new empty cs w (refl, refl, refl) refl in
    (
      counts,
      within,
      subst (λ e. aux_available e ≡ left_of (enter_all empty cs))
          (Counts-counted (run new cs) (enter_all empty cs) counts) refl,
    )
