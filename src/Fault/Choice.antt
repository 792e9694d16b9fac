-- ===== src/Fault/Choice.antt =====
-- crates/camera-sim/src/fault.rs: `apply` against a description without indices.
use ptpsim.Prelude.{
  ℕ, suc, ◌+◌, ◌≡◌, refl, ap, List, [], ◌∷◌, Option, none, some, Bool, true, false, ◌&&◌,
  if◌then◌else◌, arith, Bool-cases, inl, inr,
}
use native.Mathlib.Nat.{zero-add, add-zero}
use ptpsim.Fault.Types.{FaultRule, AppliedFault, saturating_add, armed}
use ptpsim.Fault.Set.{
  FaultSet, selects, visit, scan, get_elem?, set_elem, applied_of, application_of, apply,
}

-- The rule is for the transaction, and armed.
abbrev pub fires : (code : ℕ) → List ℕ → FaultRule → Bool
fires code params rule = selects rule code params && armed rule.selector rule.seen

-- The first rule that fires.
abbrev pub first_firing : (code : ℕ) → List ℕ → List FaultRule → Option FaultRule
first_firing code params [] = none
first_firing code params (rule ∷ rules) =
    let later = first_firing code params rules in
    if fires code params rule then some rule else later

abbrev pub seen_once : FaultRule → FaultRule
seen_once rule = record rule { seen = saturating_add 32 rule.seen 1 }

-- A rule that has seen the transaction, if it is for it.
abbrev pub noticed : (code : ℕ) → List ℕ → FaultRule → FaultRule
noticed code params rule = if selects rule code params then seen_once rule else rule

abbrev pub credited : FaultRule → FaultRule
credited rule = record rule { applied = saturating_add 32 rule.applied 1 }

-- Every rule for the transaction has seen it, and the first that fires is credited.
abbrev pub all_noticed : (code : ℕ) → List ℕ → List FaultRule → List FaultRule
all_noticed code params [] = []
all_noticed code params (rule ∷ rules) = noticed code params rule ∷ all_noticed code params rules

abbrev pub after_transaction : (code : ℕ) → List ℕ → List FaultRule → List FaultRule
after_transaction code params [] = []
after_transaction code params (rule ∷ rules) =
    let later = after_transaction code params rules in
    if fires code params rule
    then credited (noticed code params rule) ∷ all_noticed code params rules
    else noticed code params rule ∷ later

-- The whole set after a transaction, by the rule that fires first.
abbrev pub described :
    FaultSet → (code : ℕ) → List ℕ → Option FaultRule → FaultSet × Option AppliedFault
described s code params none =
    (record s { rules = all_noticed code params s.rules; applied_mutation = none }, none)
described s code params (some rule) = (
  record s {
    rules = after_transaction code params s.rules;
    last_applied = some (application_of rule code params);
    applied_mutation = some rule.mutation;
  },
  some (applied_of rule),
)

module _ (code : ℕ) (params : List ℕ) where
  visit_chosen :
      (chosen i : ℕ) (rule : FaultRule)
      → visit (selects rule code params) code (some chosen) i rule
        ≡ (noticed code params rule, some chosen)
  visit_chosen chosen i rule = elim (Bool-cases (selects rule code params)) [
    | inl p ↦ rw p refl
    | inr p ↦ rw p refl
  ]

  visit_silent :
      (i : ℕ) (rule : FaultRule)
      → fires code params rule ≡ false
      → visit (selects rule code params) code none i rule ≡ (noticed code params rule, none)
  visit_silent i rule h = elim (Bool-cases (selects rule code params)) [
    | inl p ↦ let q : armed rule.selector rule.seen ≡ false = rw p at h in rw (p, q) refl
    | inr p ↦ rw p refl
  ]

  visit_firing :
      (i : ℕ) (rule : FaultRule)
      → fires code params rule ≡ true
      → (visit (selects rule code params) code none i rule ≡ (seen_once rule, some i))
        × (noticed code params rule ≡ seen_once rule)
  visit_firing i rule h =
      let both : (selects rule code params ≡ true) × (armed rule.selector rule.seen ≡ true) =
        ground arith in
      (rw (both.0, both.1) refl, rw both.0 refl)

  scan_chosen :
      (chosen i : ℕ) (rules : List FaultRule)
      → scan code params (some chosen) i rules ≡ (all_noticed code params rules, some chosen)
  scan_chosen chosen i [] = refl
  scan_chosen chosen i (rule ∷ rules) =
      rw (visit_chosen chosen i rule, scan_chosen chosen (suc i) rules) refl

  -- Where the loop finds the rule that fires first, if there is one.
  data Found (rules : List FaultRule) : Type 0 where
    nowhere :
        first_firing code params rules ≡ none
        → ((i : ℕ) → scan code params none i rules ≡ (all_noticed code params rules, none))
        → Found rules
    at :
        (k : ℕ) (rule : FaultRule)
        → first_firing code params rules ≡ some rule
        → ((i : ℕ) → scan code params none i rules ≡ (all_noticed code params rules, some (i + k)))
        → get_elem? (all_noticed code params rules) k ≡ some (seen_once rule)
        → set_elem (all_noticed code params rules) k (credited (seen_once rule))
          ≡ after_transaction code params rules
        → Found rules

  found : (rules : List FaultRule) → Found rules
  found [] = nowhere refl (λ i. refl)
  found (rule ∷ rules) = elim (Bool-cases (fires code params rule)) [
    | inl p ↦
        let n = (visit_firing 0 rule p).1 in
        at 0 rule (rw p refl)
          (λ i.
            rw ((visit_firing i rule p).0, scan_chosen i (suc i) rules) (rw (n, add-zero i) refl))
          (rw n refl) (rw (p, n) refl)
    | inr p ↦ later rule p (found rules)
  ]
    where
      next : (i k : ℕ) → suc i + k ≡ i + suc k
      next i k = omega arith

      later :
          {rules : List FaultRule} (rule : FaultRule)
          → fires code params rule ≡ false
          → Found rules
          → Found (rule ∷ rules)
      later rule p (nowhere first_firing-none scanned) =
          nowhere (rw (p, first_firing-none) refl)
            (λ i. rw (visit_silent i rule p, scanned (suc i)) refl)
      later {rules} rule p (at k r first scanned got put) =
          at (suc k) r (rw (p, first) refl)
            (λ i.
              rw (visit_silent i rule p, scanned (suc i))
                (ap (λ j. (noticed code params rule ∷ all_noticed code params rules, some j))
                  (next i k)))
            got (rw (p, put) refl)

-- Each transaction counts for every rule that is for it, and the first armed one of them alone is
-- applied, recorded and handed out: `apply` does what this description says, in every field.
pub apply-described :
    (s : FaultSet) (code : ℕ) (params : List ℕ)
    → apply s code params ≡ described s code params (first_firing code params s.rules)
unfolding apply
apply-described s code params = elim (found code params s.rules) [
  | nowhere first_firing-none scanned ↦ rw (first_firing-none, scanned 0) refl
  | at k rule first scanned got put ↦ rw (first, scanned 0, zero-add k, got, put) refl
]
