-- ===== src/Fault/Lowest.antt =====
-- crates/camera-sim/src/fault.rs: the lowest identifier wins, and what removing a rule leaves.
use ptpsim.Prelude.{
  ℕ, ◌+◌, ◌≤◌, ◌≡◌, refl, List, [], ◌∷◌, none, some, true, false, All, length, arith, Bool-cases,
  Option-cases, inl, inr, ◌⊎◌, ◌==◌,
}
use mathlib.Core.Path.{subst}
use ptpsim.Fault.Types.{FaultRule, AppliedFault}
use ptpsim.Fault.Set.{FaultSet, retain, names, remove, apply, applied_of}
use ptpsim.Fault.Choice.{fires, first_firing, apply-described}
use ptpsim.Fault.Registry.{Increasing, Reachable}
use ptpsim.Fault.Preserved.{registry-IsSound}

some_inj {ℓ} : {A : Type ℓ} {a b : A} → some a ≡ some b → a ≡ b
some_inj e = cc e

-- Whichever rule fires, the identifier is at most its own.
abbrev pub IsLeast : (code : ℕ) → List ℕ → ℕ → List FaultRule → Type 0
IsLeast code params id = All (λ rule. fires code params rule ≡ true → id ≤ rule.id)

all_above :
    (code : ℕ) (params : List ℕ) (id low : ℕ) (rules : List FaultRule) (high : ℕ)
    → id ≤ low
    → Increasing low rules high
    → IsLeast code params id rules
unfolding Increasing
all_above code params id low [] high l h = tt
all_above code params id low (rule ∷ rules) high l h = (
  (λ _. omega (arith, l, h.0)),
  all_above code params id (rule.id + 1) rules high (omega (arith, l, h.0)) h.1,
)

first-IsLeast :
    (code : ℕ) (params : List ℕ) (low : ℕ) (rules : List FaultRule) (high : ℕ) (first : FaultRule)
    → Increasing low rules high
    → first_firing code params rules ≡ some first
    → IsLeast code params first.id rules
unfolding Increasing
first-IsLeast code params low [] high first h e = tt
first-IsLeast code params low (rule ∷ rules) high first h e =
    elim (Bool-cases (fires code params rule)) [
      | inl p ↦
          let same : rule ≡ first = some_inj (rw p at e) in
          subst (λ x. IsLeast code params x.id (rule ∷ rules)) same
            (
              (λ _. omega arith),
              all_above code params rule.id (rule.id + 1) rules high (omega arith) h.1,
            )
      | inr p ↦ (
        (λ f. absurd (cc (f, p))),
        first-IsLeast code params (rule.id + 1) rules high first h.1 (rw p at e),
      )
    ]

first_firing-none :
    (code : ℕ) (params : List ℕ) (rules : List FaultRule)
    → first_firing code params rules ≡ none
    → All (λ rule. fires code params rule ≡ false) rules
first_firing-none code params [] e = tt
first_firing-none code params (rule ∷ rules) e = elim (Bool-cases (fires code params rule)) [
  | inl p ↦ absurd (cc (rw p at e))
  | inr p ↦ (p, first_firing-none code params rules (rw p at e))
]

-- A rule of the list.
abbrev pub Has : FaultRule → List FaultRule → Type 0
Has rule [] = ⊥
Has rule (x ∷ rules) = (x ≡ rule) ⊎ Has rule rules

first_firing-Has :
    (code : ℕ) (params : List ℕ) (rules : List FaultRule) (first : FaultRule)
    → first_firing code params rules ≡ some first
    → Has first rules × (fires code params first ≡ true)
first_firing-Has code params [] first e = absurd (cc e)
first_firing-Has code params (rule ∷ rules) first e = elim (Bool-cases (fires code params rule)) [
  | inl p ↦
      let same : rule ≡ first = some_inj (rw p at e) in
      (inl same, subst (λ x. fires code params x ≡ true) same p)
  | inr p ↦
      let later = first_firing-Has code params rules first (rw p at e) in (inr later.0, later.1)
]

-- The rule that a transaction's fault comes from: a rule of the registry that fires, and no rule that
-- fires has a lower identifier.
pub record IsWinner (s : FaultSet) (code : ℕ) (params : List ℕ) (a : AppliedFault) : Type 0 where
  pub rule : FaultRule
  pub listed : Has rule s.rules
  pub firing : fires code params rule ≡ true
  pub handed_out : applied_of rule ≡ a
  pub least : IsLeast code params rule.id s.rules

-- In a registry that its methods have built, the fault that a transaction gets is that of the firing
-- rule with the lowest identifier, and a transaction that gets none is one for which no rule fires.
pub apply-lowest :
    (s : FaultSet)
    → Reachable s
    → (code : ℕ) (params : List ℕ)
    → ((a : AppliedFault) → (apply s code params).1 ≡ some a → IsWinner s code params a)
      × ((apply s code params).1 ≡ none → All (λ rule. fires code params rule ≡ false) s.rules)
apply-lowest s r code params =
    rw (apply-described s code params) (elim (Option-cases (first_firing code params s.rules)) [
      | inl p ↦ rw p ((λ a e. absurd (cc e)), λ _. first_firing-none code params s.rules p)
      | inr (first, p) ↦ rw p ((λ a e. winner first p a (some_inj e)), λ e. absurd (cc e))
    ])
  where
    winner :
        (first : FaultRule)
        → first_firing code params s.rules ≡ some first
        → (a : AppliedFault) → applied_of first ≡ a
        → IsWinner s code params a
    winner first p a same =
        let found = first_firing-Has code params s.rules first p in
        record {
          rule = first;
          listed = found.0;
          firing = found.1;
          handed_out = same;
          least =
              first-IsLeast code params 1 s.rules s.next_id first (registry-IsSound s r).numbered p;
        }

retain_le : (id : ℕ) (rules : List FaultRule) → length (retain id rules) ≤ length rules
retain_le id [] = omega arith
retain_le id (rule ∷ rules) = elim (Bool-cases (rule.id == id)) [
  | inl p ↦ rw p (omega (arith, retain_le id rules))
  | inr p ↦ rw p (omega (arith, retain_le id rules))
]

retain_same :
    (id : ℕ) (rules : List FaultRule)
    → length rules ≡ length (retain id rules)
    → retain id rules ≡ rules
retain_same id [] h = refl
retain_same id (rule ∷ rules) h = elim (Bool-cases (rule.id == id)) [
  | inl p ↦ let g = rw p at h in absurd (omega (arith, g, retain_le id rules))
  | inr p ↦ let g = rw p at h in rw (p, retain_same id rules (omega (arith, g))) refl
]

retain-absent :
    (id : ℕ) (rules : List FaultRule) → All (λ rule. (rule.id == id) ≡ false) (retain id rules)
retain-absent id [] = tt
retain-absent id (rule ∷ rules) = elim (Bool-cases (rule.id == id)) [
  | inl p ↦ rw p (retain-absent id rules)
  | inr p ↦ rw p (p, retain-absent id rules)
]

-- `remove` leaves no rule with the identifier and changes no other; when it reports that it removed
-- nothing it has changed nothing at all, and when it reports that it removed a rule the record of the
-- last applied fault does not name that rule.
pub remove_lem :
    (s : FaultSet) (id : ℕ)
    → ((remove s id).0.rules ≡ retain id s.rules)
      × (All (λ rule. (rule.id == id) ≡ false) (remove s id).0.rules)
      × ((remove s id).1 ≡ false → (remove s id).0 ≡ s)
      × ((remove s id).1 ≡ true → names (remove s id).0.last_applied id ≡ false)
unfolding remove
remove_lem s id = (refl, retain-absent id s.rules, unchanged, forgotten)
  where
    unchanged : (remove s id).1 ≡ false → (remove s id).0 ≡ s
    unchanged e =
        let q : (length s.rules == length (retain id s.rules)) ≡ true = ground arith in
        let l : length s.rules ≡ length (retain id s.rules) = ground arith in
        rw (q, retain_same id s.rules l) refl

    forgotten : (remove s id).1 ≡ true → names (remove s id).0.last_applied id ≡ false
    forgotten e =
        let q : (length s.rules == length (retain id s.rules)) ≡ false = ground arith in
        elim (Bool-cases (names s.last_applied id)) [ inl p ↦ rw (q, p) refl | inr p ↦ rw (q, p) p ]
