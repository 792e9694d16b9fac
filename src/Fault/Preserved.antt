-- ===== src/Fault/Preserved.antt =====
-- crates/camera-sim/src/fault.rs: every method keeps the registry sound.
use ptpsim.Prelude.{
  ℕ, ◌+◌, ◌-◌, ◌^◌, ◌<◌, ◌≡◌, refl, List, [], ◌∷◌, ◌++◌, Option, none, some, Result, ok, true, All,
  All-append, arith, Bool-cases, inl, inr, ◌==◌, Result-cases,
}
use mathlib.Core.Path.{subst}
use ptpsim.Fault.Types.{FaultSpec, FaultRule, Refusal, armed, saturating_add, validate}
use ptpsim.Fault.Armed.{armed-InWindow, InWindow}
use ptpsim.Fault.Set.{FaultSet, try_insert, retain, remove, clear, take_applied_mutation, selects}
use ptpsim.Fault.Choice.{
  noticed, credited, seen_once, all_noticed, after_transaction, first_firing, fires, described,
  apply-described,
}
use ptpsim.Fault.Registry.{
  Increasing, IsWithinCount, IsSound, Step, inserting, removing, clearing, applying, taking,
  Reachable, initially, next, Increasing-up, Increasing-retain, Increasing-append,
}

noticed-id :
    (code : ℕ) (params : List ℕ) (rule : FaultRule) → (noticed code params rule).id ≡ rule.id
noticed-id code params rule = elim (Bool-cases (selects rule code params)) [
  | inl p ↦ rw p refl
  | inr p ↦ rw p refl
]

seen_once-IsWithinCount : (rule : FaultRule) → IsWithinCount rule → IsWithinCount (seen_once rule)
unfolding IsWithinCount
seen_once-IsWithinCount rule h c e fits = let w = h c e fits in (w.0, omega (arith, w.0, w.1, fits))

noticed-IsWithinCount :
    (code : ℕ) (params : List ℕ) (rule : FaultRule)
    → IsWithinCount rule
    → IsWithinCount (noticed code params rule)
noticed-IsWithinCount code params rule h = elim (Bool-cases (selects rule code params)) [
  | inl p ↦ rw p (seen_once-IsWithinCount rule h)
  | inr p ↦ rw p h
]

credited-IsWithinCount :
    (code : ℕ) (params : List ℕ) (rule : FaultRule)
    → fires code params rule ≡ true
    → IsWithinCount rule
    → IsWithinCount (credited (noticed code params rule))
unfolding IsWithinCount InWindow
credited-IsWithinCount code params rule f h =
    let both : (selects rule code params ≡ true) × (armed rule.selector rule.seen ≡ true) =
      ground arith in
    let window = (armed-InWindow rule.selector rule.seen).0 both.1 in
    rw both.0 (λ c e fits.
      let w = h c e fits in
      (
        omega (arith, w.0, w.1, window.0, window.1 c e, fits),
        omega (arith, w.0, w.1, window.0, window.1 c e, fits),
      ))

module _ (code : ℕ) (params : List ℕ) where
  Increasing-all_noticed :
      (low : ℕ) (rules : List FaultRule) (high : ℕ)
      → Increasing low rules high
      → Increasing low (all_noticed code params rules) high
  unfolding Increasing
  Increasing-all_noticed low [] high h = h
  Increasing-all_noticed low (rule ∷ rules) high h =
      rw (noticed-id code params rule) (h.0, Increasing-all_noticed (rule.id + 1) rules high h.1)

  Increasing-after_transaction :
      (low : ℕ) (rules : List FaultRule) (high : ℕ)
      → Increasing low rules high
      → Increasing low (after_transaction code params rules) high
  unfolding Increasing
  Increasing-after_transaction low [] high h = h
  Increasing-after_transaction low (rule ∷ rules) high h =
      elim (Bool-cases (fires code params rule)) [
        | inl p ↦
            rw (p, noticed-id code params rule)
              (h.0, Increasing-all_noticed (rule.id + 1) rules high h.1)
        | inr p ↦
            rw (p, noticed-id code params rule)
              (h.0, Increasing-after_transaction (rule.id + 1) rules high h.1)
      ]

  counted-all_noticed :
      (rules : List FaultRule)
      → All IsWithinCount rules
      → All IsWithinCount (all_noticed code params rules)
  counted-all_noticed [] h = tt
  counted-all_noticed (rule ∷ rules) h =
      (noticed-IsWithinCount code params rule h.0, counted-all_noticed rules h.1)

  counted-after_transaction :
      (rules : List FaultRule)
      → All IsWithinCount rules
      → All IsWithinCount (after_transaction code params rules)
  counted-after_transaction [] h = tt
  counted-after_transaction (rule ∷ rules) h = elim (Bool-cases (fires code params rule)) [
    | inl p ↦ rw p (credited-IsWithinCount code params rule p h.0, counted-all_noticed rules h.1)
    | inr p ↦ rw p (noticed-IsWithinCount code params rule h.0, counted-after_transaction rules h.1)
  ]

  described-IsSound :
      (s : FaultSet) (first : Option FaultRule)
      → IsSound s
      → IsSound (described s code params first).0
  described-IsSound s none h = record {
    numbered = Increasing-all_noticed 1 s.rules s.next_id h.numbered;
    counted = counted-all_noticed s.rules h.counted;
  }
  described-IsSound s (some rule) h = record {
    numbered = Increasing-after_transaction 1 s.rules s.next_id h.numbered;
    counted = counted-after_transaction s.rules h.counted;
  }

counted-retain :
    (id : ℕ) (rules : List FaultRule)
    → All IsWithinCount rules
    → All IsWithinCount (retain id rules)
counted-retain id [] h = tt
counted-retain id (rule ∷ rules) h = elim (Bool-cases (rule.id == id)) [
  | inl p ↦ rw p (counted-retain id rules h.1)
  | inr p ↦ rw p (h.0, counted-retain id rules h.1)
]

-- A new rule, and the registry with it.
abbrev new_rule : ℕ → FaultSpec → FaultRule
new_rule id spec = record {
  id = id;
  selector = spec.selector;
  mutation = spec.mutation;
  seen = 0;
  applied = 0;
}

abbrev inserted : FaultSet → FaultSpec → FaultSet
inserted s spec = record s {
  next_id = saturating_add 64 s.next_id 1;
  rules = s.rules ++ (new_rule s.next_id spec ∷ []);
}

inserted-IsSound :
    (s : FaultSet) (spec : FaultSpec)
    → s.next_id < 2 ^ 64 - 1
    → IsSound s
    → IsSound (inserted s spec)
unfolding IsWithinCount
inserted-IsSound s spec room sound =
    let no_wrap : saturating_add 64 s.next_id 1 ≡ s.next_id + 1 = omega (arith, room) in
    record {
      numbered =
          rw no_wrap
            (Increasing-append 1 s.rules s.next_id (new_rule s.next_id spec) sound.numbered refl);
      counted =
          All-append IsWithinCount s.rules (new_rule s.next_id spec ∷ []) sound.counted
            ((λ c e fits. (omega arith, omega arith)), tt);
    }

try_insert-IsSound :
    (s t : FaultSet) (spec : FaultSpec) (id : ℕ)
    → s.next_id < 2 ^ 64 - 1
    → try_insert s spec ≡ ok (t, id)
    → IsSound s
    → IsSound t
unfolding try_insert
try_insert-IsSound s t spec id room h sound = elim (Result-cases (validate spec.mutation)) [
  | inl (u, p) ↦
      let g = rw p at h in
      let same : inserted s spec ≡ t = ok_fst g in
      subst IsSound same (inserted-IsSound s spec room sound)
  | inr (x, p) ↦ absurd (cc (h, p))
]
  where
    ok_fst :
        {a b : FaultSet} {m n : ℕ}
        → ◌≡◌ {A = Result Refusal (FaultSet × ℕ)} (ok (a, m)) (ok (b, n))
        → a ≡ b
    ok_fst e = cc e

Step-IsSound : {s t : FaultSet} → Step s t → IsSound s → IsSound t
unfolding remove clear take_applied_mutation Increasing
Step-IsSound (inserting s t spec id room h) sound = try_insert-IsSound s t spec id room h sound
Step-IsSound (removing s id) sound = record {
  numbered = Increasing-retain id 1 s.rules s.next_id sound.numbered;
  counted = counted-retain id s.rules sound.counted;
}
Step-IsSound (clearing s) sound = record {
  numbered = Increasing-up 1 s.rules s.next_id sound.numbered;
  counted = tt;
}
Step-IsSound (applying s code params) sound =
    rw (apply-described s code params)
      (described-IsSound code params s (first_firing code params s.rules) sound)
Step-IsSound (taking s) sound = record { numbered = sound.numbered; counted = sound.counted }

-- After any calls, from the empty registry on, the rules' identifiers increase along the list, from 1
-- to below the next one to be given, and no rule with a count was applied more often than its count
-- says. At most 2^64 - 2 rules are ever inserted, and a counted window ends within 32 bits.
pub registry-IsSound : (s : FaultSet) → Reachable s → IsSound s
unfolding Increasing
registry-IsSound s initially = record { numbered = omega arith; counted = tt }
registry-IsSound s (next r step) = Step-IsSound step (registry-IsSound _ r)
