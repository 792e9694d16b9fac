-- ===== src/Fault/Registry.antt =====
-- crates/camera-sim/src/fault.rs: what holds of a registry after any calls of its methods.
use ptpsim.Prelude.{
  ℕ, ◌+◌, ◌-◌, ◌^◌, ◌≤◌, ◌<◌, ◌≡◌, List, [], ◌∷◌, ◌++◌, some, ok, All, arith, Bool-cases, inl, inr,
  ◌==◌,
}
use ptpsim.Fault.Types.{FaultSpec, FaultRule}
use ptpsim.Fault.Set.{
  FaultSet, default, try_insert, retain, remove, clear, apply, take_applied_mutation,
}

-- The identifiers increase along the list, and the last is below the bound.
unfoldable pub Increasing : ℕ → List FaultRule → ℕ → Type 0
Increasing low [] high = low ≤ high
Increasing low (rule ∷ rules) high = (low ≤ rule.id) × Increasing (rule.id + 1) rules high

-- A rule with a count, whose window ends within 32 bits, was applied at most once for each matching
-- occurrence behind `skip`, and at most `count` times.
unfoldable pub IsWithinCount : FaultRule → Type 0
IsWithinCount rule =
    (c : ℕ)
    → rule.selector.count ≡ some c
    → rule.selector.skip + c < 2 ^ 32
    → (rule.applied ≤ c) × (rule.applied ≤ rule.seen - rule.selector.skip)

pub record IsSound (s : FaultSet) : Type 0 where
  pub numbered : Increasing 1 s.rules s.next_id
  pub counted : All IsWithinCount s.rules

-- One call of a method that changes the registry.
pub data Step : FaultSet → FaultSet → Type 0 where
  inserting :
      (s t : FaultSet) (spec : FaultSpec) (id : ℕ)
      → s.next_id < 2 ^ 64 - 1
      → try_insert s spec ≡ ok (t, id)
      → Step s t
  removing : (s : FaultSet) (id : ℕ) → Step s (remove s id).0
  clearing : (s : FaultSet) → Step s (clear s)
  applying : (s : FaultSet) (code : ℕ) (params : List ℕ) → Step s (apply s code params).0
  taking : (s : FaultSet) → Step s (take_applied_mutation s).0

pub data Reachable : FaultSet → Type 0 where
  initially : Reachable default
  next : {s t : FaultSet} → Reachable s → Step s t → Reachable t

pub Increasing-up :
    (low : ℕ) (rules : List FaultRule) (high : ℕ) → Increasing low rules high → low ≤ high
unfolding Increasing
Increasing-up low [] high h = h
Increasing-up low (rule ∷ rules) high h =
    omega (arith, h.0, Increasing-up (rule.id + 1) rules high h.1)

Increasing-down :
    (low lower : ℕ) (rules : List FaultRule) (high : ℕ)
    → lower ≤ low
    → Increasing low rules high
    → Increasing lower rules high
unfolding Increasing
Increasing-down low lower [] high l h = omega (arith, l, h)
Increasing-down low lower (rule ∷ rules) high l h = (omega (arith, l, h.0), h.1)

pub Increasing-retain :
    (id low : ℕ) (rules : List FaultRule) (high : ℕ)
    → Increasing low rules high
    → Increasing low (retain id rules) high
unfolding Increasing
Increasing-retain id low [] high h = h
Increasing-retain id low (rule ∷ rules) high h = elim (Bool-cases (rule.id == id)) [
  | inl p ↦ rw p (
      Increasing-down (rule.id + 1) low (retain id rules) high (omega (arith, h.0))
        (Increasing-retain id (rule.id + 1) rules high h.1))
  | inr p ↦ rw p (h.0, Increasing-retain id (rule.id + 1) rules high h.1)
]

pub Increasing-append :
    (low : ℕ) (rules : List FaultRule) (high : ℕ) (rule : FaultRule)
    → Increasing low rules high
    → rule.id ≡ high
    → Increasing low (rules ++ (rule ∷ [])) (high + 1)
unfolding Increasing
Increasing-append low [] high rule h e = (omega (arith, h, e), omega (arith, e))
Increasing-append low (r ∷ rules) high rule h e =
    (h.0, Increasing-append (r.id + 1) rules high rule h.1 e)
