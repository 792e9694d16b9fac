-- ===== src/Engine/Gates/Earned.antt =====
-- crates/camera-sim/src/engine.rs: a gate is satisfied only by a complete sequence of its steps.
use Prim.Native.String.{String}
use text.Mathlib.Text.{◌==◌ as str_eq}
use text.Mathlib.TextEquality.{eq_iff}
use mathlib.Core.Path.{subst}
use ptpsim.Prelude.{
  ℕ, zero, suc, ◌+◌, ◌≤◌, ◌<◌, ◌≡◌, ◌≢◌, ◌⊎◌, refl, sym, ap, ◌∙◌, List, [], ◌∷◌, some, Bool, true,
  false, ◌&&◌, leb, if◌then◌else◌, arith, length, Bool-cases, Option-cases, inl, inr, string_key,
  same_self, ne→==, eq→==,
}
use ptpsim.State.Types.{CameraState, gate_satisfied, gate_progress}
use ptpsim.State.Gates.{same_gate}
use ptpsim.Engine.Receive.{get}
use ptpsim.Engine.Gates.{GateMatcher, GateSequence, Hits, hits_at}
use ptpsim.Engine.Gates.Rounds.{Outcome, skipped, dropped, started, continued}

-- The newest `n` requests fit the first `n` steps, in their order; the newest request stands first.
abbrev pub Matched : List GateMatcher → ℕ → List Hits → Type 0
Matched steps zero requests = Unit
Matched steps (suc n) [] = false ≡ true
Matched steps (suc n) (hits ∷ requests) = (hits_at hits steps n ≡ true) × Matched steps n requests

-- As long as its gate is unsatisfied, a sequence's progress counts newest requests that fit its steps.
abbrev pub Tracks : CameraState → ℕ → GateSequence → List Hits → Type 0
Tracks s index q requests =
    gate_satisfied s q.name ≡ false → Matched q.steps (gate_progress s q.name index) requests

Matched-step :
    (steps : List GateMatcher) (n : ℕ) (hits : Hits) (requests : List Hits)
    → hits_at hits steps n ≡ true
    → Matched steps n requests
    → Matched steps (n + 1) (hits ∷ requests)
Matched-step steps n hits requests h m =
    subst (λ k. Matched steps k (hits ∷ requests)) (suc_one n) (h, m)
  where
    suc_one : (k : ℕ) → suc k ≡ k + 1
    suc_one k = omega arith

-- Progress that is zero, or the number that was matched.
Matched-if :
    (steps : List GateMatcher) (requests : List Hits) (b : Bool) (n : ℕ)
    → Matched steps n requests
    → Matched steps (if b then 0 else n) requests
Matched-if steps requests true n m = tt
Matched-if steps requests false n m = m

own_gate : (name : String) (index : ℕ) → same_gate name index name index ≡ true
own_gate name index = rw (same_self name) (eq→== index index refl)

if_own :
    {A : Type 0} (name : String) (index : ℕ) (a b : A)
    → (if same_gate name index name index then a else b) ≡ a
if_own name index a b = rw (own_gate name index) refl

pub Outcome-own :
    (hits : Hits) (s t : CameraState) (q : GateSequence) (index : ℕ) (requests : List Hits)
    → Outcome hits s t q index
    → Tracks s index q requests
    → Tracks t index q (hits ∷ requests)
Outcome-own hits s t q index requests (skipped done e) h k =
    absurd (ground (arith, ap (λ x. gate_satisfied x q.name) e, done, k))
Outcome-own hits s t q index requests (dropped unmet p m) h k =
    subst (λ n. Matched q.steps n (hits ∷ requests))
      (sym (p q.name index ∙ if_own q.name index _ _)) tt
Outcome-own hits s t q index requests (started u unmet hit c a) h k =
    subst (λ n. Matched q.steps n (hits ∷ requests))
      (sym (a.progress_of q.name index ∙ if_own q.name index _ _))
      (Matched-if q.steps (hits ∷ requests) (leb (length q.steps) 1) 1 (hit, tt))
Outcome-own hits s t q index requests (continued unmet hit a) h k =
    subst (λ n. Matched q.steps n (hits ∷ requests))
      (sym (a.progress_of q.name index ∙ if_own q.name index _ _))
      (Matched-if q.steps (hits ∷ requests) _ (gate_progress s q.name index + 1)
        (Matched-step q.steps (gate_progress s q.name index) hits requests hit (h unmet)))

other_gate : (other name : String) (i index : ℕ) → i ≢ index → same_gate other i name index ≡ false
other_gate other name i index n = rw (ne→== i index n) (ground arith)

if_other :
    {A : Type 0} (other name : String) (i index : ℕ) (a b : A)
    → i ≢ index
    → (if same_gate other i name index then a else b) ≡ b
if_other other name i index a b n = rw (other_gate other name i index n) refl

pub Outcome-other :
    (hits : Hits) (s t : CameraState) (q r : GateSequence) (index i : ℕ) (requests : List Hits)
    → i ≢ index
    → Outcome hits s t q index
    → Tracks s i r requests
    → Tracks t i r requests
Outcome-other hits s t q r index i requests n (skipped done e) h k =
    subst (λ x. Tracks x i r requests) (sym e) h k
Outcome-other hits s t q r index i requests n (dropped unmet p m) h k =
    subst (λ x. Matched r.steps x requests)
      (sym (p r.name i ∙ if_other r.name q.name i index _ _ n)) (h (sym (m r.name) ∙ k))
Outcome-other hits s t q r index i requests n (started u unmet hit c a) h k =
    subst (λ x. Matched r.steps x requests)
      (sym
        (a.progress_of r.name i ∙ (if_other r.name q.name i index _ _ n ∙ c.progress_of r.name i)))
      (elim (Bool-cases (str_eq r.name q.name)) [
        | inl e ↦ rw e tt
        | inr e ↦ rw e (h (ground (arith, e, k, a.satisfied_of r.name, c.satisfied_of r.name)))
      ])
Outcome-other hits s t q r index i requests n (continued unmet hit a) h k =
    subst (λ x. Matched r.steps x requests)
      (sym (a.progress_of r.name i ∙ if_other r.name q.name i index _ _ n))
      (h (ground (arith, k, a.satisfied_of r.name)))

get-lt :
    (steps : List GateMatcher) (i : ℕ) (m : GateMatcher) → get steps i ≡ some m → i < length steps
get-lt [] zero m e = absurd (ground (arith, e))
get-lt [] (suc i) m e = absurd (ground (arith, e))
get-lt (y ∷ steps) zero m e = omega arith
get-lt (y ∷ steps) (suc i) m e = omega (arith, get-lt steps i m e)

hits_at-lt :
    (hits : Hits) (steps : List GateMatcher) (i : ℕ)
    → hits_at hits steps i ≡ true
    → i < length steps
hits_at-lt hits steps i e = elim (Option-cases (get steps i)) [
  | inl p ↦ absurd (ground (arith, p, e))
  | inr (m, p) ↦ get-lt steps i m p
]

-- The newest requests are the steps of the sequence, all of them.
abbrev pub IsComplete : GateSequence → List Hits → Type 0
IsComplete q requests = Matched q.steps (length q.steps) requests

IsComplete-at :
    (q : GateSequence) (n : ℕ) (requests : List Hits)
    → n ≤ length q.steps
    → leb (length q.steps) n ≡ true
    → Matched q.steps n requests
    → IsComplete q requests
IsComplete-at q n requests l e m = subst (λ k. Matched q.steps k requests) (ground (arith, l, e)) m

and_true : (a b : Bool) → (a && b) ≡ true → (a ≡ true) × (b ≡ true)
and_true a b e = ground (arith, e)

pub Outcome-satisfied :
    (hits : Hits) (s t : CameraState) (q : GateSequence) (index : ℕ) (requests : List Hits)
    (name : String)
    → Outcome hits s t q index
    → Tracks s index q requests
    → gate_satisfied t name ≡ true
    → (gate_satisfied s name ≡ true) ⊎ ((name ≡ q.name) × IsComplete q (hits ∷ requests))
Outcome-satisfied hits s t q index requests name (skipped done e) h k =
    inl (subst (λ x. gate_satisfied x name ≡ true) e k)
Outcome-satisfied hits s t q index requests name (dropped unmet p m) h k = inl (sym (m name) ∙ k)
Outcome-satisfied hits s t q index requests name (started u unmet hit c a) h k =
    elim (Bool-cases (leb (length q.steps) 1 && str_eq name q.name)) [
      | inl e ↦
          let both = and_true _ (str_eq name q.name) e in
          inr (
            (eq_iff name q.name).0 both.1,
            IsComplete-at q 1 (hits ∷ requests) (hits_at-lt hits q.steps 0 hit) both.0 (hit, tt),
          )
      | inr e ↦ inl (ground (arith, e, k, a.satisfied_of name, c.satisfied_of name))
    ]
Outcome-satisfied hits s t q index requests name (continued unmet hit a) h k =
    let p = gate_progress s q.name index in
    elim (Bool-cases (leb (length q.steps) (p + 1) && str_eq name q.name)) [
      | inl e ↦
          let both = and_true _ (str_eq name q.name) e in
          inr (
            (eq_iff name q.name).0 both.1,
            IsComplete-at q (p + 1) (hits ∷ requests) (omega (arith, hits_at-lt hits q.steps p hit))
                both.0 (Matched-step q.steps p hits requests hit (h unmet)),
          )
      | inr e ↦ inl (ground (arith, e, k, a.satisfied_of name))
    ]
