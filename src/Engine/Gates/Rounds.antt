-- ===== src/Engine/Gates/Rounds.antt =====
-- crates/camera-sim/src/engine.rs: what one round of `advance_sequence_gates` does to a gate.
use Prim.Native.String.{String}
use text.Mathlib.Text.{◌==◌ as str_eq}
use text.Mathlib.TextEquality.{eq_iff}
use ptpsim.Prelude.{
  ℕ, ◌+◌, ◌≡◌, refl, ap, ◌∙◌, true, false, ◌&&◌, ltb, leb, ◌==◌, if◌then◌else◌, arith, length,
  Bool-cases, inl, inr, ==_iff, lookup-insert, string_key,
}
use ptpsim.State.Types.{
  CameraState, gate_satisfied, gate_progress, set_gate_progress, satisfy_gate, clear_gate,
}
use ptpsim.State.Gates.{same_gate, gate_progress-set_gate_progress, clear_gate_lem}
use ptpsim.Engine.Gates.{
  GateSequence, Hits, hits_at, advance_gate_progress, start_sequence, advance_sequence,
}

satisfied-set_gate_progress :
    (s : CameraState) (name : String) (i p : ℕ) (other : String)
    → gate_satisfied (set_gate_progress s name i p) other ≡ gate_satisfied s other
unfolding gate_satisfied set_gate_progress
satisfied-set_gate_progress s name i p other = ground arith

satisfied-satisfy_gate :
    (s : CameraState) (name other : String)
    → gate_satisfied (satisfy_gate s name) other
      ≡ (if str_eq other name then true else gate_satisfied s other)
unfolding gate_satisfied satisfy_gate
satisfied-satisfy_gate s name other = ground (arith, lookup-insert other name tt s.satisfied_gates)

progress-satisfy_gate :
    (s : CameraState) (name other : String) (i : ℕ)
    → gate_progress (satisfy_gate s name) other i ≡ gate_progress s other i
unfolding gate_progress satisfy_gate
progress-satisfy_gate s name other i = refl

-- What `advance_gate_progress` does: the last step satisfies the gate, any other is counted.
pub record Advanced (s t : CameraState) (sequence : GateSequence) (index progress : ℕ)
    : Type 0 where
  pub progress_of :
      (other : String) (i : ℕ)
      → gate_progress t other i ≡ (
          if same_gate other i sequence.name index
          then (if leb (length sequence.steps) progress then 0 else progress)
          else gate_progress s other i)
  pub satisfied_of :
      (other : String)
      → gate_satisfied t other ≡ (
          if leb (length sequence.steps) progress && str_eq other sequence.name
          then true
          else gate_satisfied s other)

advance_gate_progress_lem :
    (s : CameraState) (sequence : GateSequence) (index progress : ℕ)
    → Advanced s (advance_gate_progress s sequence index progress) sequence index progress
unfolding advance_gate_progress
advance_gate_progress_lem s q index p = elim (Bool-cases (leb (length q.steps) p)) [
  | inl e ↦ rw e (record {
    progress_of = λ other i. rw e (
        gate_progress-set_gate_progress (satisfy_gate s q.name) q.name other index i 0
        ∙ ap (λ x. if same_gate other i q.name index then 0 else x)
            (progress-satisfy_gate s q.name other i));
    satisfied_of = λ other. rw e (
        satisfied-set_gate_progress (satisfy_gate s q.name) q.name index 0 other
        ∙ satisfied-satisfy_gate s q.name other);
  })
  | inr e ↦ rw e (record {
    progress_of = λ other i. rw e (gate_progress-set_gate_progress s q.name other index i p);
    satisfied_of = λ other. rw e (satisfied-set_gate_progress s q.name index p other);
  })
]

-- The gate's progress in all of its sequences is lost, and it is unsatisfied.
pub record Cleared (s u : CameraState) (name : String) : Type 0 where
  pub progress_of :
      (other : String) (i : ℕ)
      → gate_progress u other i ≡ (if str_eq other name then 0 else gate_progress s other i)
  pub satisfied_of :
      (other : String)
      → gate_satisfied u other ≡ (if str_eq other name then false else gate_satisfied s other)

-- What one round does to one sequence.
pub data Outcome (hits : Hits) (s t : CameraState) (q : GateSequence) (index : ℕ) : Type 0 where
  skipped : gate_satisfied s q.name ≡ true → t ≡ s → Outcome hits s t q index
  dropped :
      gate_satisfied s q.name ≡ false
      → ((other : String) (i : ℕ)
          → gate_progress t other i
            ≡ (if same_gate other i q.name index then 0 else gate_progress s other i))
      → ((other : String) → gate_satisfied t other ≡ gate_satisfied s other)
      → Outcome hits s t q index
  started :
      (u : CameraState)
      → gate_satisfied s q.name ≡ false
      → hits_at hits q.steps 0 ≡ true
      → Cleared s u q.name
      → Advanced u t q index 1
      → Outcome hits s t q index
  continued :
      gate_satisfied s q.name ≡ false
      → hits_at hits q.steps (gate_progress s q.name index) ≡ true
      → Advanced s t q index (gate_progress s q.name index + 1)
      → Outcome hits s t q index

clear_gate-Cleared : (s : CameraState) (name : String) → Cleared s (clear_gate s name) name
clear_gate-Cleared s name = record {
  progress_of = λ other i. (clear_gate_lem s name other i).1;
  satisfied_of = λ other. (clear_gate_lem s name other 0).0;
}

-- Clearing forgets the progress that was reset just before.
reset-Cleared :
    (s : CameraState) (name : String) (index : ℕ)
    → Cleared s (clear_gate (set_gate_progress s name index 0) name) name
reset-Cleared s name index = record {
  progress_of = λ other i.
      (clear_gate_lem (set_gate_progress s name index 0) name other i).1
      ∙ elim (Bool-cases (str_eq other name)) [
        | inl p ↦ rw p refl
        | inr p ↦ rw p (gate_progress-set_gate_progress s name other index i 0 ∙ rw p refl)
      ];
  satisfied_of = λ other.
      (clear_gate_lem (set_gate_progress s name index 0) name other 0).0
      ∙ ap (λ x. if str_eq other name then false else x)
          (satisfied-set_gate_progress s name index 0 other);
}

same_progress :
    (s : CameraState) (name other : String) (index i p : ℕ)
    → gate_progress s name index ≡ p
    → gate_progress s other i
      ≡ (if same_gate other i name index then p else gate_progress s other i)
same_progress s name other index i p e = elim (Bool-cases (str_eq other name)) [
  | inr n ↦ rw n refl
  | inl n ↦ elim (Bool-cases (i == index)) [
    | inr k ↦ rw (n, k) refl
    | inl k ↦ rw (n, k) (rw ((eq_iff other name).0 n, (==_iff i index).0 k) e)
  ]
]

pub advance_sequence-Outcome :
    (hits : Hits) (s : CameraState) (q : GateSequence) (index : ℕ)
    → Outcome hits s (advance_sequence hits s q index) q index
unfolding advance_sequence start_sequence
advance_sequence-Outcome hits s q index = elim (Bool-cases (gate_satisfied s q.name)) [
  | inl done ↦ rw done (skipped done refl)
  | inr unmet ↦ elim (Bool-cases (ltb 0 (gate_progress s q.name index))) [
    | inr idle ↦ elim (Bool-cases (hits_at hits q.steps 0)) [
      | inl hit ↦
          rw (unmet, idle, hit)
            (started (clear_gate s q.name) unmet hit (clear_gate-Cleared s q.name)
              (advance_gate_progress_lem (clear_gate s q.name) q index 1))
      | inr miss ↦
          rw (unmet, idle, miss)
            (dropped unmet
              (λ other i. same_progress s q.name other index i 0 (ground (arith, idle)))
              (λ other. refl))
    ]
    | inl busy ↦ elim (Bool-cases (hits_at hits q.steps (gate_progress s q.name index))) [
      | inl hit ↦
          rw (unmet, busy, hit)
            (continued unmet hit
              (advance_gate_progress_lem s q index (gate_progress s q.name index + 1)))
      | inr miss ↦ elim (Bool-cases (hits_at hits q.steps 0)) [
        | inl first ↦
            rw (unmet, busy, miss, first)
              (started (clear_gate (set_gate_progress s q.name index 0) q.name) unmet first
                (reset-Cleared s q.name index)
                (advance_gate_progress_lem (clear_gate (set_gate_progress s q.name index 0) q.name)
                  q index 1))
        | inr first ↦
            rw (unmet, busy, miss, first)
              (dropped unmet (λ other i. gate_progress-set_gate_progress s q.name other index i 0)
                (satisfied-set_gate_progress s q.name index 0))
      ]
    ]
  ]
]
