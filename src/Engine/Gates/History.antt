-- ===== src/Engine/Gates/History.antt =====
-- crates/camera-sim/src/engine.rs: `advance_sequence_gates` over a history of requests.
use Prim.Native.String.{String}
use mathlib.Core.Path.{subst}
use ptpsim.Prelude.{
  ℕ, suc, ◌+◌, ◌<◌, ◌≡◌, ◌⊎◌, refl, sym, ap, List, [], ◌∷◌, ◌++◌, some, true, false, arith, inl,
  inr,
}
use ptpsim.State.Types.{CameraState, gate_satisfied, gate_progress}
use ptpsim.Engine.Receive.{get}
use ptpsim.Engine.Gates.{GateSequence, Hits, advance_sequence, advance_from}
use ptpsim.Engine.Gates.Rounds.{Outcome, advance_sequence-Outcome}
use ptpsim.Engine.Gates.Earned.{
  Matched, Tracks, IsComplete, Outcome-own, Outcome-other, Outcome-satisfied,
}

-- The sequences from `index` on follow their progress.
abbrev TrackAll : CameraState → ℕ → List GateSequence → List Hits → Type 0
TrackAll s index [] requests = Unit
TrackAll s index (q ∷ qs) requests = Tracks s index q requests × TrackAll s (index + 1) qs requests

keep_other :
    (hits : Hits) (s t : CameraState) (q : GateSequence) (index from : ℕ) (qs : List GateSequence)
    (requests : List Hits)
    → index < from
    → Outcome hits s t q index
    → TrackAll s from qs requests
    → TrackAll t from qs requests
keep_other hits s t q index from [] requests l o h = tt
keep_other hits s t q index from (r ∷ qs) requests l o h = (
  Outcome-other hits s t q r index from requests (λ e. omega (arith, l, e)) o h.0,
  keep_other hits s t q index (from + 1) qs requests (omega (arith, l)) o h.1,
)

-- A sequence behind which the loop has passed keeps following.
keep_passed :
    (hits : Hits) (s : CameraState) (r : GateSequence) (i index : ℕ) (qs : List GateSequence)
    (requests : List Hits)
    → i < index
    → Tracks s i r requests
    → Tracks (advance_from hits s index qs) i r requests
unfolding advance_from
keep_passed hits s r i index [] requests l h = h
keep_passed hits s r i index (q ∷ qs) requests l h =
    keep_passed hits (advance_sequence hits s q index) r i (index + 1) qs requests
      (omega (arith, l))
      (Outcome-other hits s (advance_sequence hits s q index) q r index i requests
        (λ e. omega (arith, l, e)) (advance_sequence-Outcome hits s q index) h)

pass :
    (hits : Hits) (s : CameraState) (index : ℕ) (qs : List GateSequence) (requests : List Hits)
    → TrackAll s index qs requests
    → TrackAll (advance_from hits s index qs) index qs (hits ∷ requests)
unfolding advance_from
pass hits s index [] requests h = tt
pass hits s index (q ∷ qs) requests h =
    let o = advance_sequence-Outcome hits s q index in
    let t = advance_sequence hits s q index in
    (
      keep_passed hits t q index (index + 1) qs (hits ∷ requests) (omega arith)
          (Outcome-own hits s t q index requests o h.0),
      pass hits t (index + 1) qs requests
          (keep_other hits s t q index (index + 1) qs requests (omega arith) o h.1),
    )

-- A sequence of the gate's name among them is complete.
abbrev pub Completed : String → List GateSequence → List Hits → Type 0
Completed name sequences requests =
    (i : ℕ) × (q : GateSequence) × (get sequences i ≡ some q)
    × (name ≡ q.name)
    × IsComplete q requests

pass_satisfied :
    (hits : Hits) (s : CameraState) (index : ℕ) (qs : List GateSequence) (requests : List Hits)
    (name : String)
    → TrackAll s index qs requests
    → gate_satisfied (advance_from hits s index qs) name ≡ true
    → (gate_satisfied s name ≡ true) ⊎ Completed name qs (hits ∷ requests)
unfolding advance_from
pass_satisfied hits s index [] requests name h e = inl e
pass_satisfied hits s index (q ∷ qs) requests name h e =
    let o = advance_sequence-Outcome hits s q index in
    let t = advance_sequence hits s q index in
    elim (pass_satisfied hits t (index + 1) qs requests name
      (keep_other hits s t q index (index + 1) qs requests (omega arith) o h.1) e) [
        | inr (i, r, at, n, c) ↦ inr (suc i, r, at, n, c)
        | inl k ↦ elim (Outcome-satisfied hits s t q index requests name o h.0 k) [
          | inl before ↦ inl before
          | inr (n, c) ↦ inr (0, q, refl, n, c)
        ]
      ]

-- The state behind requests, the newest first.
unfoldable pub after : List GateSequence → CameraState → List Hits → CameraState
after sequences s [] = s
after sequences s (hits ∷ requests) = advance_from hits (after sequences s requests) 0 sequences

-- No gate is satisfied, and no sequence has begun.
pub record IsReset (s : CameraState) : Type 0 where
  pub unsatisfied : (name : String) → gate_satisfied s name ≡ false
  pub unbegun : (name : String) (i : ℕ) → gate_progress s name i ≡ 0

reset_tracks :
    (s : CameraState) (index : ℕ) (qs : List GateSequence) → IsReset s → TrackAll s index qs []
reset_tracks s index [] h = tt
reset_tracks s index (q ∷ qs) h = (
  λ e. subst (λ n. Matched q.steps n []) (sym (h.unbegun q.name index)) tt,
  reset_tracks s (index + 1) qs h,
)

after-TrackAll :
    (sequences : List GateSequence) (s : CameraState) (requests : List Hits)
    → IsReset s
    → TrackAll (after sequences s requests) 0 sequences requests
unfolding after
after-TrackAll sequences s [] h = reset_tracks s 0 sequences h
after-TrackAll sequences s (hits ∷ requests) h =
    pass hits (after sequences s requests) 0 sequences requests
      (after-TrackAll sequences s requests h)

-- From a state whose gates are reset, over any requests: a gate is satisfied only if at some point the newest
-- requests were, one directly behind the other, all the steps of one of the sequences of its name.
pub gate_satisfied-Completed :
    (sequences : List GateSequence) (s : CameraState) (requests : List Hits) (name : String)
    → IsReset s
    → gate_satisfied (after sequences s requests) name ≡ true
    → (newer : List Hits) × (older : List Hits) × (requests ≡ newer ++ older)
      × Completed name sequences older
unfolding after
gate_satisfied-Completed sequences s [] name h e = absurd (ground (arith, e, h.unsatisfied name))
gate_satisfied-Completed sequences s (hits ∷ requests) name h e =
    elim (pass_satisfied hits (after sequences s requests) 0 sequences requests name
      (after-TrackAll sequences s requests h) e) [
        | inr c ↦ ([], hits ∷ requests, refl, c)
        | inl before ↦
            let (newer, older, split, c) =
              gate_satisfied-Completed sequences s requests name h before in
            (hits ∷ newer, older, ap (λ t. hits ∷ t) split, c)
      ]
