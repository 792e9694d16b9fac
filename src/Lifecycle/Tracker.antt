-- ===== src/Lifecycle/Tracker.antt =====
-- crates/camera-config/src/lifecycle.rs: the trace of `ConnectionLifecycleTracker`.
use ptpsim.Prelude.{
  ℕ, suc, ◌+◌, ◌≤◌, ◌<◌, ◌≡◌, refl, List, [], ◌∷◌, ◌++◌, Result, ok, length, drop, ltb, min, arith,
  Bool-cases, Result-cases, ok_inj, inl, inr, length-append, length-drop,
}
use mathlib.Core.Path.{subst, sym}
use native.Mathlib.Nat.{add-zero}
use ptpsim.Prelude.Try.{◌>>=◌}
use ptpsim.Lifecycle.Types.{
  Snapshot, default, Transition, TraceEvent, LifecycleError, apply_transition, max_trace_events,
  Tracker, new_tracker, keep_last, apply,
}
use ptpsim.Lifecycle.Layers.{apply_transition-IsEventOf}

-- Events that lead from one snapshot to another, each made by its transition from where the one in
-- front of it ended.
unfoldable pub Chained : Snapshot → List TraceEvent → Snapshot → Type 0
Chained start [] end = start ≡ end
Chained start (event ∷ events) end =
    (apply_transition start event.transition ≡ ok event) × Chained event.after events end

-- A tracker behind n transitions.
pub record IsHistory (t : Tracker) (n : ℕ) : Type 0 where
  pub start : Snapshot
  pub chained : Chained start t.trace t.snapshot
  pub kept : length t.trace ≡ min n 512
  pub counted : t.snapshot.sequence ≡ n

-- The transitions are applied one after the other.
abbrev pub apply_all : Tracker → List Transition → Result LifecycleError Tracker
apply_all t [] = ok t
apply_all t (transition ∷ transitions) = apply t transition >>= λ u. apply_all u.0 transitions

Chained-append :
    (start : Snapshot) (events : List TraceEvent) (middle : Snapshot) (event : TraceEvent)
    → Chained start events middle
    → apply_transition middle event.transition ≡ ok event
    → Chained start (events ++ (event ∷ [])) event.after
unfolding Chained
Chained-append start [] middle event c h = (rw c h, refl)
Chained-append start (e ∷ events) middle event c h =
    (c.0, Chained-append e.after events middle event c.1 h)

-- A chain without its first event starts elsewhere.
Chained-drop :
    (start : Snapshot) (events : List TraceEvent) (end : Snapshot)
    → Chained start events end
    → (middle : Snapshot) × Chained middle (drop 1 events) end
unfolding Chained
Chained-drop start [] end c = (start, c)
Chained-drop start (event ∷ events) end c = (event.after, c.1)

keep_last-Chained :
    (start : Snapshot) (events : List TraceEvent) (end : Snapshot)
    → Chained start events end
    → (middle : Snapshot) × Chained middle (keep_last events) end
keep_last-Chained start events end c = elim (Bool-cases (ltb max_trace_events (length events))) [
  | inl p ↦ rw p (Chained-drop start events end c)
  | inr p ↦ rw p (start, c)
]

length-keep_last :
    (events : List TraceEvent) (n : ℕ)
    → length events ≡ min n 512 + 1
    → length (keep_last events) ≡ min (n + 1) 512
length-keep_last events n h = elim (Bool-cases (ltb max_trace_events (length events))) [
  | inl p ↦
      let over : 512 < length events = ground arith in
      rw p (omega (arith, length-drop 1 events, h, over))
  | inr p ↦ let within : length events ≤ 512 = ground arith in rw p (omega (arith, h, within))
]

apply-IsHistory :
    (t : Tracker) (n : ℕ) (transition : Transition) (u : Tracker) (event : TraceEvent)
    → IsHistory t n
    → apply t transition ≡ ok (u, event)
    → IsHistory u (n + 1)
unfolding apply
apply-IsHistory t n transition u event h e =
    elim (Result-cases (apply_transition t.snapshot transition)) [
      | inl (ev, p) ↦
          subst (λ v. IsHistory v (n + 1)) (made (rw p at e))
            (let is = apply_transition-IsEventOf t.snapshot transition ev p in
              let again : apply_transition t.snapshot ev.transition ≡ ok ev =
                subst (λ x. apply_transition t.snapshot x ≡ ok ev) (sym is.cause) p in
              let c =
                keep_last-Chained h.start (t.trace ++ (ev ∷ [])) ev.after
                  (Chained-append h.start t.trace t.snapshot ev h.chained again) in
              record {
                start = c.0;
                chained = c.1;
                kept =
                    length-keep_last (t.trace ++ (ev ∷ [])) n
                      (omega (arith, length-append t.trace (ev ∷ []), h.kept));
                counted = omega (arith, is.stamped, is.counted, h.counted);
              })
      | inr (x, p) ↦ absurd (cc (rw p at e))
    ]
  where
    made :
        {a b : Tracker} {x y : TraceEvent}
        → ◌≡◌ {A = Result LifecycleError (Tracker × TraceEvent)} (ok (a, x)) (ok (b, y))
        → a ≡ b
    made e = cc e

apply_all-IsHistory :
    (transitions : List Transition) (t : Tracker) (n : ℕ) (u : Tracker)
    → IsHistory t n
    → apply_all t transitions ≡ ok u
    → IsHistory u (n + length transitions)
apply_all-IsHistory [] t n u h e = subst (λ v. IsHistory v (n + 0)) (ok_inj e) (rw (add-zero n) h)
apply_all-IsHistory (transition ∷ transitions) t n u h e =
    elim (Result-cases (apply t transition)) [
      | inl (v, p) ↦ subst (IsHistory u) (shift n (length transitions)) (
          apply_all-IsHistory transitions v.0 (n + 1) u (apply-IsHistory t n transition v.0 v.1 h p)
            (rw p at e))
      | inr (x, p) ↦ absurd (cc (rw p at e))
    ]
  where
    shift : (n m : ℕ) → n + 1 + m ≡ n + suc m
    shift n m = omega arith

-- Behind any n transitions from the start on, the tracker's trace is a chain of events that ends in its
-- snapshot, in which each event is what its transition makes of the snapshot that the one before it
-- ended in; it holds the last 512 events, or all n of them; and the snapshot's sequence number is n.
pub tracker-IsHistory :
    (transitions : List Transition) (t : Tracker)
    → apply_all new_tracker transitions ≡ ok t
    → IsHistory t (length transitions)
unfolding Chained
tracker-IsHistory transitions t e = subst (IsHistory t) (omega arith) (
    apply_all-IsHistory transitions new_tracker 0 t
      (record { start = default; chained = refl; kept = refl; counted = refl }) e)
