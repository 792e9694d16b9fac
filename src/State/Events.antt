-- ===== src/State/Events.antt =====
-- crates/camera-sim/src/state.rs: the queue of events.
use ptpsim.Prelude.{
  ℕ, ◌≡◌, ◌≢◌, refl, ap, ◌∙◌, ◌⊎◌, inl, inr, List, [], ◌∷◌, ◌++◌, none, some, true, false, ◌==◌,
  arith, All, Option-cases, Bool-cases, ==_iff, append_assoc, append-nil, sym,
}
use ptpsim.State.Types.{
  QueuedEvent, CameraState, remove_first, take_event, push_event_with_params, drain_events,
}

-- Where the first event of a code stands.
pub record FirstAt (code : ℕ) (before : List QueuedEvent) (e : QueuedEvent)
    (behind all : List QueuedEvent) : Type 0 where
  pub split : all ≡ before ++ (e ∷ behind)
  pub of_code : e.code ≡ code
  pub none_before : All (λ (x : QueuedEvent). x.code ≢ code) before

remove_first-none :
    (code : ℕ) (es : List QueuedEvent)
    → remove_first code es ≡ none
    → All (λ (x : QueuedEvent). x.code ≢ code) es
unfolding remove_first
remove_first-none code [] h = tt
remove_first-none code (e ∷ es) h = ground (arith, remove_first-none code es)

remove_first-some :
    (code : ℕ) (es rest : List QueuedEvent)
    → remove_first code es ≡ some rest
    → (before : List QueuedEvent) × (e : QueuedEvent) × (behind : List QueuedEvent) × FirstAt code
        before e behind es
      × (rest ≡ before ++ behind)
unfolding remove_first
remove_first-some code [] rest h = absurd (ground arith)
remove_first-some code (e ∷ es) rest h = elim (Bool-cases (e.code == code)) [
  | inl p ↦ (
    [],
    e,
    es,
    record { split = refl; of_code = (==_iff e.code code).0 p; none_before = tt },
    ground (arith, p, h),
  )
  | inr p ↦ elim (Option-cases (remove_first code es)) [
    | inl q ↦ absurd (ground (arith, p, q, h))
    | inr (r, q) ↦
        let (before, x, behind, at, left) = remove_first-some code es r q in
        (
          e ∷ before,
          x,
          behind,
          record {
            split = ap (λ t. e ∷ t) at.split;
            of_code = at.of_code;
            none_before = (ground arith, at.none_before);
          },
          ground (arith, p, q, h, left),
        )
  ]
]

-- Taking an event of a code succeeds exactly if one is queued. It removes the first of them and no other, and
-- the others keep their order; where none is queued, nothing changes.
pub take_event_lem :
    (s : CameraState) (code : ℕ)
    → ((take_event s code ≡ (s, false)) × All (λ (x : QueuedEvent). x.code ≢ code) s.events)
      ⊎ ((before : List QueuedEvent) × (e : QueuedEvent) × (behind : List QueuedEvent) × FirstAt
            code before e behind s.events
          × (take_event s code ≡ (record s { events = before ++ behind }, true)))
unfolding take_event
take_event_lem s code = elim (Option-cases (remove_first code s.events)) [
  | inl p ↦ inl (rw (take_event, p) refl, remove_first-none code s.events p)
  | inr (rest, p) ↦
      let (before, e, behind, at, left) = remove_first-some code s.events rest p in
      inr (before, e, behind, at, rw (take_event, p, left) refl)
]

-- Events pushed one after another.
abbrev pub push_all : CameraState → List (ℕ × List ℕ) → CameraState
push_all s [] = s
push_all s ((code, params) ∷ es) = push_all (push_event_with_params s code params) es

abbrev pub queued : List (ℕ × List ℕ) → List QueuedEvent
queued [] = []
queued ((code, params) ∷ es) = record { code = code; params = params } ∷ queued es

push_all-events :
    (s : CameraState) (es : List (ℕ × List ℕ)) → (push_all s es).events ≡ s.events ++ queued es
unfolding push_event_with_params
push_all-events s [] = sym (append-nil s.events)
push_all-events s ((code, params) ∷ es) =
    push_all-events (push_event_with_params s code params) es
    ∙ append_assoc s.events (record { code = code; params = params } ∷ []) (queued es)

-- What is pushed is drained in the order in which it was pushed, behind what was queued before, and a
-- second draining finds nothing.
pub drain_events-push :
    (s : CameraState) (es : List (ℕ × List ℕ))
    → ((drain_events (push_all s es)).1 ≡ s.events ++ queued es)
      × ((drain_events (drain_events (push_all s es)).0).1 ≡ [])
unfolding drain_events
drain_events-push s es = (push_all-events s es, refl)
