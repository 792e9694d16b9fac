-- ===== src/Lifecycle/Layers.antt =====
-- crates/camera-config/src/lifecycle.rs: a transition changes only the layers that it is evidence for.
use ptpsim.Prelude.{
  ℕ, ◌+◌, ◌^◌, ◌≤◌, ◌≡◌, ◌≢◌, refl, ok, err, Bool, true, false, ltb, arith, Bool-cases, inl, inr,
  ok_inj, Option, none, some, ◌⊎◌, ◌↔◌, ◌-◌,
}
use mathlib.Core.Path.{subst}
use ptpsim.Lifecycle.Types.{
  LifecycleEvidence, unknown, unconfirmed, confirmed, open', FeatureMode, active, Snapshot,
  Transition, TraceEvent, sequence_overflow, observed, apply_transition, network_persona_ready,
  network_persona_exit_requested, network_persona_exit_confirmed, command_listener_ready,
  proxy_transport_accepted, command_initialized, proxy_transport_lost,
  proxy_transport_closed_locally, ptp_session_opened, ptp_session_closed, feature_entered,
  feature_exited,
}

pub data Layer : Type 0 where
  persona listener transport session feature : Layer

-- The layers that a transition is evidence for.
abbrev pub concerns : Transition → Layer → Bool
concerns network_persona_ready persona = true
concerns network_persona_exit_requested persona = true
concerns network_persona_exit_confirmed persona = true
concerns command_listener_ready listener = true
concerns proxy_transport_accepted transport = true
concerns command_initialized listener = true
concerns command_initialized transport = true
concerns proxy_transport_lost transport = true
concerns proxy_transport_lost session = true
concerns proxy_transport_lost feature = true
concerns proxy_transport_closed_locally transport = true
concerns proxy_transport_closed_locally session = true
concerns proxy_transport_closed_locally feature = true
concerns ptp_session_opened session = true
concerns ptp_session_closed session = true
concerns ptp_session_closed feature = true
concerns (feature_entered mode) feature = true
concerns feature_exited feature = true
concerns transition layer = false

-- A layer that has the same evidence in two snapshots.
abbrev pub Same : Layer → Snapshot → Snapshot → Type 0
Same persona s t = s.network_persona ≡ t.network_persona
Same listener s t = s.command_listener ≡ t.command_listener
Same transport s t = s.proxy_transport ≡ t.proxy_transport
Same session s t = s.ptp_session ≡ t.ptp_session
Same feature s t = s.feature ≡ t.feature

observed-Same :
    (transition : Transition) (layer : Layer) (s : Snapshot)
    → concerns transition layer ≡ false
    → Same layer (observed transition s) s
unfolding observed
observed-Same transition layer s h = ground arith

observed-sequence :
    (transition : Transition) (s : Snapshot) → (observed transition s).sequence ≡ s.sequence
unfolding observed
observed-sequence transition s = ground arith

-- What an event says of the snapshot that it was made from.
pub record IsEventOf (before : Snapshot) (transition : Transition) (event : TraceEvent)
    : Type 0 where
  pub from : event.before ≡ before
  pub cause : event.transition ≡ transition
  pub counted : event.sequence ≡ before.sequence + 1
  pub stamped : event.after.sequence ≡ event.sequence
  pub elsewhere :
      (layer : Layer) → concerns transition layer ≡ false → Same layer event.after before

layer-Same :
    (layer : Layer) (s before : Snapshot) (n : ℕ)
    → Same layer s (record before { sequence = n })
    → Same layer s before
layer-Same persona s before n h = h
layer-Same listener s before n h = h
layer-Same transport s before n h = h
layer-Same session s before n h = h
layer-Same feature s before n h = h

-- The event of an accepted transition.
abbrev event_of : Snapshot → Transition → TraceEvent
event_of before transition = record {
  sequence = before.sequence + 1;
  transition = transition;
  before = before;
  after = observed transition (record before { sequence = before.sequence + 1 });
}

apply_transition_ok :
    (before : Snapshot) (transition : Transition) (event : TraceEvent)
    → apply_transition before transition ≡ ok event
    → event_of before transition ≡ event
unfolding apply_transition
apply_transition_ok before transition event h =
    elim (Bool-cases (ltb (before.sequence + 1) (2 ^ 64))) [
      | inl p ↦ ok_inj (rw p at h)
      | inr p ↦ absurd (cc (rw p at h))
    ]

-- A transition that is accepted is recorded with its cause and with the snapshot that it started from,
-- carries the next sequence number, and leaves every layer that it is not evidence for as it was.
pub apply_transition-IsEventOf :
    (before : Snapshot) (transition : Transition) (event : TraceEvent)
    → apply_transition before transition ≡ ok event
    → IsEventOf before transition event
apply_transition-IsEventOf before transition event h =
    subst (IsEventOf before transition) (apply_transition_ok before transition event h) (record {
      from = refl;
      cause = refl;
      counted = refl;
      stamped = observed-sequence transition (record before { sequence = before.sequence + 1 });
      elsewhere = λ layer free.
          layer-Same layer (observed transition (record before { sequence = before.sequence + 1 }))
            before (before.sequence + 1)
            (observed-Same transition layer (record before { sequence = before.sequence + 1 })
              free);
    })

-- What a layer says, without whether it is confirmed.
abbrev pub last_value : {T : Type 0} → LifecycleEvidence T → Option T
last_value unknown = none
last_value (unconfirmed a) = some a
last_value (confirmed a) = some a

-- The snapshot behind a transport that has gone.
pub record IsTeardown (before after : Snapshot) : Type 0 where
  pub persona_kept : after.network_persona ≡ before.network_persona
  pub listener_kept : after.command_listener ≡ before.command_listener
  pub session_value : last_value after.ptp_session ≡ last_value before.ptp_session
  pub feature_value : last_value after.feature ≡ last_value before.feature
  pub session_doubted : after.ptp_session ≢ confirmed open'
  pub feature_doubted : (mode : FeatureMode) → after.feature ≢ confirmed (active mode)

observed-IsTeardown :
    (transition : Transition) (s : Snapshot)
    → (transition ≡ proxy_transport_lost) ⊎ (transition ≡ proxy_transport_closed_locally)
    → IsTeardown s (observed transition s)
unfolding observed
observed-IsTeardown transition s h = record {
  persona_kept = ground arith;
  listener_kept = ground arith;
  session_value = ground arith;
  feature_value = ground arith;
  session_doubted = ground arith;
  feature_doubted = ground arith;
}

-- A transport that is lost, or closed at this end, leaves the network persona and the command listener
-- as they were. The session and the feature keep their last values, but nothing claims any more that
-- the session is open or that a feature is active.
pub apply_transition-IsTeardown :
    (before : Snapshot) (transition : Transition) (event : TraceEvent)
    → apply_transition before transition ≡ ok event
    → (transition ≡ proxy_transport_lost) ⊎ (transition ≡ proxy_transport_closed_locally)
    → IsTeardown before event.after
apply_transition-IsTeardown before transition event h gone =
    subst (λ e. IsTeardown before e.after) (apply_transition_ok before transition event h)
      (let t =
          observed-IsTeardown transition (record before { sequence = before.sequence + 1 }) gone in
        record {
          persona_kept = t.persona_kept;
          listener_kept = t.listener_kept;
          session_value = t.session_value;
          feature_value = t.feature_value;
          session_doubted = t.session_doubted;
          feature_doubted = t.feature_doubted;
        })

-- A transition is refused exactly when the 64-bit sequence number has no successor.
pub apply_transition_refuses :
    (before : Snapshot) (transition : Transition)
    → (apply_transition before transition ≡ err sequence_overflow) ↔ (2 ^ 64 - 1 ≤ before.sequence)
unfolding apply_transition
apply_transition_refuses before transition = ((λ h. ground arith), λ h. ground arith)
