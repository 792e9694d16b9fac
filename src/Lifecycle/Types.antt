-- ===== src/Lifecycle/Types.antt =====
-- crates/camera-config/src/lifecycle.rs: the layers, their evidence and one transition. The schema's
-- version, which has one value, is left out of the records.
use ptpsim.Prelude.{
  ℕ, ◌+◌, ◌^◌, List, [], ◌∷◌, ◌++◌, Result, ok, err, length, drop, ltb, if◌then◌else◌,
}
use ptpsim.Prelude.Try.{◌>>=◌}

pub data LifecycleEvidence (T : Type 0) : Type 0 where
  unknown : LifecycleEvidence T
  unconfirmed : T → LifecycleEvidence T
  confirmed : T → LifecycleEvidence T

pub data NetworkPersonaState : Type 0 where
  ready exited : NetworkPersonaState

pub data CommandListenerState : Type 0 where
  listening : CommandListenerState

pub data ProxyTransportState : Type 0 where
  accepted initialized lost locally_closed : ProxyTransportState

pub data PtpSessionState : Type 0 where
  open' closed : PtpSessionState

pub data FeatureMode : Type 0 where
  live_view image_transfer : FeatureMode

pub data FeatureState : Type 0 where
  inactive : FeatureState
  active : (mode : FeatureMode) → FeatureState

pub record Snapshot : Type 0 where
  pub sequence : ℕ
  pub network_persona : LifecycleEvidence NetworkPersonaState
  pub command_listener : LifecycleEvidence CommandListenerState
  pub proxy_transport : LifecycleEvidence ProxyTransportState
  pub ptp_session : LifecycleEvidence PtpSessionState
  pub feature : LifecycleEvidence FeatureState

abbrev pub default : Snapshot
default = record {
  sequence = 0;
  network_persona = unknown;
  command_listener = unknown;
  proxy_transport = unknown;
  ptp_session = unknown;
  feature = unknown;
}

pub data Transition : Type 0 where
  network_persona_ready network_persona_exit_requested network_persona_exit_confirmed : Transition
  command_listener_ready proxy_transport_accepted command_initialized : Transition
  proxy_transport_lost proxy_transport_closed_locally : Transition
  ptp_session_opened ptp_session_closed : Transition
  feature_entered : (mode : FeatureMode) → Transition
  feature_exited : Transition

pub record TraceEvent : Type 0 where
  pub sequence : ℕ
  pub transition : Transition
  pub before : Snapshot
  pub after : Snapshot

pub data LifecycleError : Type 0 where
  sequence_overflow : LifecycleError

-- `matches!(ptp_session, Confirmed(Open))`, which becomes `Unconfirmed(Open)`.
abbrev pub doubt_session : LifecycleEvidence PtpSessionState → LifecycleEvidence PtpSessionState
doubt_session (confirmed open') = unconfirmed open'
doubt_session (confirmed closed) = confirmed closed
doubt_session (unconfirmed state) = unconfirmed state
doubt_session unknown = unknown

abbrev pub doubt_feature : LifecycleEvidence FeatureState → LifecycleEvidence FeatureState
doubt_feature (confirmed (active mode)) = unconfirmed (active mode)
doubt_feature (confirmed inactive) = confirmed inactive
doubt_feature (unconfirmed state) = unconfirmed state
doubt_feature unknown = unknown

unfoldable pub mark_open_layers_unconfirmed : Snapshot → Snapshot
mark_open_layers_unconfirmed s = record s {
  ptp_session = doubt_session s.ptp_session;
  feature = doubt_feature s.feature;
}

-- The `match` of `apply_connection_lifecycle_transition`, on the snapshot with the new sequence number.
unfoldable pub observed : Transition → Snapshot → Snapshot
unfolding mark_open_layers_unconfirmed
observed network_persona_ready s = record s { network_persona = confirmed ready }
observed network_persona_exit_requested s = record s { network_persona = unconfirmed exited }
observed network_persona_exit_confirmed s = record s { network_persona = confirmed exited }
observed command_listener_ready s = record s { command_listener = confirmed listening }
observed proxy_transport_accepted s = record s { proxy_transport = confirmed accepted }
observed command_initialized s = record s {
  command_listener = confirmed listening;
  proxy_transport = confirmed initialized;
}
observed proxy_transport_lost s =
    mark_open_layers_unconfirmed (record s { proxy_transport = confirmed lost })
observed proxy_transport_closed_locally s =
    mark_open_layers_unconfirmed (record s { proxy_transport = confirmed locally_closed })
observed ptp_session_opened s = record s { ptp_session = confirmed open' }
observed ptp_session_closed s = record s {
  ptp_session = confirmed closed;
  feature = confirmed inactive;
}
observed (feature_entered mode) s = record s { feature = confirmed (active mode) }
observed feature_exited s = record s { feature = confirmed inactive }

-- `checked_add(1)` on a `u64`.
abbrev pub next_sequence : ℕ → Result LifecycleError ℕ
next_sequence n = if ltb (n + 1) (2 ^ 64) then ok (n + 1) else err sequence_overflow

unfoldable pub apply_transition : Snapshot → Transition → Result LifecycleError TraceEvent
unfolding observed
apply_transition before transition = do
  sequence ← next_sequence before.sequence
  ok (record {
    sequence = sequence;
    transition = transition;
    before = before;
    after = observed transition (record before { sequence = sequence });
  })

abbrev pub max_trace_events : ℕ
max_trace_events = 512

pub record Tracker : Type 0 where
  pub snapshot : Snapshot
  pub trace : List TraceEvent

abbrev pub new_tracker : Tracker
new_tracker = record { snapshot = default; trace = [] }

-- `trace.push(event)`, and `trace.remove(0)` if that makes it too long.
abbrev pub keep_last : List TraceEvent → List TraceEvent
keep_last trace = if ltb max_trace_events (length trace) then drop 1 trace else trace

unfoldable pub apply : Tracker → Transition → Result LifecycleError (Tracker × TraceEvent)
unfolding apply_transition
apply t transition = do
  event ← apply_transition t.snapshot transition
  ok (record { snapshot = event.after; trace = keep_last (t.trace ++ (event ∷ [])) }, event)
