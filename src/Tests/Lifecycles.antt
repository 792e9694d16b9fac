-- ===== src/Tests/Lifecycles.antt =====
-- crates/camera-config/src/lifecycle.rs at concrete transitions.
use ptpsim.Prelude.{◌≡◌, refl, inl, List, [], ◌∷◌, ok, length}
use ptpsim.Lifecycle.Types.{
  LifecycleEvidence, confirmed, unconfirmed, active, live_view, lost, initialized, open', listening,
  Snapshot, default, Transition, TraceEvent, LifecycleError, sequence_overflow, command_initialized,
  proxy_transport_lost, ptp_session_opened, feature_entered, apply_transition, Tracker, new_tracker,
}
use ptpsim.Lifecycle.Layers.{
  IsEventOf, apply_transition-IsEventOf, IsTeardown, apply_transition-IsTeardown,
}
use ptpsim.Lifecycle.Tracker.{IsHistory, apply_all, tracker-IsHistory}

-- A connected camera with a live view.
abbrev connected : Snapshot
connected = record default {
  sequence = 3;
  command_listener = confirmed listening;
  proxy_transport = confirmed initialized;
  ptp_session = confirmed open';
  feature = confirmed (active live_view);
}

abbrev torn : TraceEvent
torn = record {
  sequence = 4;
  transition = proxy_transport_lost;
  before = connected;
  after = record connected {
    sequence = 4;
    proxy_transport = confirmed lost;
    ptp_session = unconfirmed open';
    feature = unconfirmed (active live_view);
  };
}

torn-applied : apply_transition connected proxy_transport_lost ≡ ok torn
unfolding apply_transition
torn-applied = refl

apply_transition-IsEventOf_example : IsEventOf connected proxy_transport_lost torn
apply_transition-IsEventOf_example =
    apply_transition-IsEventOf connected proxy_transport_lost torn torn-applied

apply_transition-IsTeardown_example : IsTeardown connected torn.after
apply_transition-IsTeardown_example =
    apply_transition-IsTeardown connected proxy_transport_lost torn torn-applied (inl refl)

abbrev history : List Transition
history = command_initialized ∷ ptp_session_opened ∷ feature_entered live_view ∷ []

abbrev tracked : Tracker
tracked = record {
  snapshot = connected;
  trace =
      record {
        sequence = 1;
        transition = command_initialized;
        before = default;
        after = after_init;
      }
      ∷ record {
        sequence = 2;
        transition = ptp_session_opened;
        before = after_init;
        after = after_open;
      }
      ∷ record {
        sequence = 3;
        transition = feature_entered live_view;
        before = after_open;
        after = connected;
      }
      ∷ [];
}
  where
    after_init : Snapshot
    after_init = record default {
      sequence = 1;
      command_listener = confirmed listening;
      proxy_transport = confirmed initialized;
    }

    after_open : Snapshot
    after_open = record after_init { sequence = 2; ptp_session = confirmed open' }

tracked-applied : apply_all new_tracker history ≡ ok tracked
unfolding ptpsim.Lifecycle.Types.apply
tracked-applied = refl

tracker-IsHistory_example : IsHistory tracked (length history)
tracker-IsHistory_example = tracker-IsHistory history tracked tracked-applied
