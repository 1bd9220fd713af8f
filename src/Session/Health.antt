-- ===== src/Session/Health.antt =====
-- internal/session/health.go. The metrics hook, which is told each new state, is left out: it does not
-- change the manager.
use tip_olg_nats_agent_core.Common.{ℕ, String, Bool, false, ◌&&◌, if◌then◌else◌}
use tip_olg_nats_agent_core.Errors.{Error, is_nil, error_text}
use tip_olg_nats_agent_core.Session.{
  ConnectionState, connected, reconnecting, closed, degraded, HealthSnapshot, Manager,
}

-- setStateLocked
abbrev pub set_state : Manager → ConnectionState → Manager
set_state m state = record m { health = record (m.health) { state = state } }

-- The LastError that a setter leaves.
abbrev pub last_error_after : HealthSnapshot → Error → String
last_error_after h e = if is_nil e then h.last_error else error_text e

-- setConnectedLocked
abbrev pub set_connected : Manager → String → Bool → Bool → Manager
set_connected m url js_ready kv_ready = record m {
  health = record (m.health) {
    connected_url = url;
    jet_stream_ready = js_ready;
    kv_ready = kv_ready;
    last_error = "";
    state = if js_ready && kv_ready then connected else degraded;
  };
}

-- setReconnectingLocked
abbrev pub set_reconnecting : Manager → Error → Manager
set_reconnecting m e = record m {
  health = record (m.health) {
    jet_stream_ready = false;
    kv_ready = false;
    last_error = last_error_after m.health e;
    state = reconnecting;
  };
}

-- setDegradedLocked
abbrev pub set_degraded : Manager → Error → Manager
set_degraded m e = record m {
  health = record (m.health) {
    jet_stream_ready = false;
    kv_ready = false;
    last_error = last_error_after m.health e;
    state = degraded;
  };
}

-- setClosedLocked
abbrev pub set_closed : Manager → Error → Manager
set_closed m e = record m {
  health = record (m.health) {
    connected_url = "";
    jet_stream_ready = false;
    kv_ready = false;
    last_error = last_error_after m.health e;
    state = closed;
  };
}

-- SetSubscriptionCounts
abbrev pub set_subscription_counts : Manager → ℕ → ℕ → Manager
set_subscription_counts m registered active = record m {
  health = record (m.health) {
    registered_subscriptions = registered;
    active_subscriptions = active;
  };
}
