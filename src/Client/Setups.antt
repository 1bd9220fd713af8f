-- ===== src/Client/Setups.antt =====
-- The theorem on New at a configuration that leaves the most to the defaults.
use tip_olg_nats_agent_core.Common.{true, false, none, some, [], pos}
use tip_olg_nats_agent_core.Session.Options.{NatsDefaults, normalized}
use tip_olg_nats_agent_core.Subjects.{resolve_patterns}
use tip_olg_nats_agent_core.Client.Lifecycle.{no_hook, returns_hook}
use tip_olg_nats_agent_core.Client.Config.{PublicConfig, to_session_config, to_patterns}
use tip_olg_nats_agent_core.Client.New.{NewClient, new_state}
use tip_olg_nats_agent_core.Client.Examples.{ascii}

abbrev defaults : NatsDefaults
defaults = record { url = "nats://127.0.0.1:4222"; reconnect_buf_size = pos 8388608 }

abbrev sparse : PublicConfig
sparse = record {
  agent_name = "agent";
  version = "1";
  nats = record {
    servers = [];
    client_name = "";
    credentials_file = "";
    nkey_seed_file = "";
    user_jwt_file = "";
    username = "";
    password = "";
    token = "";
    connect_timeout = pos 0;
    retry_on_failed_connect = false;
    max_reconnects = pos 0;
    reconnect_wait = pos 0;
    reconnect_buf_size = pos 0;
    tls = none;
  };
  jet_stream = record { domain = ""; api_prefix = ""; default_timeout = pos 0 };
  subjects = record {
    configure_pattern = "";
    action_pattern = "";
    result_pattern = "out.%s";
    status_pattern = "";
    health_pattern = "";
  };
  kv = record {
    bucket = "";
    key_pattern = "";
    auto_create_bucket = true;
    history = 0;
    ttl = pos 0;
    max_value_size = pos 0;
    storage = "";
    replicas = pos 0;
  };
  timeouts = record {
    publish_timeout = pos 0;
    subscribe_timeout = pos 0;
    kv_timeout = pos 0;
    shutdown_timeout = pos 0;
  };
  retry = record { publish_attempts = pos 0; publish_backoff = pos 0 };
  observe = record { logger = some 4; metrics = none };
}

abbrev made : NewClient
made = record {
  client = new_state;
  cfg = sparse;
  options = record {
    logger = some 4;
    metrics = none;
    now = 9;
    error_sink = none;
    reconnect_handler = returns_hook;
    disconnect_handler = no_hook;
  };
  subjects = record { patterns = resolve_patterns (to_patterns sparse.subjects) };
  effective = normalized ascii defaults (to_session_config sparse);
}
