-- ===== src/Client/Config.antt =====
-- agentcore/config.go: the configuration that a client is given, and its conversion for internal/session
-- (toSessionConfig and toSessionTLS of agentcore/client.go). A logger and metrics are numbers.
use tip_olg_nats_agent_core.Common.{ℕ, String, Bool, Option, none, some, List, ℤ}
use tip_olg_nats_agent_core.Session.{Config, TlsConfig}
use tip_olg_nats_agent_core.Subjects.{Patterns}

-- TLSConfig
pub record PublicTlsConfig : Type 0 where
  pub enabled : Bool
  pub insecure_skip_verify : Bool
  pub ca_file : String
  pub cert_file : String
  pub key_file : String
  pub server_name : String

-- NATSConfig
pub record PublicNatsConfig : Type 0 where
  pub servers : List String
  pub client_name : String
  pub credentials_file : String
  pub nkey_seed_file : String
  pub user_jwt_file : String
  pub username : String
  pub password : String
  pub token : String
  pub connect_timeout : ℤ
  pub retry_on_failed_connect : Bool
  pub max_reconnects : ℤ
  pub reconnect_wait : ℤ
  pub reconnect_buf_size : ℤ
  pub tls : Option PublicTlsConfig

-- JetStreamConfig
pub record PublicJetStreamConfig : Type 0 where
  pub domain : String
  pub api_prefix : String
  pub default_timeout : ℤ

-- SubjectConfig
pub record SubjectConfig : Type 0 where
  pub configure_pattern : String
  pub action_pattern : String
  pub result_pattern : String
  pub status_pattern : String
  pub health_pattern : String

-- KVConfig
pub record PublicKvConfig : Type 0 where
  pub bucket : String
  pub key_pattern : String
  pub auto_create_bucket : Bool
  pub history : ℕ
  pub ttl : ℤ
  pub max_value_size : ℤ
  pub storage : String
  pub replicas : ℤ

-- TimeoutConfig
pub record PublicTimeoutConfig : Type 0 where
  pub publish_timeout : ℤ
  pub subscribe_timeout : ℤ
  pub kv_timeout : ℤ
  pub shutdown_timeout : ℤ

-- RetryConfig
pub record PublicRetryConfig : Type 0 where
  pub publish_attempts : ℤ
  pub publish_backoff : ℤ

-- ObserveConfig
pub record ObserveConfig : Type 0 where
  pub logger : Option ℕ
  pub metrics : Option ℕ

-- Config
pub record PublicConfig : Type 0 where
  pub agent_name : String
  pub version : String
  pub nats : PublicNatsConfig
  pub jet_stream : PublicJetStreamConfig
  pub subjects : SubjectConfig
  pub kv : PublicKvConfig
  pub timeouts : PublicTimeoutConfig
  pub retry : PublicRetryConfig
  pub observe : ObserveConfig

-- toSessionTLS
unfoldable pub to_session_tls : Option PublicTlsConfig → Option TlsConfig
to_session_tls none = none
to_session_tls (some cfg) = some (record {
  enabled = cfg.enabled;
  insecure_skip_verify = cfg.insecure_skip_verify;
  ca_file = cfg.ca_file;
  cert_file = cfg.cert_file;
  key_file = cfg.key_file;
  server_name = cfg.server_name;
})

-- toSessionConfig
unfoldable pub to_session_config : PublicConfig → Config
to_session_config cfg = record {
  agent_name = cfg.agent_name;
  nats = record {
    servers = cfg.nats.servers;
    client_name = cfg.nats.client_name;
    credentials_file = cfg.nats.credentials_file;
    nkey_seed_file = cfg.nats.nkey_seed_file;
    user_jwt_file = cfg.nats.user_jwt_file;
    username = cfg.nats.username;
    password = cfg.nats.password;
    token = cfg.nats.token;
    connect_timeout = cfg.nats.connect_timeout;
    retry_on_failed_connect = cfg.nats.retry_on_failed_connect;
    max_reconnects = cfg.nats.max_reconnects;
    reconnect_wait = cfg.nats.reconnect_wait;
    reconnect_buf_size = cfg.nats.reconnect_buf_size;
    tls = to_session_tls cfg.nats.tls;
  };
  jet_stream = record {
    domain = cfg.jet_stream.domain;
    api_prefix = cfg.jet_stream.api_prefix;
    default_timeout = cfg.jet_stream.default_timeout;
  };
  kv = record {
    bucket = cfg.kv.bucket;
    key_pattern = cfg.kv.key_pattern;
    auto_create_bucket = cfg.kv.auto_create_bucket;
    history = cfg.kv.history;
    ttl = cfg.kv.ttl;
    max_value_size = cfg.kv.max_value_size;
    storage = cfg.kv.storage;
    replicas = cfg.kv.replicas;
  };
  timeouts = record {
    publish_timeout = cfg.timeouts.publish_timeout;
    subscribe_timeout = cfg.timeouts.subscribe_timeout;
    kv_timeout = cfg.timeouts.kv_timeout;
    shutdown_timeout = cfg.timeouts.shutdown_timeout;
  };
  retry = record {
    publish_attempts = cfg.retry.publish_attempts;
    publish_backoff = cfg.retry.publish_backoff;
  };
}

-- The subjects.Config that New makes.
unfoldable pub to_patterns : SubjectConfig → Patterns
to_patterns cfg = record {
  configure_pattern = cfg.configure_pattern;
  action_pattern = cfg.action_pattern;
  result_pattern = cfg.result_pattern;
  status_pattern = cfg.status_pattern;
  health_pattern = cfg.health_pattern;
}
