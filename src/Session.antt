-- ===== src/Session.antt =====
-- internal/session/types.go and the Manager record of session.go. Handles of the NATS packages (the
-- connection, the JetStream context, the KV bucket, a channel) are pointers: numbers that stand for
-- them, `none` for nil. A time.Duration is an integer of nanoseconds.
pub mod Options
pub mod Health
pub mod Lifecycle
pub mod Steps
pub mod Coherent
pub mod Safety
pub mod Connect
pub mod Connected
pub mod Bind
pub mod Outcome
pub mod Defaults
mod Examples
mod Connections
use tip_olg_nats_agent_core.Common.{ℕ, String, Bool, Option, List, ℤ}

-- TLSConfig
pub record TlsConfig : Type 0 where
  pub enabled : Bool
  pub insecure_skip_verify : Bool
  pub ca_file : String
  pub cert_file : String
  pub key_file : String
  pub server_name : String

-- NATSConfig
pub record NatsConfig : Type 0 where
  pub servers : List String
  pub client_name : String
  pub credentials_file : String
  pub nkey_seed_file : String
  pub user_jwt_file : String
  pub username : String
  pub password : String
  pub token : String
  pub connect_timeout : ℤ
  pub retry_on_failed_connect : Bool
  pub max_reconnects : ℤ
  pub reconnect_wait : ℤ
  pub reconnect_buf_size : ℤ
  pub tls : Option TlsConfig

-- JetStreamConfig
pub record JetStreamConfig : Type 0 where
  pub domain : String
  pub api_prefix : String
  pub default_timeout : ℤ

-- KVConfig; history is a uint8
pub record KvConfig : Type 0 where
  pub bucket : String
  pub key_pattern : String
  pub auto_create_bucket : Bool
  pub history : ℕ
  pub ttl : ℤ
  pub max_value_size : ℤ
  pub storage : String
  pub replicas : ℤ

-- TimeoutConfig
pub record TimeoutConfig : Type 0 where
  pub publish_timeout : ℤ
  pub subscribe_timeout : ℤ
  pub kv_timeout : ℤ
  pub shutdown_timeout : ℤ

-- RetryConfig
pub record RetryConfig : Type 0 where
  pub publish_attempts : ℤ
  pub publish_backoff : ℤ

-- Config, of which EffectiveConfig is a copy
pub record Config : Type 0 where
  pub agent_name : String
  pub nats : NatsConfig
  pub jet_stream : JetStreamConfig
  pub kv : KvConfig
  pub timeouts : TimeoutConfig
  pub retry : RetryConfig

-- ConnectionState
pub data ConnectionState : Type 0 where
  fresh connecting connected reconnecting draining closed degraded : ConnectionState

-- HealthSnapshot
pub record HealthSnapshot : Type 0 where
  pub state : ConnectionState
  pub connected_url : String
  pub jet_stream_ready : Bool
  pub kv_ready : Bool
  pub registered_subscriptions : ℕ
  pub active_subscriptions : ℕ
  pub last_error : String

-- Manager, without its configuration and hooks, which do not change after NewManager but for the
-- callbacks that the client sets.
pub record Manager : Type 0 where
  pub nc : Option ℕ
  pub js : Option ℕ
  pub kv : Option ℕ
  pub health : HealthSnapshot
  pub starting : Bool
  pub start_done : Option ℕ
  pub closing : Bool
  pub close_requested : Bool
