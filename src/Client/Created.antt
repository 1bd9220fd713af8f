-- ===== src/Client/Created.antt =====
-- agentcore/client.go: what New answers.
use tip_olg_nats_agent_core.Common.{
  ℕ, String, ◌≡◌, ◌==◌, Bool, false, none, ℤ, pos, is_zero, if◌then◌else◌,
}
use tip_olg_nats_agent_core.Strings.{Unicode, trim_space}
use tip_olg_nats_agent_core.Errors.{Error, nil}
use tip_olg_nats_agent_core.Results.{Result, ok, err}
use tip_olg_nats_agent_core.Session.{Config}
use tip_olg_nats_agent_core.Session.Options.{NatsDefaults}
use tip_olg_nats_agent_core.Session.Defaults.{IsNormal}
use tip_olg_nats_agent_core.Session.Outcome.{IsFree}
use tip_olg_nats_agent_core.Subjects.{Patterns, validate_patterns}
use tip_olg_nats_agent_core.Kv.Start.{Attempt}
use tip_olg_nats_agent_core.Handlers.Owned.{IsSound}
use tip_olg_nats_agent_core.Client.Lifecycle.{Client}
use tip_olg_nats_agent_core.Client.Closed.{IsLinked}
use tip_olg_nats_agent_core.Client.Reached.{IsReached}
use tip_olg_nats_agent_core.Client.Config.{PublicConfig, SubjectConfig}
use tip_olg_nats_agent_core.Client.New.{NewClient}

-- A client that nothing was done to yet: what the theorems on its operations start from.
pub record IsCreated (c : Client) : Type 0 where
  pub session : IsFree c.session
  pub no_connection : c.session.nc ≡ none
  pub subscriptions : IsSound c.subscriptions
  pub contexts : IsLinked c.contexts
  pub disabled : c.callbacks_enabled ≡ false
  pub watches :
      (u : Unicode) (key_pattern : String) (has_sink : Bool) (attempts : ℕ → Attempt)
      (ctx_err : ℕ → Error)
      → IsReached u key_pattern has_sink attempts ctx_err c.watches

abbrev given_or : String → String → String
given_or given default = if given == "" then default else given

abbrev time_or : ℤ → ℕ → ℤ
time_or given nanoseconds = if is_zero given then pos nanoseconds else given

-- A session has the credentials that a client was given, and its times, its attempts and the names of its
-- bucket and its keys, with the defaults where these were left at zero or empty.
abbrev pub IsConfigured : PublicConfig → Config → Type 0
IsConfigured cfg out =
    (out.agent_name ≡ cfg.agent_name)
    × (out.nats.client_name ≡ cfg.nats.client_name)
    × (out.nats.credentials_file ≡ cfg.nats.credentials_file)
    × (out.nats.nkey_seed_file ≡ cfg.nats.nkey_seed_file)
    × (out.nats.user_jwt_file ≡ cfg.nats.user_jwt_file)
    × (out.nats.username ≡ cfg.nats.username)
    × (out.nats.password ≡ cfg.nats.password)
    × (out.nats.token ≡ cfg.nats.token)
    × (out.nats.retry_on_failed_connect ≡ cfg.nats.retry_on_failed_connect)
    × (out.nats.connect_timeout ≡ time_or cfg.nats.connect_timeout 5000000000)
    × (out.nats.reconnect_wait ≡ time_or cfg.nats.reconnect_wait 2000000000)
    × (out.timeouts.publish_timeout ≡ time_or cfg.timeouts.publish_timeout 5000000000)
    × (out.timeouts.subscribe_timeout ≡ time_or cfg.timeouts.subscribe_timeout 5000000000)
    × (out.timeouts.kv_timeout ≡ time_or cfg.timeouts.kv_timeout 5000000000)
    × (out.timeouts.shutdown_timeout ≡ time_or cfg.timeouts.shutdown_timeout 10000000000)
    × (out.retry.publish_attempts ≡ time_or cfg.retry.publish_attempts 3)
    × (out.retry.publish_backoff ≡ time_or cfg.retry.publish_backoff 200000000)
    × (out.kv.bucket ≡ given_or (trim_space cfg.kv.bucket) "cfg_desired")
    × (out.kv.key_pattern ≡ given_or (trim_space cfg.kv.key_pattern) "desired.%s")
    × (out.kv.auto_create_bucket ≡ cfg.kv.auto_create_bucket)

-- The patterns that a client was given, each with its own default where it was left empty.
abbrev pub HasPatterns : SubjectConfig → Patterns → Type 0
HasPatterns cfg p =
    (p.configure_pattern ≡ given_or cfg.configure_pattern "cmd.configure.%s")
    × (p.action_pattern ≡ given_or cfg.action_pattern "cmd.action.%s.%s")
    × (p.result_pattern ≡ given_or cfg.result_pattern "result.%s")
    × (p.status_pattern ≡ given_or cfg.status_pattern "status.%s")
    × (p.health_pattern ≡ given_or cfg.health_pattern "health.%s")
    × (validate_patterns p ≡ nil)

abbrev Promised : Unicode → NatsDefaults → PublicConfig → NewClient → Type 0
Promised u d cfg n =
    IsCreated n.client
    × IsNormal n.effective
    × IsConfigured cfg n.effective
    × HasPatterns cfg.subjects n.subjects.patterns

abbrev PromisedAt : Unicode → NatsDefaults → PublicConfig → Result NewClient → Type 0
PromisedAt u d cfg (err e) = Unit
PromisedAt u d cfg (ok n) = Promised u d cfg n
