-- ===== src/Client/New.antt =====
-- agentcore/client.go: New and its options. A logger, metrics, a clock and an error sink are numbers; the
-- clock of a client that is given none is `system_clock`.
use tip_olg_nats_agent_core.Common.{ℕ, false, Option, none, some, List, [], ◌∷◌}
use tip_olg_nats_agent_core.Strings.{Unicode}
use tip_olg_nats_agent_core.Errors.{nil, facade, fault, validation, or_else}
use tip_olg_nats_agent_core.Results.{Result, ok, err, public, ◌>>=◌}
use tip_olg_nats_agent_core.Session.{Config}
use tip_olg_nats_agent_core.Session.Options.{NatsDefaults, normalize_config}
use tip_olg_nats_agent_core.Session.Lifecycle.{new_manager}
use tip_olg_nats_agent_core.Subjects.{Builder, patterns_from_config, new_builder}
use tip_olg_nats_agent_core.Handlers.{sync_subscription_health}
use tip_olg_nats_agent_core.Handlers.Steps.{no_subscriptions}
use tip_olg_nats_agent_core.Client.Watches.{Watches}
use tip_olg_nats_agent_core.Client.Config.{PublicConfig, to_session_config, to_patterns}
use tip_olg_nats_agent_core.Client.Lifecycle.{Client, Hook, no_hook}

-- clientOptions
pub record ClientOptions : Type 0 where
  pub logger : Option ℕ
  pub metrics : Option ℕ
  pub now : ℕ
  pub error_sink : Option ℕ
  pub reconnect_handler : Hook
  pub disconnect_handler : Hook

-- Option, by the function of the package that makes it
pub data ClientOption : Type 0 where
  with_logger with_metrics with_clock with_error_sink : Option ℕ → ClientOption
  with_reconnect_handler with_disconnect_handler : Hook → ClientOption

unfoldable pub apply_option : ClientOption → ClientOptions → Result ClientOptions
apply_option (with_logger l) opts = ok (record opts { logger = l })
apply_option (with_metrics m) opts = ok (record opts { metrics = m })
apply_option (with_clock none) opts =
    err (facade (fault validation "with_clock" "clock function is nil" false) nil)
apply_option (with_clock (some now)) opts = ok (record opts { now = now })
apply_option (with_error_sink sink) opts = ok (record opts { error_sink = sink })
apply_option (with_reconnect_handler hook) opts = ok (record opts { reconnect_handler = hook })
apply_option (with_disconnect_handler hook) opts = ok (record opts { disconnect_handler = hook })

-- The loop of New over its options, of which some may be nil.
unfoldable pub apply_client_options :
    List (Option ClientOption) → ClientOptions → Result ClientOptions
apply_client_options [] opts = ok opts
apply_client_options (none ∷ rest) opts = apply_client_options rest opts
apply_client_options (some o ∷ rest) opts = elim (apply_option o opts) [
  | err e ↦ err e
  | ok opts' ↦ apply_client_options rest opts'
]

abbrev pub system_clock : ℕ
system_clock = 0

-- What New starts from.
unfoldable pub initial_options : ClientOptions
initial_options = record {
  logger = none;
  metrics = none;
  now = system_clock;
  error_sink = none;
  reconnect_handler = no_hook;
  disconnect_handler = no_hook;
}

-- The logger and the metrics of the configuration, where the options have none.
unfoldable pub with_observe : PublicConfig → ClientOptions → ClientOptions
with_observe cfg opts = record opts {
  logger = or_else opts.logger cfg.observe.logger;
  metrics = or_else opts.metrics cfg.observe.metrics;
}

unfoldable pub no_watches : Watches
no_watches = record {
  next_id = 0;
  active = [];
  watchers = record { unstopped = []; made = 0; lingering = []; sunk = [] };
  asked = 0;
  sunk = [];
}

-- A client with what it is made of.
pub record NewClient : Type 0 where
  pub client : Client
  pub cfg : PublicConfig
  pub options : ClientOptions
  pub subjects : Builder
  pub effective : Config

-- The client that New puts together.
unfoldable pub new_state : Client
new_state = record {
  session = new_manager;
  subscriptions = sync_subscription_health no_subscriptions;
  watches = no_watches;
  callbacks_enabled = false;
  contexts = record { handler_ctx = none; handler_cancel = none; cancelled = []; made = 0 };
  reconnected = 0;
  disconnected = 0;
}

-- New; NewStore and NewPublisher get the session, and refuse only nil.
unfoldable pub new_client :
    Unicode → NatsDefaults → PublicConfig → List (Option ClientOption) → Result NewClient
new_client u d cfg opts = apply_client_options opts initial_options >>= (λ o.
    public (patterns_from_config (to_patterns cfg.subjects)) >>= (λ patterns.
      public (new_builder patterns) >>= (λ builder.
        public (normalize_config u d (to_session_config cfg)) >>= (λ effective. ok (record {
          client = new_state;
          cfg = cfg;
          options = with_observe cfg o;
          subjects = builder;
          effective = effective;
        })))))
