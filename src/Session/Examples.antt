-- ===== src/Session/Examples.antt =====
-- A session that starts and closes, and a configuration that leaves the most to the defaults.
use tip_olg_nats_agent_core.Common.{
  true, false, not, ◌||◌, none, some, [], ◌∷◌, ◌≡◌, refl, ◌⊎◌, pos, is_some,
}
use tip_olg_nats_agent_core.Strings.{
  Unicode, trim_space, to_lower, count_verbs, remove_verbs, any_char,
}
use tip_olg_nats_agent_core.Errors.{Error, nil, is_nil, external, other, bucket_missing}
use tip_olg_nats_agent_core.Results.{ok, err, first_error}
use tip_olg_nats_agent_core.Session.{Manager, Config, connected, closed, degraded}
use tip_olg_nats_agent_core.Session.Options.{
  NatsDefaults, normalize_config, normalized, with_defaults, sign_error, pattern_error,
  history_error, storage_error, validate_key_pattern,
}
use tip_olg_nats_agent_core.Session.Defaults.{IsNormal, normalize_config-IsNormal}
use tip_olg_nats_agent_core.Session.Lifecycle.{
  StartWorld, new_manager, start, start_body, close, start_begin, start_commit, start_finish,
}
use tip_olg_nats_agent_core.Session.Bind.{AsksSoundly, bind_or_create_kv, bind_or_create_kv-IsSound}
use tip_olg_nats_agent_core.Session.Outcome.{IsFree, start_lem, close_lem}
use tip_olg_nats_agent_core.Session.Coherent.{agrees}
use tip_olg_nats_agent_core.Session.Steps.{
  System, idle, starts, commits, finishes, Reach, initial, next, quiet, busy, ending,
}
use tip_olg_nats_agent_core.Session.Safety.{Reach-handles, Reach-quiet}

abbrev answering : StartWorld
answering = record {
  retry_on_failed_connect = false;
  nc_closed = false;
  done = 0;
  ctx_err = nil;
  connect = ok 1;
  ctx_err_connected = nil;
  jet_stream = ok 2;
  key_value = ok 3;
  url = "nats://127.0.0.1:4222";
}

new_manager-IsFree : IsFree new_manager
unfolding new_manager
new_manager-IsFree = record {
  not_starting = refl;
  no_channel = refl;
  not_closing = refl;
  not_requested = refl;
}

start_lem_example :
    (IsFree (start answering new_manager).0)
    × (((start answering new_manager).1 ≡ nil)
          × (is_some (start answering new_manager).0.nc ≡ true)
          × ((start answering new_manager).0.health.state ≡ connected)
        ⊎ (is_nil (start answering new_manager).1 ≡ false)
          × ((start answering new_manager).0.nc ≡ new_manager.nc)
          × ((start answering new_manager).0.health.state ≡ degraded))
unfolding new_manager
start_lem_example = start_lem answering new_manager new_manager-IsFree refl refl refl

abbrev running : Manager
running = (start answering new_manager).0

close_lem_example :
    (r : Manager × Error) × (close (external other "drain") running ≡ some r)
    × (IsFree r.0)
    × (is_some r.0.nc || is_some r.0.js || is_some r.0.kv ≡ false)
    × (r.0.health.state ≡ closed)
    × (is_nil r.1 ≡ not (is_some running.nc) || is_nil (external other "drain"))
unfolding start start_begin new_manager start_commit start_finish start_body
close_lem_example = close_lem (external other "drain") running start_lem_example.0 refl refl

abbrev begun : System
begun = record {
  m = (start_begin false false 0 new_manager).0;
  at = busy 0;
  waiting = [];
  draining = 0;
  made = 1;
}

abbrev committed : System
committed = record begun {
  m = (start_commit 1 2 3 "nats://127.0.0.1:4222" begun.m).0;
  at = ending 0;
}

abbrev finished : System
finished = record committed { m = start_finish 0 committed.m; at = idle }

finished-Reach : Reach finished
unfolding start_begin new_manager
finished-Reach =
    next committed finished
      (next begun committed
        (next (quiet new_manager) begun initial (starts false begun.m refl refl))
        (commits 0 1 2 3 "nats://127.0.0.1:4222" refl))
      (finishes 0 refl)

Reach-handles_example :
    (agrees finished.m.health.state finished.m.health.jet_stream_ready finished.m.health.kv_ready
        (is_some finished.m.nc)
      ≡ true)
    × (is_some finished.m.js ≡ is_some finished.m.nc)
    × (is_some finished.m.kv ≡ is_some finished.m.nc)
Reach-handles_example = Reach-handles finished finished-Reach

Reach-quiet_example :
    (finished.m.starting ≡ false)
    × (finished.m.closing ≡ false)
    × (finished.m.close_requested ≡ false)
    × (finished.m.start_done ≡ none)
Reach-quiet_example = Reach-quiet finished finished-Reach refl refl

abbrev latin : Unicode
latin = record { letter = λ c. false; digit = λ c. false; lower = λ c. c }

abbrev nats_defaults : NatsDefaults
nats_defaults = record { url = "nats://127.0.0.1:4222"; reconnect_buf_size = pos 8388608 }

abbrev sparse : Config
sparse = record {
  agent_name = "agent";
  nats = record {
    servers = " " ∷ [];
    client_name = "";
    credentials_file = "";
    nkey_seed_file = "";
    user_jwt_file = "";
    username = "";
    password = "";
    token = "";
    connect_timeout = pos 0;
    retry_on_failed_connect = false;
    max_reconnects = pos 0;
    reconnect_wait = pos 0;
    reconnect_buf_size = pos 0;
    tls = none;
  };
  jet_stream = record { domain = ""; api_prefix = ""; default_timeout = pos 0 };
  kv = record {
    bucket = "";
    key_pattern = " cfg.%s";
    auto_create_bucket = true;
    history = 0;
    ttl = pos 0;
    max_value_size = pos 0;
    storage = " MEMORY";
    replicas = pos 0;
  };
  timeouts = record {
    publish_timeout = pos 0;
    subscribe_timeout = pos 0;
    kv_timeout = pos 0;
    shutdown_timeout = pos 0;
  };
  retry = record { publish_attempts = pos 0; publish_backoff = pos 0 };
}

sparse_accepted :
    normalize_config latin nats_defaults sparse ≡ ok (normalized latin nats_defaults sparse)
unfolding normalize_config normalized with_defaults first_error sign_error pattern_error
    history_error storage_error validate_key_pattern trim_space to_lower count_verbs remove_verbs
    any_char
sparse_accepted = refl

normalize_config-IsNormal_example : IsNormal (normalized latin nats_defaults sparse)
normalize_config-IsNormal_example =
    normalize_config-IsNormal latin nats_defaults sparse (normalized latin nats_defaults sparse)
      (refl, refl) sparse_accepted

bind_or_create_kv-IsSound_example : AsksSoundly (
    bind_or_create_kv latin
      (normalized latin nats_defaults sparse).kv
      (err (external bucket_missing "nats: bucket not found"))
      (λ asked. ok 3))
bind_or_create_kv-IsSound_example =
    bind_or_create_kv-IsSound latin nats_defaults sparse (normalized latin nats_defaults sparse)
      (err (external bucket_missing "nats: bucket not found")) (λ asked. ok 3) (refl, refl)
      sparse_accepted
