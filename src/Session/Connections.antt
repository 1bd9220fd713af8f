-- ===== src/Session/Connections.antt =====
-- The theorems on the options of a connection at a concrete configuration.
use tip_olg_nats_agent_core.Common.{◌≡◌, refl, true, false, some, List, [], ◌∷◌, pos, ltb_ℤ}
use tip_olg_nats_agent_core.Strings.{trim_space}
use tip_olg_nats_agent_core.Errors.{nil, external, other}
use tip_olg_nats_agent_core.Results.{ok, err}
use tip_olg_nats_agent_core.Session.{Config}
use tip_olg_nats_agent_core.Session.Defaults.{IsPositive}
use tip_olg_nats_agent_core.Session.Connect.{
  Files, NatsOption, clamp_connect_timeout, build_nats_options, build_tls_config, auth_option,
  name_option, secure_option, base_options, root_cas_of, certificate_of,
}
use tip_olg_nats_agent_core.Session.Connected.{
  IsWithin, clamp_connect_timeout_lem, is_auth, is_secure, how_many, build_nats_options_lem,
}

clamp_connect_timeout_lem_example :
    IsPositive (pos 3) × (ltb_ℤ (pos 5) (pos 3) ≡ false) × IsWithin (some (pos 3)) (pos 3)
unfolding clamp_connect_timeout
clamp_connect_timeout_lem_example =
    clamp_connect_timeout_lem (some (pos 3)) (pos 5) (pos 3) (refl, refl) refl

abbrev no_files : Files
no_files = record {
  read_file = λ f. err (external other "no such file");
  append_certs = λ bytes. true;
  load_key_pair = λ cert key. ok 1;
  nkey_from_seed = λ f. nil;
}

abbrev config : Config
config = record {
  agent_name = "agent";
  nats = record {
    servers = "nats://a" ∷ [];
    client_name = "";
    credentials_file = "";
    nkey_seed_file = "";
    user_jwt_file = "a.jwt";
    username = "u";
    password = "";
    token = "t";
    connect_timeout = pos 5;
    retry_on_failed_connect = false;
    max_reconnects = pos 1;
    reconnect_wait = pos 1;
    reconnect_buf_size = pos 1;
    tls = some (record {
      enabled = true;
      insecure_skip_verify = false;
      ca_file = "";
      cert_file = "c";
      key_file = "k";
      server_name = "s";
    });
  };
  jet_stream = record { domain = ""; api_prefix = ""; default_timeout = pos 1 };
  kv = record {
    bucket = "b";
    key_pattern = "desired.%s";
    auto_create_bucket = false;
    history = 1;
    ttl = pos 0;
    max_value_size = pos 0;
    storage = "file";
    replicas = pos 1;
  };
  timeouts = record {
    publish_timeout = pos 1;
    subscribe_timeout = pos 1;
    kv_timeout = pos 1;
    shutdown_timeout = pos 1;
  };
  retry = record { publish_attempts = pos 1; publish_backoff = pos 1 };
}

abbrev options : List NatsOption
options = elim (build_nats_options no_files config (pos 3)) [ err e ↦ [] | ok opts ↦ opts ]

build_nats_options_lem_example : (how_many is_auth options ≡ 1) × (how_many is_secure options ≡ 1)
unfolding build_nats_options build_tls_config auth_option name_option secure_option base_options
    root_cas_of certificate_of trim_space
build_nats_options_lem_example = build_nats_options_lem no_files config (pos 3) options refl
