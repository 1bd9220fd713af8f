-- ===== src/Session/Options.antt =====
-- internal/session/options.go. The default server and buffer size are constants of the NATS package.
use Prim.Native.String.{◌++◌}
use tip_olg_nats_agent_core.Common.{
  ℕ, ◌*◌, String, ◌==◌, not, ◌&&◌, List, [], ◌∷◌, nat_eq, ltb, ℤ, pos, negsuc, is_neg, is_zero,
  ltb_ℤ, if◌then◌else◌,
}
use tip_olg_nats_agent_core.Strings.{
  Unicode, trim_space, to_lower, contains_whitespace, contains_char, count_verbs, remove_verbs,
}
use tip_olg_nats_agent_core.Errors.{
  Error, nil, is_nil, error_text, external, other, validation_error,
}
use tip_olg_nats_agent_core.Results.{Result, ok, check, ◌>>◌, first_error}
use tip_olg_nats_agent_core.Session.{Config}

-- nats.DefaultURL and nats.DefaultReconnectBufSize
pub record NatsDefaults : Type 0 where
  pub url : String
  pub reconnect_buf_size : ℤ

-- The number of nanoseconds in so many milliseconds.
abbrev pub milliseconds : ℕ → ℤ
milliseconds n = pos (n * 1000000)

abbrev pub normalize_op : String
normalize_op = "normalize_runtime_config"

-- A check of the first part of normalizeConfig.
abbrev pub not_negative : ℤ → String → Error
not_negative n field =
    if is_neg n then validation_error normalize_op (field ++ " cannot be negative") else nil

-- The checks on the signs.
unfoldable pub sign_error : Config → Error
sign_error c = first_error (
    not_negative c.nats.connect_timeout "nats.connect_timeout"
    ∷ not_negative c.nats.reconnect_wait "nats.reconnect_wait"
    ∷ (if ltb_ℤ c.nats.max_reconnects (negsuc 0)
        then validation_error normalize_op "nats.max_reconnects must be -1 or greater"
        else nil)
    ∷ not_negative c.nats.reconnect_buf_size "nats.reconnect_buf_size"
    ∷ not_negative c.jet_stream.default_timeout "jetstream.default_timeout"
    ∷ not_negative c.timeouts.publish_timeout "timeouts.publish_timeout"
    ∷ not_negative c.timeouts.subscribe_timeout "timeouts.subscribe_timeout"
    ∷ not_negative c.timeouts.kv_timeout "timeouts.kv_timeout"
    ∷ not_negative c.timeouts.shutdown_timeout "timeouts.shutdown_timeout"
    ∷ not_negative c.retry.publish_attempts "retry.publish_attempts"
    ∷ not_negative c.retry.publish_backoff "retry.publish_backoff"
    ∷ not_negative c.kv.ttl "kv.ttl"
    ∷ not_negative c.kv.max_value_size "kv.max_value_size"
    ∷ not_negative c.kv.replicas "kv.replicas"
    ∷ [])

-- The loop over the servers: trimmed, the empty ones dropped.
unfoldable pub named_servers : List String → List String
named_servers [] = []
named_servers (s ∷ rest) =
    let tail = named_servers rest in if trim_space s == "" then tail else trim_space s ∷ tail

abbrev pub or_default : List String → String → List String
or_default [] url = url ∷ []
or_default (s ∷ rest) url = s ∷ rest

-- A number that was left at 0.
abbrev pub filled : ℤ → ℤ → ℤ
filled n default = if is_zero n then default else n

-- A text that was left empty.
abbrev pub filled_text : String → String → String
filled_text s default = if s == "" then default else s

-- The configuration with the defaults filled in, but for the storage, which is last.
unfoldable pub with_defaults : NatsDefaults → Config → Config
with_defaults d c = record c {
  nats = record (c.nats) {
    servers = or_default (named_servers c.nats.servers) d.url;
    connect_timeout = filled c.nats.connect_timeout (milliseconds 5000);
    max_reconnects = filled c.nats.max_reconnects (negsuc 0);
    reconnect_wait = filled c.nats.reconnect_wait (milliseconds 2000);
    reconnect_buf_size = filled c.nats.reconnect_buf_size d.reconnect_buf_size;
  };
  jet_stream = record (c.jet_stream) {
    default_timeout = filled c.jet_stream.default_timeout (milliseconds 5000);
  };
  timeouts = record {
    publish_timeout = filled c.timeouts.publish_timeout (milliseconds 5000);
    subscribe_timeout = filled c.timeouts.subscribe_timeout (milliseconds 5000);
    kv_timeout = filled c.timeouts.kv_timeout (milliseconds 5000);
    shutdown_timeout = filled c.timeouts.shutdown_timeout (milliseconds 10000);
  };
  retry = record {
    publish_attempts = filled c.retry.publish_attempts (pos 3);
    publish_backoff = filled c.retry.publish_backoff (milliseconds 200);
  };
  kv = record (c.kv) {
    bucket = filled_text (trim_space c.kv.bucket) "cfg_desired";
    key_pattern = filled_text (trim_space c.kv.key_pattern) "desired.%s";
    history = if nat_eq c.kv.history 0 then 1 else c.kv.history;
    replicas = filled c.kv.replicas (pos 1);
  };
}

-- validateKeyPattern
unfoldable pub validate_key_pattern : String → Error
validate_key_pattern pattern =
    if contains_whitespace pattern
    then external other "kv.key_pattern cannot contain whitespace"
    else if not (nat_eq (count_verbs pattern) 1)
    then external other "kv.key_pattern must contain exactly one %s placeholder"
    else if contains_char b'%' (remove_verbs pattern)
    then external other "kv.key_pattern contains unsupported format directives"
    else nil

-- The error of normalizeConfig for the key pattern.
unfoldable pub pattern_error : String → Error
pattern_error pattern =
    let e = validate_key_pattern pattern in
    if is_nil e then nil else validation_error normalize_op (error_text e)

unfoldable pub history_error : ℕ → Error
history_error n =
    if ltb 64 n then validation_error normalize_op "kv.history must be between 1 and 64" else nil

-- The storage as normalizeConfig writes it.
abbrev pub storage_name : Unicode → String → String
storage_name u storage = filled_text (to_lower u (trim_space storage)) "file"

unfoldable pub storage_error : String → Error
storage_error storage =
    if not (storage == "file") && not (storage == "memory")
    then validation_error normalize_op "kv.storage must be file or memory"
    else nil

-- The configuration that normalizeConfig builds.
unfoldable pub normalized : Unicode → NatsDefaults → Config → Config
normalized u d c =
    let out = with_defaults d c in
    record out { kv = record (out.kv) { storage = storage_name u c.kv.storage } }

-- normalizeConfig, whose checks and defaults do not depend on one another but for the fields named here
unfoldable pub normalize_config : Unicode → NatsDefaults → Config → Result Config
normalize_config u d c =
    let out = normalized u d c in
    check (
      first_error (
        sign_error c
        ∷ pattern_error out.kv.key_pattern
        ∷ history_error out.kv.history
        ∷ storage_error out.kv.storage
        ∷ []))
    >> ok out
