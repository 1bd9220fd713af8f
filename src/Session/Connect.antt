-- ===== src/Session/Connect.antt =====
-- internal/session/session.go: the options of the NATS connection, TLS, and the calls that make and drain
-- a connection. What reads files and certificates is the record Files; what a select finds first is given.
use Prim.Native.String.{◌++◌}
use tip_olg_nats_agent_core.Common.{
  ℕ, String, ◌==◌, Bool, not, ◌&&◌, ◌||◌, Option, none, some, List, [], ◌∷◌, ◌++◌ as append, ℤ,
  is_neg, is_zero, ltb_ℤ, if◌then◌else◌,
}
use tip_olg_nats_agent_core.Strings.{trim_space}
use tip_olg_nats_agent_core.Errors.{Error, nil, external, other, ctx_deadline, error_text}
use tip_olg_nats_agent_core.Results.{Result, ok, err, check, ◌>>◌, ◌>>=◌}
use tip_olg_nats_agent_core.Session.{Config, NatsConfig, JetStreamConfig, TlsConfig}

-- os.ReadFile, AppendCertsFromPEM, tls.LoadX509KeyPair and nats.NkeyOptionFromSeed
pub record Files : Type 0 where
  pub read_file : String → Result (List ℕ)
  pub append_certs : List ℕ → Bool
  pub load_key_pair : String → String → Result ℕ
  pub nkey_from_seed : String → Error

-- tls.Config, whose MinVersion is always TLS 1.2: the roots as the bytes they were read from, and the
-- client certificate.
pub record Tls : Type 0 where
  pub insecure_skip_verify : Bool
  pub server_name : String
  pub root_cas : Option (List ℕ)
  pub certificate : Option ℕ

-- nats.Option
pub data NatsOption : Type 0 where
  timeout reconnect_wait : ℤ → NatsOption
  retry_on_failed_connect : Bool → NatsOption
  max_reconnects reconnect_buf_size : ℤ → NatsOption
  disconnect_handler reconnect_handler closed_handler error_handler : NatsOption
  name : String → NatsOption
  user_credentials : String → Option String → NatsOption
  nkey : String → NatsOption
  user_info : String → String → NatsOption
  token : String → NatsOption
  secure : Tls → NatsOption

abbrev pub is_blank : String → Bool
is_blank text = trim_space text == ""

-- clampConnectTimeout, of the time that is left to the deadline of the context, where it has one
unfoldable pub clamp_connect_timeout : Option ℤ → ℤ → Result ℤ
clamp_connect_timeout none configured = ok configured
clamp_connect_timeout (some remaining) configured =
    if is_neg remaining || is_zero remaining
    then err (external ctx_deadline "context deadline exceeded")
    else if is_neg configured || is_zero configured || ltb_ℤ remaining configured
    then ok remaining
    else ok configured

-- fmt.Errorf with %w
unfoldable pub wrapped : String → Error → Error
wrapped prefix (external s text) = external s (prefix ++ text)
wrapped prefix e = external other (prefix ++ error_text e)

unfoldable pub root_cas_of : Files → String → Result (Option (List ℕ))
root_cas_of fs ca_file = if is_blank ca_file then ok none else elim (fs.read_file ca_file) [
  | err e ↦ err (wrapped "read tls ca file: " e)
  | ok pem ↦
      if fs.append_certs pem
      then ok (some pem)
      else err (external other "tls ca file contains no valid certificates")
]

unfoldable pub certificate_of : Files → String → String → Result (Option ℕ)
certificate_of fs cert_file key_file =
    if is_blank cert_file && is_blank key_file
    then ok none
    else if is_blank cert_file || is_blank key_file
    then err (
        external other
          "both tls cert_file and key_file are required when configuring client certificates")
    else elim (fs.load_key_pair (trim_space cert_file) (trim_space key_file)) [
      | err e ↦ err (wrapped "load tls client cert/key: " e)
      | ok cert ↦ ok (some cert)
    ]

-- buildTLSConfig; no config is nil
unfoldable pub build_tls_config : Files → Option TlsConfig → Result (Option Tls)
build_tls_config fs none = ok none
build_tls_config fs (some cfg) =
    if not cfg.enabled
    then ok none
    else root_cas_of fs cfg.ca_file >>= (λ roots.
      certificate_of fs cfg.cert_file cfg.key_file >>= (λ cert. ok (
        some (record {
          insecure_skip_verify = cfg.insecure_skip_verify;
          server_name = cfg.server_name;
          root_cas = roots;
          certificate = cert;
        }))))

-- The name that the connection is given.
unfoldable pub name_option : String → String → List NatsOption
name_option client_name agent_name =
    let chosen = if is_blank client_name then trim_space agent_name else trim_space client_name in
    if chosen == "" then [] else name chosen ∷ []

-- How the connection is authenticated.
unfoldable pub auth_option : Files → NatsConfig → Result (List NatsOption)
auth_option fs c =
    if not (is_blank c.credentials_file)
    then ok (user_credentials c.credentials_file none ∷ [])
    else if not (is_blank c.user_jwt_file) && not (is_blank c.nkey_seed_file)
    then ok (user_credentials c.user_jwt_file (some c.nkey_seed_file) ∷ [])
    else if not (is_blank c.nkey_seed_file)
    then check (fs.nkey_from_seed c.nkey_seed_file) >> ok (nkey c.nkey_seed_file ∷ [])
    else if not (is_blank c.username) || not (is_blank c.password)
    then ok (user_info c.username c.password ∷ [])
    else if not (is_blank c.token)
    then ok (token c.token ∷ [])
    else ok []

unfoldable pub secure_option : Option Tls → List NatsOption
secure_option none = []
secure_option (some tls) = secure tls ∷ []

unfoldable pub base_options : ℤ → NatsConfig → List NatsOption
base_options connect_timeout c =
    timeout connect_timeout
    ∷ retry_on_failed_connect c.retry_on_failed_connect
    ∷ max_reconnects c.max_reconnects
    ∷ reconnect_wait c.reconnect_wait
    ∷ reconnect_buf_size c.reconnect_buf_size
    ∷ disconnect_handler
    ∷ reconnect_handler
    ∷ closed_handler
    ∷ error_handler
    ∷ []

-- buildNATSOptions
unfoldable pub build_nats_options : Files → Config → ℤ → Result (List NatsOption)
build_nats_options fs c connect_timeout = auth_option fs c.nats >>= (λ auth.
    build_tls_config fs c.nats.tls >>= (λ tls. ok (
      append (base_options connect_timeout c.nats)
        (append (name_option c.nats.client_name c.agent_name) (append auth (secure_option tls))))))

-- What the select of connectNATS finds first: the answer of nats.Connect, or the end of the context,
-- with the answer that nats.Connect gives later.
pub data ConnectRace : Type 0 where
  connect_done : Result ℕ → ConnectRace
  context_done : Error → Result ℕ → ConnectRace

-- connectNATS: the connections that it closes, and its answer. The servers are those of the config.
unfoldable pub connect_nats :
    Files → Config → Option ℤ → (List NatsOption → ConnectRace) → List ℕ × Result ℕ
connect_nats fs c remaining connect =
    elim (clamp_connect_timeout remaining c.nats.connect_timeout
      >>= (λ t. build_nats_options fs c t)) [
        | err e ↦ ([], err e)
        | ok opts ↦ elim (connect opts) [
          | connect_done answer ↦ ([], answer)
          | context_done e (ok nc) ↦ (nc ∷ [], err e)
          | context_done e (err late) ↦ ([], err e)
        ]
      ]

-- Which constructor of the JetStream package is called, with the default timeout.
pub data JetStreamCall : Type 0 where
  new_with_domain new_with_api_prefix : String → ℤ → JetStreamCall
  new_plain : ℤ → JetStreamCall

-- newJetStream
unfoldable pub new_jet_stream : JetStreamConfig → JetStreamCall
new_jet_stream c =
    if not (is_blank c.domain)
    then new_with_domain (trim_space c.domain) c.default_timeout
    else if not (is_blank c.api_prefix)
    then new_with_api_prefix (trim_space c.api_prefix) c.default_timeout
    else new_plain c.default_timeout

-- withKVTimeout: the timeout that is set on a context, where it has no deadline
unfoldable pub with_kv_timeout : Bool → Config → Option ℤ
with_kv_timeout has_deadline c = if has_deadline then none else some c.timeouts.kv_timeout

-- drainConnection: the timeout that is set on its context
unfoldable pub drain_timeout : Bool → ℤ → Option ℤ
drain_timeout has_deadline t =
    if not has_deadline && not (is_neg t || is_zero t) then some t else none

-- drainConnection, of what its select finds first for that timeout: what Drain answers, or the error of
-- the context.
unfoldable pub drain_connection : Option ℕ → Bool → ℤ → (Option ℤ → Error) → Error
drain_connection none has_deadline t answer = nil
drain_connection (some nc) has_deadline t answer = answer (drain_timeout has_deadline t)
