-- ===== src/Session/Connected.antt =====
-- internal/session/session.go: what the options of a connection come to.
use tip_olg_nats_agent_core.Common.{
  ℕ, ◌+◌, ◌≡◌, refl, ap, subst, ◌∙◌, inl, inr, String, ◌==◌, Bool, true, false, not, ◌&&◌, ◌||◌,
  Option, none, some, List, [], ◌∷◌, ◌++◌, arith, is_some, ℤ, pos, negsuc, is_neg, is_zero, ltb_ℤ,
  if◌then◌else◌, if_lem, Bool-cases,
}
use tip_olg_nats_agent_core.Strings.{trim_space}
use tip_olg_nats_agent_core.Errors.{Error, is_nil, external, ctx_deadline}
use tip_olg_nats_agent_core.Results.{Result, ok, err, check, ◌>>◌, ◌>>=◌}
use tip_olg_nats_agent_core.Session.{Config, NatsConfig, TlsConfig}
use tip_olg_nats_agent_core.Session.Defaults.{IsPositive}
use tip_olg_nats_agent_core.Session.Connect.{
  Files, Tls, NatsOption, user_credentials, nkey, user_info, token, secure, is_blank,
  clamp_connect_timeout, build_tls_config, name_option, auth_option, secure_option, base_options,
  build_nats_options, root_cas_of, certificate_of,
}

-- A time is within the deadline of the context.
abbrev pub IsWithin : Option ℤ → ℤ → Type 0
IsWithin none t = Unit
IsWithin (some remaining) t = ltb_ℤ remaining t ≡ false

-- A timeout that is answered is good.
abbrev Clamped : Option ℤ → ℤ → Result ℤ → Type 0
Clamped remaining configured (err e) = Unit
Clamped remaining configured (ok t) =
    IsPositive t × (ltb_ℤ configured t ≡ false) × IsWithin remaining t

ltb_ℤ_irrefl : (n : ℤ) → ltb_ℤ n n ≡ false
ltb_ℤ_irrefl (pos n) = ground arith
ltb_ℤ_irrefl (negsuc n) = ground arith

ltb_ℤ_asym : (a b : ℤ) → ltb_ℤ a b ≡ true → ltb_ℤ b a ≡ false
ltb_ℤ_asym (pos a) (pos b) h = ground arith
ltb_ℤ_asym (pos a) (negsuc b) h = absurd (ground arith)
ltb_ℤ_asym (negsuc a) (pos b) h = refl
ltb_ℤ_asym (negsuc a) (negsuc b) h = ground arith

clamp_connect_timeout-Clamped :
    (remaining : Option ℤ) (configured : ℤ)
    → IsPositive configured
    → Clamped remaining configured (clamp_connect_timeout remaining configured)
unfolding clamp_connect_timeout
clamp_connect_timeout-Clamped none configured positive = (positive, ltb_ℤ_irrefl configured, tt)
clamp_connect_timeout-Clamped (some left) configured positive =
    if_lem (Clamped (some left) configured) (is_neg left || is_zero left)
      (err (external ctx_deadline "context deadline exceeded"))
      (if is_neg configured || is_zero configured || ltb_ℤ left configured
        then ok left
        else ok configured)
      (λ h. tt)
      (λ h.
        if_lem (Clamped (some left) configured)
          (is_neg configured || is_zero configured || ltb_ℤ left configured) (ok left)
          (ok configured)
          (λ k. (
            (ground arith, ground arith),
            ltb_ℤ_asym left configured (ground (arith, positive.0, positive.1)),
            ltb_ℤ_irrefl left,
          ))
          (λ k. (positive, ltb_ℤ_irrefl configured, ground arith)))

-- The timeout of a connection that was configured with a positive one is positive, not above the
-- configured one, and not above the time that is left to the deadline of the context, where it has one.
pub clamp_connect_timeout_lem :
    (remaining : Option ℤ) (configured t : ℤ)
    → IsPositive configured
    → clamp_connect_timeout remaining configured ≡ ok t
    → IsPositive t × (ltb_ℤ configured t ≡ false) × IsWithin remaining t
clamp_connect_timeout_lem remaining configured t positive h =
    subst (Clamped remaining configured) h
      (clamp_connect_timeout-Clamped remaining configured positive)

abbrev pub is_auth : NatsOption → Bool
is_auth (user_credentials a b) = true
is_auth (nkey f) = true
is_auth (user_info a b) = true
is_auth (token t) = true
is_auth _ = false

abbrev pub is_secure : NatsOption → Bool
is_secure (secure t) = true
is_secure _ = false

abbrev pub how_many : (NatsOption → Bool) → List NatsOption → ℕ
how_many p [] = 0
how_many p (o ∷ rest) = (if p o then 1 else 0) + how_many p rest

how_many-append :
    (p : NatsOption → Bool) (xs ys : List NatsOption)
    → how_many p (xs ++ ys) ≡ how_many p xs + how_many p ys
how_many-append p [] ys = omega arith
how_many-append p (x ∷ xs) ys = omega (arith, how_many-append p xs ys)

-- No credential is configured; a JWT is none without its seed.
abbrev pub is_anonymous : NatsConfig → Bool
is_anonymous c =
    is_blank c.credentials_file
    && is_blank c.nkey_seed_file
    && is_blank c.username
    && is_blank c.password
    && is_blank c.token

abbrev pub is_enabled : Option TlsConfig → Bool
is_enabled none = false
is_enabled (some cfg) = cfg.enabled

-- The options that authenticate, where there is an answer.
abbrev Chosen : Bool → Result (List NatsOption) → Type 0
Chosen b (err e) = Unit
Chosen b (ok auth) = (how_many is_auth auth ≡ (if b then 0 else 1)) × (how_many is_secure auth ≡ 0)

checked-Chosen :
    (b : Bool) (e : Error) (file : String) → b ≡ false → Chosen b (check e >> ok (nkey file ∷ []))
checked-Chosen b e file h = elim (Bool-cases (is_nil e)) [
  | inl k ↦ rw (k, h) (refl, refl)
  | inr k ↦ rw k tt
]

auth_option-Chosen : (fs : Files) (c : NatsConfig) → Chosen (is_anonymous c) (auth_option fs c)
unfolding auth_option
auth_option-Chosen fs c =
    if_lem (Chosen (is_anonymous c)) (not (is_blank c.credentials_file)) _ _
      (λ h. (ground arith, ground arith))
      (λ h.
        if_lem (Chosen (is_anonymous c))
          (not (is_blank c.user_jwt_file) && not (is_blank c.nkey_seed_file)) _ _
          (λ h2. (ground arith, ground arith))
          (λ h2.
            if_lem (Chosen (is_anonymous c)) (not (is_blank c.nkey_seed_file)) _ _
              (λ h3.
                checked-Chosen (is_anonymous c) (fs.nkey_from_seed c.nkey_seed_file)
                  c.nkey_seed_file (ground arith))
              (λ h3.
                if_lem (Chosen (is_anonymous c))
                  (not (is_blank c.username) || not (is_blank c.password)) _ _
                  (λ h4. (ground arith, ground arith))
                  (λ h4.
                    if_lem (Chosen (is_anonymous c)) (not (is_blank c.token)) _ _
                      (λ h5. (ground arith, ground arith)) (λ h5. (ground arith, refl))))))

-- The TLS configuration, where there is an answer.
abbrev Secured : Bool → Result (Option Tls) → Type 0
Secured b (err e) = Unit
Secured b (ok tls) = is_some tls ≡ b

rest-Secured :
    (cfg : TlsConfig) (roots : Result (Option (List ℕ))) (cert : Result (Option ℕ))
    → Secured true (
        roots >>= (λ r. cert >>= (λ k. ok (
          some (record {
            insecure_skip_verify = cfg.insecure_skip_verify;
            server_name = cfg.server_name;
            root_cas = r;
            certificate = k;
          })))))
rest-Secured cfg (err e) cert = tt
rest-Secured cfg (ok r) (err e) = tt
rest-Secured cfg (ok r) (ok k) = refl

build_tls_config-Secured :
    (fs : Files) (o : Option TlsConfig) → Secured (is_enabled o) (build_tls_config fs o)
unfolding build_tls_config
build_tls_config-Secured fs none = refl
build_tls_config-Secured fs (some cfg) =
    if_lem (Secured cfg.enabled) (not cfg.enabled) _ _ (λ h. ground arith)
      (λ h.
        subst
          (λ b. Secured b (
            root_cas_of fs cfg.ca_file >>= (λ r.
              certificate_of fs cfg.cert_file cfg.key_file >>= (λ k. ok (
                some (record {
                  insecure_skip_verify = cfg.insecure_skip_verify;
                  server_name = cfg.server_name;
                  root_cas = r;
                  certificate = k;
                }))))))
          (ground arith)
          (rest-Secured cfg (root_cas_of fs cfg.ca_file)
            (certificate_of fs cfg.cert_file cfg.key_file)))

-- What buildNATSOptions answers.
abbrev Built : NatsConfig → Result (List NatsOption) → Type 0
Built c (err e) = Unit
Built c (ok opts) =
    (how_many is_auth opts ≡ (if is_anonymous c then 0 else 1))
    × (how_many is_secure opts ≡ (if is_enabled c.tls then 1 else 0))

name_option-plain :
    (client_name agent_name : String)
    → (how_many is_auth (name_option client_name agent_name) ≡ 0)
      × (how_many is_secure (name_option client_name agent_name) ≡ 0)
unfolding name_option
name_option-plain client_name agent_name =
    if_lem (λ opts. (how_many is_auth opts ≡ 0) × (how_many is_secure opts ≡ 0))
      ((if is_blank client_name then trim_space agent_name else trim_space client_name) == "") [] _
      (λ h. (refl, refl)) (λ h. (refl, refl))

secure_option-plain :
    (s : Option Tls)
    → (how_many is_auth (secure_option s) ≡ 0)
      × (how_many is_secure (secure_option s) ≡ (if is_some s then 1 else 0))
unfolding secure_option
secure_option-plain none = (refl, refl)
secure_option-plain (some tls) = (refl, refl)

both-Built :
    (c : NatsConfig) (t : ℤ) (agent_name : String) (auth : Result (List NatsOption))
    (tls : Result (Option Tls))
    → Chosen (is_anonymous c) auth
    → Secured (is_enabled c.tls) tls
    → Built c (
        auth >>= (λ a. tls >>= (λ s.
          ok (
            base_options t c ++ (name_option c.client_name agent_name ++ (a ++ secure_option s))))))
unfolding base_options
both-Built c t agent_name (err e) tls h k = tt
both-Built c t agent_name (ok a) (err e) h k = tt
both-Built c t agent_name (ok a) (ok s) h k =
    let rest_of = λ (p : NatsOption → Bool).
      how_many-append p (name_option c.client_name agent_name) (a ++ secure_option s)
      ∙ ap (λ k. how_many p (name_option c.client_name agent_name) + k)
          (how_many-append p a (secure_option s)) in
    let (no_auth, no_tls) = name_option-plain c.client_name agent_name in
    let (tls_auth, tls_tls) = secure_option-plain s in
    (
      omega (arith, rest_of is_auth, no_auth, tls_auth, h.0),
      omega
          (arith, rest_of is_secure, no_tls, tls_tls, h.1, ap {B = ℕ} (λ b. if b then 1 else 0) k),
    )

-- The options of a connection, where they can be made, have exactly one that authenticates the client,
-- or none where the credentials file, the NKey seed, the user name, the password and the token are all
-- blank, also where a JWT is configured; and they have exactly one for TLS where it is enabled, and
-- none where it is not.
pub build_nats_options_lem :
    (fs : Files) (c : Config) (t : ℤ) (opts : List NatsOption)
    → build_nats_options fs c t ≡ ok opts
    → (how_many is_auth opts ≡ (if is_anonymous c.nats then 0 else 1))
      × (how_many is_secure opts ≡ (if is_enabled c.nats.tls then 1 else 0))
unfolding build_nats_options
build_nats_options_lem fs c t opts h = subst (Built c.nats) h (
    both-Built c.nats t c.agent_name (auth_option fs c.nats) (build_tls_config fs c.nats.tls)
      (auth_option-Chosen fs c.nats) (build_tls_config-Secured fs c.nats.tls))
