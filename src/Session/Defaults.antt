-- ===== src/Session/Defaults.antt =====
-- What a configuration that normalizeConfig (internal/session/options.go) accepts is like.
use tip_olg_nats_agent_core.Common.{
  ℕ, ◌≤◌, String, ◌==◌, ◌≡◌, ◌≢◌, refl, subst, ◌⊎◌, Bool, true, false, List, [], ◌∷◌,
  ne_of_eq-false, arith, not, ◌&&◌, nat_eq, ℤ, pos, negsuc, is_neg, is_zero, eq_iff, if◌then◌else◌,
  inl, inr,
}
use tip_olg_nats_agent_core.Strings.{
  Unicode, trim_space, contains_whitespace, contains_char, count_verbs, remove_verbs,
}
use tip_olg_nats_agent_core.Errors.{nil, validation_error}
use tip_olg_nats_agent_core.Results.{ok, check-eq-ok, first_error, first_error-nil}
use tip_olg_nats_agent_core.Session.{Config}
use tip_olg_nats_agent_core.Session.Options.{
  NatsDefaults, normalize_config, normalized, sign_error, not_negative, with_defaults, filled,
  filled_text, or_default, validate_key_pattern, pattern_error, history_error, storage_error,
  normalize_op,
}

-- A number above 0.
abbrev pub IsPositive : ℤ → Type 0
IsPositive n = (is_neg n ≡ false) × (is_zero n ≡ false)

-- What the other parts of the program rely on.
pub record IsNormal (c : Config) : Type 0 where
  pub has_server : c.nats.servers ≢ []
  pub connect_timeout : IsPositive c.nats.connect_timeout
  pub reconnect_wait : IsPositive c.nats.reconnect_wait
  pub reconnect_buf_size : IsPositive c.nats.reconnect_buf_size
  pub default_timeout : IsPositive c.jet_stream.default_timeout
  pub publish_timeout : IsPositive c.timeouts.publish_timeout
  pub subscribe_timeout : IsPositive c.timeouts.subscribe_timeout
  pub kv_timeout : IsPositive c.timeouts.kv_timeout
  pub shutdown_timeout : IsPositive c.timeouts.shutdown_timeout
  pub publish_attempts : IsPositive c.retry.publish_attempts
  pub publish_backoff : IsPositive c.retry.publish_backoff
  pub replicas : IsPositive c.kv.replicas
  pub history : (1 ≤ c.kv.history) × (c.kv.history ≤ 64)
  pub storage : (c.kv.storage ≡ "file") ⊎ (c.kv.storage ≡ "memory")
  pub bucket : c.kv.bucket ≢ ""
  pub one_target : count_verbs c.kv.key_pattern ≡ 1
  pub plain_key : contains_whitespace c.kv.key_pattern ≡ false
  pub no_directive : contains_char b'%' (remove_verbs c.kv.key_pattern) ≡ false

filled-IsPositive :
    (n default : ℤ) (field : String)
    → IsPositive default
    → not_negative n field ≡ nil
    → IsPositive (filled n default)
unfolding validation_error
filled-IsPositive (pos n) default field d h = ground arith
filled-IsPositive (negsuc n) default field d h = absurd (ground arith)

or_default-ne : (l : List String) (url : String) → or_default l url ≢ []
or_default-ne [] url h = absurd (ground arith)
or_default-ne (s ∷ rest) url h = absurd (ground arith)

filled_text-ne : (s default : String) → default ≢ "" → filled_text s default ≢ ""
filled_text-ne s default h = go (s == "") refl
  where
    go : (b : Bool) → (s == "") ≡ b → (if b then default else s) ≢ ""
    go true e k = h k
    go false e k = ne_of_eq-false e k

pattern_lem :
    (p : String)
    → pattern_error p ≡ nil
    → (count_verbs p ≡ 1)
      × (contains_whitespace p ≡ false)
      × (contains_char b'%' (remove_verbs p) ≡ false)
unfolding pattern_error validate_key_pattern validation_error
pattern_lem p h = ground arith

history_lem : (n : ℕ) → history_error n ≡ nil → n ≤ 64
unfolding history_error validation_error
history_lem n h = ground arith

history_filled : (n : ℕ) → 1 ≤ (if nat_eq n 0 then 1 else n)
history_filled n = ground arith

storage_lem : (s : String) → storage_error s ≡ nil → (s ≡ "file") ⊎ (s ≡ "memory")
unfolding storage_error validation_error
storage_lem s h = go (s == "file") (s == "memory") refl refl h
  where
    go :
        (b c : Bool)
        → (s == "file") ≡ b
        → (s == "memory") ≡ c
        → (if not b && not c
            then validation_error normalize_op "kv.storage must be file or memory"
            else nil)
          ≡ nil
        → (s ≡ "file") ⊎ (s ≡ "memory")
    go true c e k h = inl ((eq_iff s "file").0 e)
    go false true e k h = inr ((eq_iff s "memory").0 k)
    go false false e k h = absurd (ground arith)

-- The checks on the signs, one by one.
pub record HasSigns (c : Config) : Type 0 where
  pub connect_timeout : not_negative c.nats.connect_timeout "nats.connect_timeout" ≡ nil
  pub reconnect_wait : not_negative c.nats.reconnect_wait "nats.reconnect_wait" ≡ nil
  pub reconnect_buf_size : not_negative c.nats.reconnect_buf_size "nats.reconnect_buf_size" ≡ nil
  pub default_timeout : not_negative c.jet_stream.default_timeout "jetstream.default_timeout" ≡ nil
  pub publish_timeout : not_negative c.timeouts.publish_timeout "timeouts.publish_timeout" ≡ nil
  pub subscribe_timeout :
      not_negative c.timeouts.subscribe_timeout "timeouts.subscribe_timeout" ≡ nil
  pub kv_timeout : not_negative c.timeouts.kv_timeout "timeouts.kv_timeout" ≡ nil
  pub shutdown_timeout : not_negative c.timeouts.shutdown_timeout "timeouts.shutdown_timeout" ≡ nil
  pub publish_attempts : not_negative c.retry.publish_attempts "retry.publish_attempts" ≡ nil
  pub publish_backoff : not_negative c.retry.publish_backoff "retry.publish_backoff" ≡ nil
  pub replicas : not_negative c.kv.replicas "kv.replicas" ≡ nil

signs_lem : (c : Config) → sign_error c ≡ nil → HasSigns c
unfolding sign_error
signs_lem c h =
    let (a1, (a2, (a3, (a4, (a5, (a6, (a7, (a8, (a9, (b1, (b2, (b3, (b4, (b5, _)))))))))))))) =
      first_error-nil _ h in
    record {
      connect_timeout = a1;
      reconnect_wait = a2;
      reconnect_buf_size = a4;
      default_timeout = a5;
      publish_timeout = a6;
      subscribe_timeout = a7;
      kv_timeout = a8;
      shutdown_timeout = a9;
      publish_attempts = b1;
      publish_backoff = b2;
      replicas = b5;
    }

normalized-IsNormal :
    (u : Unicode) (d : NatsDefaults) (c : Config)
    → IsPositive d.reconnect_buf_size
    → (let out = normalized u d c in
        first_error (
          sign_error c
          ∷ pattern_error out.kv.key_pattern
          ∷ history_error out.kv.history
          ∷ storage_error out.kv.storage
          ∷ []))
      ≡ nil
    → IsNormal (normalized u d c)
unfolding normalized with_defaults
normalized-IsNormal u d c buf h =
    let (signs, (pattern, (history, (storage, _)))) = first_error-nil _ h in
    let signed = signs_lem c signs in
    let key = pattern_lem _ pattern in
    record {
      has_server = or_default-ne _ d.url;
      connect_timeout =
          filled-IsPositive _ _ "nats.connect_timeout" (refl, refl) signed.connect_timeout;
      reconnect_wait =
          filled-IsPositive _ _ "nats.reconnect_wait" (refl, refl) signed.reconnect_wait;
      reconnect_buf_size =
          filled-IsPositive _ _ "nats.reconnect_buf_size" buf signed.reconnect_buf_size;
      default_timeout =
          filled-IsPositive _ _ "jetstream.default_timeout" (refl, refl) signed.default_timeout;
      publish_timeout =
          filled-IsPositive _ _ "timeouts.publish_timeout" (refl, refl) signed.publish_timeout;
      subscribe_timeout =
          filled-IsPositive _ _ "timeouts.subscribe_timeout" (refl, refl) signed.subscribe_timeout;
      kv_timeout = filled-IsPositive _ _ "timeouts.kv_timeout" (refl, refl) signed.kv_timeout;
      shutdown_timeout =
          filled-IsPositive _ _ "timeouts.shutdown_timeout" (refl, refl) signed.shutdown_timeout;
      publish_attempts =
          filled-IsPositive _ _ "retry.publish_attempts" (refl, refl) signed.publish_attempts;
      publish_backoff =
          filled-IsPositive _ _ "retry.publish_backoff" (refl, refl) signed.publish_backoff;
      replicas = filled-IsPositive _ _ "kv.replicas" (refl, refl) signed.replicas;
      history = (history_filled c.kv.history, history_lem _ history);
      storage = storage_lem _ storage;
      bucket = filled_text-ne (trim_space c.kv.bucket) "cfg_desired" (ne_of_eq-false refl);
      one_target = key.0;
      plain_key = key.1;
      no_directive = key.2;
    }

-- A configuration that normalizeConfig accepts comes back with at least one server, every timeout,
-- wait, number of attempts and number of replicas above 0, a history from 1 to 64, a storage that is
-- file or memory, a bucket name, and a key pattern with one %s, no other directive and no whitespace;
-- this holds if the default buffer size of the NATS package is above 0.
pub normalize_config-IsNormal :
    (u : Unicode) (d : NatsDefaults) (c out : Config)
    → IsPositive d.reconnect_buf_size
    → normalize_config u d c ≡ ok out
    → IsNormal out
unfolding normalize_config
normalize_config-IsNormal u d c out buf h =
    let (checks, same) = check-eq-ok _ (ok (normalized u d c)) h in
    subst IsNormal (ground arith) (normalized-IsNormal u d c buf checks)
