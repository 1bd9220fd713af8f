-- ===== src/Session/Bind.antt =====
-- bindOrCreateKV of internal/session/session.go and isBucketNotFound of callbacks.go, of what the
-- JetStream context answers to the two calls.
use tip_olg_nats_agent_core.Common.{
  ℕ, ◌≤◌, String, ◌==◌, Bool, true, false, not, ◌||◌, List, [], ◌∷◌, ◌≡◌, ◌≢◌, All, length, arith,
  ℤ, if◌then◌else◌,
}
use tip_olg_nats_agent_core.Strings.{Unicode, contains, to_lower}
use tip_olg_nats_agent_core.Errors.{
  Error, nil, external, runtime, facade, join, is_nil, error_text, bucket_missing,
}
use tip_olg_nats_agent_core.Results.{Result, ok, err}
use tip_olg_nats_agent_core.Session.{KvConfig, Config}
use tip_olg_nats_agent_core.Session.Options.{NatsDefaults, normalize_config}
use tip_olg_nats_agent_core.Session.Defaults.{IsPositive, IsNormal, normalize_config-IsNormal}

-- errors.Is at nats.ErrBucketNotFound
unfoldable pub is_bucket_error : Error → Bool
is_bucket_error nil = false
is_bucket_error (external bucket_missing text) = true
is_bucket_error (external _ text) = false
is_bucket_error (runtime f cause) = is_bucket_error cause
is_bucket_error (facade f cause) = is_bucket_error cause
is_bucket_error (join e e') = is_bucket_error e || is_bucket_error e'

-- isBucketNotFound
unfoldable pub is_bucket_not_found : Unicode → Error → Bool
is_bucket_not_found u e =
    let message = to_lower u (error_text e) in
    if is_nil e
    then false
    else is_bucket_error e
      || contains "bucket not found" message
      || contains "stream not found" message

-- The jetstream.KeyValueConfig of a bucket that is to be made; in_memory is its storage.
pub record NewBucket : Type 0 where
  pub bucket : String
  pub history : ℕ
  pub ttl : ℤ
  pub max_value_size : ℤ
  pub replicas : ℤ
  pub in_memory : Bool

unfoldable pub bucket_request : Unicode → KvConfig → NewBucket
bucket_request u c = record {
  bucket = c.bucket;
  history = c.history;
  ttl = c.ttl;
  max_value_size = c.max_value_size;
  replicas = c.replicas;
  in_memory = to_lower u c.storage == "memory";
}

-- bindOrCreateKV: the buckets that are asked to be made, and the answer
unfoldable pub bind_or_create_kv :
    Unicode → KvConfig → Result ℕ → (NewBucket → Result ℕ) → List NewBucket × Result ℕ
bind_or_create_kv u c (ok kv) create = ([], ok kv)
bind_or_create_kv u c (err e) create =
    if not (is_bucket_not_found u e)
    then ([], err e)
    else if not c.auto_create_bucket
    then ([], err e)
    else (bucket_request u c ∷ [], create (bucket_request u c))

-- Whether a bucket may be asked for: JetStream wants a name, a history from 1 to 64, and at least one
-- replica.
pub record IsSound (n : NewBucket) : Type 0 where
  pub named : n.bucket ≢ ""
  pub history : (1 ≤ n.history) × (n.history ≤ 64)
  pub replicas : IsPositive n.replicas

-- One bucket at most, and that a sound one.
abbrev pub AsksSoundly : List NewBucket × Result ℕ → Type 0
AsksSoundly r = (length r.0 ≤ 1) × All IsSound r.0

-- Whatever JetStream answers, at most one bucket is asked to be made, and with a configuration that
-- normalizeConfig accepted it has a name, a history from 1 to 64 and at least one replica; this holds if
-- the default buffer size of the NATS package is above 0.
pub bind_or_create_kv-IsSound :
    (u : Unicode) (d : NatsDefaults) (c out : Config) (bound : Result ℕ)
    (create : NewBucket → Result ℕ)
    → IsPositive d.reconnect_buf_size
    → normalize_config u d c ≡ ok out
    → AsksSoundly (bind_or_create_kv u out.kv bound create)
unfolding bind_or_create_kv bucket_request
bind_or_create_kv-IsSound u d c out bound create buf h = go bound
  where
    normal : IsNormal out
    normal = normalize_config-IsNormal u d c out buf h

    sound : IsSound (bucket_request u out.kv)
    sound = record { named = normal.bucket; history = normal.history; replicas = normal.replicas }

    choice :
        (b b' : Bool) (e : Error)
        → AsksSoundly (
            if b
            then ([], err e)
            else if b'
            then ([], err e)
            else (bucket_request u out.kv ∷ [], create (bucket_request u out.kv)))
    choice true b' e = (omega arith, tt)
    choice false true e = (omega arith, tt)
    choice false false e = (omega arith, (sound, tt))

    go : (bound : Result ℕ) → AsksSoundly (bind_or_create_kv u out.kv bound create)
    go (ok kv) = (omega arith, tt)
    go (err e) = choice (not (is_bucket_not_found u e)) (not out.kv.auto_create_bucket) e
