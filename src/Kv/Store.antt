-- ===== src/Kv/Store.antt =====
-- internal/kv/store.go: StoreDesiredConfig and LoadDesiredConfig.
use tip_olg_nats_agent_core.Common.{
  ℕ, String, Bool, true, false, ◌||◌, List, [], ◌∷◌, nat_eq, if◌then◌else◌,
}
use tip_olg_nats_agent_core.Strings.{Unicode, contains, to_lower}
use tip_olg_nats_agent_core.Errors.{
  Error, nil, external, runtime, facade, join, is_nil, error_text, fault, config_not_found,
  key_missing, key_deleted,
}
use tip_olg_nats_agent_core.Results.{Result, ok, err, check, ◌>>◌, ◌>>=◌}
use tip_olg_nats_agent_core.Kv.{
  Bytes, DesiredConfigRecord, StoredDesiredConfig, Json, Entry, Bucket, Provider,
}
use tip_olg_nats_agent_core.Kv.Keys.{build_desired_config_key}
use tip_olg_nats_agent_core.Kv.Records.{
  encode_desired_config_record, decode_desired_config_record, validate_desired_config_record,
  kv_store_error, kv_read_error,
}

-- errors.Is at one of the errors for a key that is not there
unfoldable pub is_key_error : Error → Bool
is_key_error nil = false
is_key_error (external key_missing text) = true
is_key_error (external key_deleted text) = true
is_key_error (external _ text) = false
is_key_error (runtime f cause) = is_key_error cause
is_key_error (facade f cause) = is_key_error cause
is_key_error (join e e') = is_key_error e || is_key_error e'

-- isConfigNotFound
unfoldable pub is_config_not_found : Unicode → Error → Bool
is_config_not_found u e =
    let message = to_lower u (error_text e) in
    if is_nil e
    then false
    else is_key_error e || contains "key not found" message || contains "key was deleted" message

-- The time that a stored record carries: the entry's, or the record's where the entry has none.
abbrev pub created_or : ℕ → ℕ → ℕ
created_or created timestamp = if nat_eq created 0 then timestamp else created

-- The read of StoreDesiredConfig behind the write: the time of creation, and what it reports.
unfoldable pub post_read : ℕ → DesiredConfigRecord → Result Entry → ℕ × List Error
post_read revision rec (ok entry) = (
  if nat_eq entry.revision revision then created_or entry.created rec.timestamp else rec.timestamp,
  [],
)
post_read revision rec (err e) = (
  rec.timestamp,
  kv_read_error "store_desired_config_post_read" "stored config metadata lookup failed" e ∷ [],
)

module _ {S : Type 0} (u : Unicode) (j : Json) (b : Bucket S) (rt : Provider) where
  -- The key and the payload, before anything is written.
  unfoldable pub prepare : DesiredConfigRecord → Result (String × Bytes)
  prepare rec =
      check (validate_desired_config_record u j rec)
      >> (build_desired_config_key u rt.key_pattern rec.target >>= (λ key.
          check rt.key_value_err
          >> (encode_desired_config_record u j rec >>= (λ payload. ok (key, payload)))))

  -- The metadata that StoreDesiredConfig returns.
  abbrev pub stored_as : DesiredConfigRecord → String → ℕ → ℕ → StoredDesiredConfig
  stored_as rec key revision created_at = record {
    rec = rec;
    bucket = rt.bucket_name;
    key = key;
    revision = revision;
    created_at = created_at;
    deleted = false;
  }

  -- StoreDesiredConfig behind the write.
  unfoldable pub after_put :
      DesiredConfigRecord → String → S × Result ℕ → S × Result StoredDesiredConfig × List Error
  after_put rec key (s, err e) =
      (s, err (kv_store_error "store_desired_config" "failed to write desired config to KV" e), [])
  after_put rec key (s, ok revision) =
      let (created_at, reports) = post_read revision rec (b.get s key) in
      (s, ok (stored_as rec key revision created_at), reports)

  -- StoreDesiredConfig: the bucket, the answer, and what is reported to the error sink
  unfoldable pub store_desired_config :
      S → DesiredConfigRecord → S × Result StoredDesiredConfig × List Error
  store_desired_config s rec = elim (prepare rec) [
    | err e ↦ (s, err e, [])
    | ok (key, payload) ↦ after_put rec key (b.put s key payload)
  ]

  -- LoadDesiredConfig at the answer of Get.
  unfoldable pub loaded : String → Result Entry → Result StoredDesiredConfig
  loaded key (err e) =
      if is_config_not_found u e
      then err (
          runtime
            (record (fault config_not_found "load_desired_config" "desired config not found"
              false) { key = key })
            e)
      else err (kv_read_error "load_desired_config" "failed to read desired config from KV" e)
  loaded key (ok entry) = decode_desired_config_record u j entry.value >>= (λ rec. ok (record {
    rec = rec;
    bucket = entry.bucket;
    key = entry.key;
    revision = entry.revision;
    created_at = created_or entry.created rec.timestamp;
    deleted = false;
  }))

  -- LoadDesiredConfig
  unfoldable pub load_desired_config : S → String → Result StoredDesiredConfig
  load_desired_config s target =
      build_desired_config_key u rt.key_pattern target
      >>= (λ key. check rt.key_value_err >> loaded key (b.get s key))
