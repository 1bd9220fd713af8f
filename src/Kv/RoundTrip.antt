-- ===== src/Kv/RoundTrip.antt =====
-- What internal/kv/store.go stores is what it loads.
use tip_olg_nats_agent_core.Common.{
  ℕ, String, false, [], ◌∷◌, ◌≡◌, refl, ap, ◌∙◌, nat_eq_iff, arith,
}
use tip_olg_nats_agent_core.Strings.{Unicode, trim_space, sprintf, count_verbs}
use tip_olg_nats_agent_core.Strings.Format.{sprintf_inj}
use tip_olg_nats_agent_core.Errors.{nil, validation_error}
use tip_olg_nats_agent_core.Results.{ok, check-eq-ok}
use tip_olg_nats_agent_core.Kv.{
  Bytes, DesiredConfigRecord, StoredDesiredConfig, Json, Entry, Bucket, Provider,
}
use tip_olg_nats_agent_core.Kv.Keys.{build_desired_config_key, key_pattern_error, validate_token}
use tip_olg_nats_agent_core.Kv.Records.{
  is_empty, encode_desired_config_record, decode_desired_config_record,
  validate_desired_config_record,
}
use tip_olg_nats_agent_core.Kv.Store.{
  prepare, stored_as, after_put, post_read, created_or, store_desired_config, loaded,
  load_desired_config,
}

pattern-verbs : (p : String) → key_pattern_error p ≡ nil → count_verbs p ≡ 1
unfolding key_pattern_error validation_error
pattern-verbs p h = ground arith

-- Two targets with the same key are the same target, for every pattern that is accepted.
build_desired_config_key_inj :
    (u : Unicode) (pattern t t' key : String)
    → build_desired_config_key u pattern t ≡ ok key
    → build_desired_config_key u pattern t' ≡ ok key
    → t ≡ t'
unfolding build_desired_config_key
build_desired_config_key_inj u pattern t t' key h h' =
    let (p, k) = check-eq-ok (key_pattern_error (trim_space pattern)) _ h in
    let (v, e) =
      check-eq-ok (validate_token u "validate_target" "target" t)
        (ok (sprintf (trim_space pattern) (t ∷ []))) k in
    let (p', k') = check-eq-ok (key_pattern_error (trim_space pattern)) _ h' in
    let (v', e') =
      check-eq-ok (validate_token u "validate_target" "target" t')
        (ok (sprintf (trim_space pattern) (t' ∷ []))) k' in
    sprintf_inj (trim_space pattern) t t' (pattern-verbs (trim_space pattern) p) (ground arith)

-- What the bucket holds under a key that was just written.
pub record IsWritten (e : Entry) (bucket key : String) (payload : Bytes) (revision : ℕ)
    : Type 0 where
  pub same_bucket : e.bucket ≡ bucket
  pub same_key : e.key ≡ key
  pub same_value : e.value ≡ payload
  pub same_revision : e.revision ≡ revision

record_token :
    (u : Unicode) (j : Json) (rec : DesiredConfigRecord)
    → validate_desired_config_record u j rec ≡ nil
    → validate_token u "validate_target" "target" rec.target ≡ nil
unfolding validate_desired_config_record validation_error
record_token u j rec h = ground arith

module _ {S : Type 0} (u : Unicode) (j : Json) (b : Bucket S) (rt : Provider)
    (rec : DesiredConfigRecord) (valid : validate_desired_config_record u j rec ≡ nil)
    (pattern : key_pattern_error (trim_space rt.key_pattern) ≡ nil)
    (live : rt.key_value_err ≡ nil) where
  abbrev pub key : String
  key = sprintf (trim_space rt.key_pattern) (rec.target ∷ [])

  key_lem : build_desired_config_key u rt.key_pattern rec.target ≡ ok key
  unfolding build_desired_config_key
  key_lem = rw (pattern, record_token u j rec valid) refl

  pub prepare_lem :
      (payload : Bytes) → j.marshal rec ≡ ok payload → prepare u j b rt rec ≡ ok (key, payload)
  unfolding prepare encode_desired_config_record
  prepare_lem payload m = rw (valid, key_lem, live, m) refl

  decode_lem :
      (payload : Bytes) (back : DesiredConfigRecord)
      → is_empty payload ≡ false
      → j.unmarshal payload ≡ ok back
      → validate_desired_config_record u j back ≡ nil
      → decode_desired_config_record u j payload ≡ ok back
  unfolding decode_desired_config_record
  decode_lem payload back full read v = rw (full, read, v) refl

  after_lem :
      (s' : S) (revision : ℕ) (entry : Entry)
      → b.get s' key ≡ ok entry
      → entry.revision ≡ revision
      → after_put u j b rt rec key (s', ok revision) ≡ (
        s',
        ok (stored_as u j b rt rec key revision (created_or entry.created rec.timestamp)),
        [],
      )
  unfolding after_put post_read sprintf
  after_lem s' revision entry get same =
      rw (get, post_read, same, (nat_eq_iff revision revision).1 refl) refl

  abbrev pub stored_now : ℕ → Entry → StoredDesiredConfig
  stored_now revision entry =
      stored_as u j b rt rec key revision (created_or entry.created rec.timestamp)

  pub store_lem :
      (s s' : S) (payload : Bytes) (revision : ℕ) (entry : Entry)
      → j.marshal rec ≡ ok payload
      → b.put s key payload ≡ (s', ok revision)
      → b.get s' key ≡ ok entry
      → IsWritten entry rt.bucket_name key payload revision
      → store_desired_config u j b rt s rec ≡ (s', ok (stored_now revision entry), [])
  unfolding store_desired_config after_put post_read
  store_lem s s' payload revision entry m put get w =
      rw (prepare_lem payload m, store_desired_config)
        (ap (after_put u j b rt rec key) put ∙ after_lem s' revision entry get w.same_revision)

  -- What is loaded has the payload that was decoded.
  pub load_lem :
      (s' : S) (payload decoded : Bytes) (revision : ℕ) (entry : Entry)
      → is_empty payload ≡ false
      → j.unmarshal payload ≡ ok (record rec { payload = decoded })
      → validate_desired_config_record u j (record rec { payload = decoded }) ≡ nil
      → b.get s' key ≡ ok entry
      → IsWritten entry rt.bucket_name key payload revision
      → load_desired_config u j b rt s' rec.target
        ≡ ok (record (stored_now revision entry) { rec = record rec { payload = decoded } })
  unfolding load_desired_config loaded
  load_lem s' payload decoded revision entry full back v get w =
      rw
        (
          key_lem,
          load_desired_config,
          live,
          get,
          loaded,
          w.same_value,
          decode_lem payload (record rec { payload = decoded }) full back v,
          w.same_bucket,
          w.same_key,
          w.same_revision,
        )
        refl

  -- A record that is valid, with a key pattern that is accepted and a bucket at hand, is stored when the
  -- bucket takes the write, with nothing reported; and LoadDesiredConfig for its target then returns the
  -- very value that StoreDesiredConfig returned, the record in it the one that was stored. The
  -- conditions on the packages: JSON decodes what it made of this record to this record, and the bucket
  -- returns for a key what was last put there, with the revision of that write.
  pub store-load :
      (s s' : S) (payload : Bytes) (revision : ℕ) (entry : Entry)
      → j.marshal rec ≡ ok payload
      → is_empty payload ≡ false
      → j.unmarshal payload ≡ ok rec
      → b.put s key payload ≡ (s', ok revision)
      → b.get s' key ≡ ok entry
      → IsWritten entry rt.bucket_name key payload revision
      → (stored : StoredDesiredConfig) × (store_desired_config u j b rt s rec ≡ (s', ok stored, []))
        × (load_desired_config u j b rt s' rec.target ≡ ok stored)
        × (stored.rec ≡ rec)
        × (stored.revision ≡ revision)
  store-load s s' payload revision entry m full back put get w = (
    stored_now revision entry,
    store_lem s s' payload revision entry m put get w,
    load_lem s' payload rec.payload revision entry full back valid get w,
    refl,
    refl,
  )
