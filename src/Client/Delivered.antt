-- ===== src/Client/Delivered.antt =====
-- From SubmitConfigure (agentcore/client.go) to the one who gets its notification: the notification is
-- decoded, and the record is loaded from where it says.
use tip_olg_nats_agent_core.Common.{
  ℕ, String, ◌≡◌, refl, sym, ap, ◌∙◌, false, Bool, List, [], ◌∷◌, arith,
}
use tip_olg_nats_agent_core.Strings.{Unicode, trim_space}
use tip_olg_nats_agent_core.Errors.{Error, nil}
use tip_olg_nats_agent_core.Results.{Result, ok, err, public, ◌>>=◌, check-eq-ok}
use tip_olg_nats_agent_core.Kv.{
  Bytes, DesiredConfigRecord, StoredDesiredConfig, Json, Entry, Bucket, Provider,
}
use tip_olg_nats_agent_core.Kv.Keys.{build_desired_config_key, key_pattern_error}
use tip_olg_nats_agent_core.Kv.Records.{
  is_empty, encoded, encode_desired_config_record, validate_desired_config_record,
}
use tip_olg_nats_agent_core.Kv.Store.{prepare, after_put, store_desired_config, load_desired_config}
use tip_olg_nats_agent_core.Kv.RoundTrip.{
  IsWritten, key, prepare_lem, stored_now, store_lem, load_lem,
}
use tip_olg_nats_agent_core.Envelopes.Validate.{no_bytes}
use tip_olg_nats_agent_core.Client.{to_kv_record, from_kv_stored, marshaled}
use tip_olg_nats_agent_core.Client.Submit.{store, load}

-- What the code relies on in encoding/json for values with no json.RawMessage in them: what it makes of a
-- value is not empty, and is decoded to it.
pub record IsCodec {A : Type 0} (marshal : A → Result (List ℕ)) (unmarshal : List ℕ → Result A)
    : Type 0 where
  pub full : (a : A) (bytes : List ℕ) → marshal a ≡ ok bytes → no_bytes bytes ≡ false
  pub back : (a : A) (bytes : List ℕ) → marshal a ≡ ok bytes → unmarshal bytes ≡ ok a

-- For one value with a json.RawMessage in it: what is made of it is not empty, and is decoded to the value
-- that has the bytes that encoding/json makes of the json.RawMessage, which it compacts and escapes.
pub record IsCarried {A : Type 0} (marshal : A → Result (List ℕ)) (unmarshal : List ℕ → Result A)
    (a decoded : A) : Type 0 where
  pub full : (bytes : List ℕ) → marshal a ≡ ok bytes → no_bytes bytes ≡ false
  pub back : (bytes : List ℕ) → marshal a ≡ ok bytes → unmarshal bytes ≡ ok decoded

-- The bytes that it makes of those of a json.RawMessage are JSON where these are, and empty where these are.
pub record IsRewritten (valid : List ℕ → Bool) (bytes rewritten : List ℕ) : Type 0 where
  pub same_valid : valid rewritten ≡ valid bytes
  pub same_empty : no_bytes rewritten ≡ no_bytes bytes

-- What it relies on in the bucket: a key that was just written has that entry.
pub record IsBucket {S : Type 0} (bucket : Bucket S) (name : String) : Type 0 where
  pub written :
      (s s' : S) (key : String) (payload : Bytes) (revision : ℕ)
      → bucket.put s key payload ≡ (s', ok revision)
      → (e : Entry) × (bucket.get s' key ≡ ok e) × IsWritten e name key payload revision

pub bind-ok :
    {A B : Type 0} (r : Result A) (f : A → Result B) (y : B)
    → (r >>= f) ≡ ok y
    → (x : A) × (r ≡ ok x) × (f x ≡ ok y)
bind-ok (err e) f y h = absurd (ground arith)
bind-ok (ok x) f y h = (x, refl, h)

pub public-ok : {A : Type 0} (r : Result A) (x : A) → public r ≡ ok x → r ≡ ok x
public-ok (err e) x h = absurd (ground arith)
public-ok (ok x) y h = h

pub marshaled-ok :
    (op subject message : String) (r : Result (List ℕ)) (bytes : List ℕ)
    → marshaled op subject message r ≡ ok bytes
    → r ≡ ok bytes
marshaled-ok op subject message (err e) bytes h = absurd (ground arith)
marshaled-ok op subject message (ok x) bytes h = h

encoded-ok : (r : Result Bytes) (payload : Bytes) → encoded r ≡ ok payload → r ≡ ok payload
encoded-ok (err e) payload h = absurd (ground arith)
encoded-ok (ok x) payload h = h

empty_lem : (bytes : Bytes) → is_empty bytes ≡ no_bytes bytes
empty_lem [] = refl
empty_lem (b ∷ rest) = refl

record-valid :
    (u : Unicode) (j : Json) (rec : DesiredConfigRecord) (rewritten : Bytes)
    → IsRewritten j.valid rec.payload rewritten
    → validate_desired_config_record u j rec ≡ nil
    → validate_desired_config_record u j (record rec { payload = rewritten }) ≡ nil
unfolding validate_desired_config_record
record-valid u j rec rewritten r h =
    rw (empty_lem rewritten ∙ r.same_empty ∙ sym (empty_lem rec.payload), r.same_valid) h

module _ {S : Type 0} (u : Unicode) (j : Json) (bucket : Bucket S) (rt : Provider) where
  -- What passed on the way to a record that was stored.
  record IsPrepared (rec : DesiredConfigRecord) (payload : Bytes) : Type 0 where
    valid : validate_desired_config_record u j rec ≡ nil
    pattern : key_pattern_error (trim_space rt.key_pattern) ≡ nil
    live : rt.key_value_err ≡ nil
    made : j.marshal rec ≡ ok payload

  prepare-IsPrepared :
      (rec : DesiredConfigRecord) (k : String) (payload : Bytes)
      → prepare u j bucket rt rec ≡ ok (k, payload)
      → IsPrepared rec payload
  unfolding prepare build_desired_config_key encode_desired_config_record
  prepare-IsPrepared rec k payload h =
      let (v, h1) = check-eq-ok (validate_desired_config_record u j rec) _ h in
      let (k', hb, h2) =
        bind-ok (build_desired_config_key u rt.key_pattern rec.target) _ (k, payload) h1 in
      let (p, hp) = check-eq-ok (key_pattern_error (trim_space rt.key_pattern)) _ hb in
      let (l, h3) = check-eq-ok rt.key_value_err _ h2 in
      let (bytes, he, h4) = bind-ok (encode_desired_config_record u j rec) _ (k, payload) h3 in
      let (v', h5) =
        check-eq-ok (validate_desired_config_record u j rec) (encoded (j.marshal rec)) he in
      let same : bytes ≡ payload = ground arith in
      record {
        valid = v;
        pattern = p;
        live = l;
        made = encoded-ok (j.marshal rec) bytes h5 ∙ ap (λ x. ok x) same;
      }

  module _ (rec : DesiredConfigRecord) (rewritten : Bytes) (s : S)
      (codec : IsCarried j.marshal j.unmarshal rec (record rec { payload = rewritten }))
      (same_json : IsRewritten j.valid rec.payload rewritten)
      (holds : IsBucket bucket rt.bucket_name) where
    put_lem :
        (payload : Bytes) (p : IsPrepared rec payload)
        → let k = key u j bucket rt rec p.valid p.pattern p.live in
          store_desired_config u j bucket rt s rec
          ≡ after_put u j bucket rt rec k (bucket.put s k payload)
    unfolding store_desired_config
    put_lem payload p =
        rw
          (
            prepare_lem u j bucket rt rec p.valid p.pattern p.live payload p.made,
            store_desired_config,
          )
          refl

    failed :
        (e : Error)
        → prepare u j bucket rt rec ≡ err e
        → (store_desired_config u j bucket rt s rec).1 ≡ err e
    unfolding store_desired_config
    failed e same = rw (same, store_desired_config) refl

    -- What is stored is loaded.
    put-load :
        (payload : Bytes) (p : IsPrepared rec payload) (stored : StoredDesiredConfig)
        (q : S × Result ℕ)
        → bucket.put s (key u j bucket rt rec p.valid p.pattern p.live) payload ≡ q
        → (store_desired_config u j bucket rt s rec).1 ≡ ok stored
        → (load_desired_config u j bucket rt (store_desired_config u j bucket rt s rec).0 rec.target
            ≡ ok (record stored { rec = record rec { payload = rewritten } }))
          × (stored.rec ≡ rec)
    unfolding after_put
    put-load payload p stored (s1, err e) put h =
        let k = key u j bucket rt rec p.valid p.pattern p.live in
        let eq = put_lem payload p ∙ ap (after_put u j bucket rt rec k) put in
        let bad = sym (ap (λ z. z.1) eq) ∙ h in absurd (ground arith)
    put-load payload p stored (s1, ok revision) put h =
        let k = key u j bucket rt rec p.valid p.pattern p.live in
        let (e, get, w) = holds.written s s1 k payload revision put in
        let seq =
          store_lem u j bucket rt rec p.valid p.pattern p.live s s1 payload revision e p.made put
            get w in
        let back =
          load_lem u j bucket rt rec p.valid p.pattern p.live s1 payload rewritten revision e
            (codec.full payload p.made) (codec.back payload p.made)
            (record-valid u j rec rewritten same_json p.valid) get w in
        let this : stored_now u j bucket rt rec p.valid p.pattern p.live revision e ≡ stored =
          ground (arith, sym (ap (λ z. z.1) seq) ∙ h) in
        (
          ap (λ x. load_desired_config u j bucket rt x rec.target) (ap (λ z. z.0) seq)
              ∙ back
              ∙ ap
                  (λ (x : StoredDesiredConfig).
                    ok (record x { rec = record rec { payload = rewritten } }))
                  this,
          ap (λ (x : StoredDesiredConfig). x.rec) (sym this),
        )

    pub stored-load :
        (stored : StoredDesiredConfig)
        → (store_desired_config u j bucket rt s rec).1 ≡ ok stored
        → (load_desired_config u j bucket rt (store_desired_config u j bucket rt s rec).0 rec.target
            ≡ ok (record stored { rec = record rec { payload = rewritten } }))
          × (stored.rec ≡ rec)
    unfolding store_desired_config
    stored-load stored h = go (prepare u j bucket rt rec) refl
      where
        go :
            (o : Result (String × Bytes))
            → prepare u j bucket rt rec ≡ o
            → (load_desired_config u j bucket rt
                  (store_desired_config u j bucket rt s rec).0
                  rec.target
                ≡ ok (record stored { rec = record rec { payload = rewritten } }))
              × (stored.rec ≡ rec)
        go (err e) same = absurd (ground (arith, failed e same))
        go (ok (k, payload)) same =
            put-load payload (prepare-IsPrepared rec k payload same) stored _ refl h

  -- The same at the facade.
  pub store-stored :
      (s : S) (rec : DesiredConfigRecord) (rewritten : Bytes) (stored : StoredDesiredConfig)
      → IsCarried j.marshal j.unmarshal rec (record rec { payload = rewritten })
      → IsRewritten j.valid rec.payload rewritten
      → IsBucket bucket rt.bucket_name
      → (store u j bucket rt s rec).1 ≡ ok stored
      → load u j bucket rt (store u j bucket rt s rec).0 rec.target
        ≡ ok (record stored { rec = record rec { payload = rewritten } })
  unfolding store load to_kv_record from_kv_stored
  store-stored s rec rewritten stored codec same_json holds h =
      let z = store_desired_config u j bucket rt s rec in
      let (x, hx, same) = bind-ok (public z.1) (λ x. ok (from_kv_stored x)) stored h in
      let (back, eq) = stored-load rec rewritten s codec same_json holds x (public-ok z.1 x hx) in
      let this : from_kv_stored x ≡ stored = ground arith in
      ap (λ r. public r >>= (λ y. ok (from_kv_stored y))) back
      ∙ ap (λ (y : StoredDesiredConfig). ok (record y { rec = record rec { payload = rewritten } }))
          this
