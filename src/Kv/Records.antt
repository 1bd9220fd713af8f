-- ===== src/Kv/Records.antt =====
-- internal/kv/store.go: validation, encoding and decoding of records; kvStoreError and kvReadError of
-- helpers.go.
use tip_olg_nats_agent_core.Common.{
  String, ◌==◌, [], ◌∷◌, not, nat_eq, true, false, Bool, if◌then◌else◌,
}
use tip_olg_nats_agent_core.Strings.{Unicode, trim_space}
use tip_olg_nats_agent_core.Errors.{
  Error, runtime, fault, kv_store_failed, kv_read_failed, encode_failed, decode_failed,
  validation_error,
}
use tip_olg_nats_agent_core.Results.{Result, ok, err, check, ◌>>◌}
use tip_olg_nats_agent_core.Kv.{Bytes, DesiredConfigRecord, Json}
use tip_olg_nats_agent_core.Kv.Keys.{validate_token}

-- kvStoreError
abbrev pub kv_store_error : String → String → Error → Error
kv_store_error op message cause = runtime (fault kv_store_failed op message true) cause

-- kvReadError
abbrev pub kv_read_error : String → String → Error → Error
kv_read_error op message cause = runtime (fault kv_read_failed op message true) cause

abbrev pub is_empty : Bytes → Bool
is_empty [] = true
is_empty (b ∷ rest) = false

-- validateDesiredConfigRecord
unfoldable pub validate_desired_config_record : Unicode → Json → DesiredConfigRecord → Error
validate_desired_config_record u j rec =
    let op : String = "validate_desired_config_record" in
    if trim_space rec.version == ""
    then validation_error op "version is required"
    else if trim_space rec.rpc_id == ""
    then validation_error op "rpc_id is required"
    else if trim_space rec.target == ""
    then validation_error op "target is required"
    else if trim_space rec.uuid == ""
    then validation_error op "uuid is required"
    else if nat_eq rec.timestamp 0
    then validation_error op "timestamp is required"
    else if is_empty rec.payload
    then validation_error op "payload is required"
    else if not (j.valid rec.payload)
    then validation_error op "payload must contain valid JSON"
    else validate_token u "validate_target" "target" rec.target

-- The error of json.Marshal, wrapped.
abbrev pub encoded : Result Bytes → Result Bytes
encoded (ok payload) = ok payload
encoded (err e) =
    err (
      runtime (fault encode_failed "store_desired_config" "failed to encode desired config" false)
        e)

-- encodeDesiredConfigRecord
unfoldable pub encode_desired_config_record : Unicode → Json → DesiredConfigRecord → Result Bytes
encode_desired_config_record u j rec =
    check (validate_desired_config_record u j rec) >> encoded (j.marshal rec)

-- What is done with the answer of json.Unmarshal.
abbrev pub decoded : Unicode → Json → Result DesiredConfigRecord → Result DesiredConfigRecord
decoded u j (ok rec) = check (validate_desired_config_record u j rec) >> ok rec
decoded u j (err e) =
    err (
      runtime (fault decode_failed "load_desired_config" "failed to decode desired config" false) e)

-- decodeDesiredConfigRecord
unfoldable pub decode_desired_config_record : Unicode → Json → Bytes → Result DesiredConfigRecord
decode_desired_config_record u j payload =
    if is_empty payload
    then err (validation_error "load_desired_config" "payload is required")
    else decoded u j (j.unmarshal payload)
