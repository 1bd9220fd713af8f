-- ===== src/Envelopes/Validate.antt =====
-- The decoding and validation of messages in agentcore/handlers_runtime.go.
use Prim.Native.String.{◌++◌}
use tip_olg_nats_agent_core.Common.{
  ℕ, String, ◌==◌, Bool, true, false, not, ◌&&◌, List, [], ◌∷◌, nat_eq, if◌then◌else◌,
}
use tip_olg_nats_agent_core.Strings.{trim_space}
use tip_olg_nats_agent_core.Errors.{
  Error, nil, facade, fault, decode_failed, facade_validation_error,
}
use tip_olg_nats_agent_core.Results.{Result, ok, err, check, ◌>>◌, ◌>>=◌, first_error}
use tip_olg_nats_agent_core.Envelopes.{
  ConfigureNotification, ActionCommand, ResultEnvelope, StatusEnvelope, Codec,
}

-- requiredString
unfoldable pub required_string : String → String → String → Error
required_string op field value =
    if trim_space value == "" then facade_validation_error op (field ++ " is required") else nil

-- optionalString
unfoldable pub optional_string : String → String → String → Error
optional_string op field value =
    if value == ""
    then nil
    else if trim_space value == ""
    then facade_validation_error op (field ++ " cannot be whitespace")
    else nil

-- requiredTimestamp
unfoldable pub required_timestamp : String → String → ℕ → Error
required_timestamp op field value =
    if nat_eq value 0 then facade_validation_error op (field ++ " is required") else nil

abbrev pub no_bytes : List ℕ → Bool
no_bytes [] = true
no_bytes (b ∷ rest) = false

-- The checks of validateResultEnvelope on the command type.
unfoldable pub command_error : String → ResultEnvelope → Error
command_error op msg =
    if msg.command_type == ""
    then nil
    else if not (msg.command_type == "configure") && not (msg.command_type == "action")
    then facade_validation_error op "command_type must be either 'configure' or 'action'"
    else if (msg.command_type == "configure") && (trim_space msg.uuid == "")
    then facade_validation_error op "uuid is required for configure results"
    else if (msg.command_type == "action") && (trim_space msg.action == "")
    then facade_validation_error op "action is required for action results"
    else nil

module _ (valid : List ℕ → Bool) where
  -- requiredJSON
  unfoldable pub required_json : String → String → List ℕ → Error
  required_json op field value =
      if no_bytes value
      then facade_validation_error op (field ++ " is required")
      else if not (valid value)
      then facade_validation_error op (field ++ " must contain valid JSON")
      else nil

  -- optionalJSON
  unfoldable pub optional_json : String → String → List ℕ → Error
  optional_json op field value =
      if no_bytes value
      then nil
      else if not (valid value)
      then facade_validation_error op (field ++ " must contain valid JSON")
      else nil

  -- validateConfigureNotification
  unfoldable pub validate_configure_notification : String → ConfigureNotification → Error
  validate_configure_notification op msg = first_error (
      required_string op "version" msg.version
      ∷ required_string op "rpc_id" msg.rpc_id
      ∷ required_string op "target" msg.target
      ∷ required_string op "command_type" msg.command_type
      ∷ required_string op "uuid" msg.uuid
      ∷ required_string op "kv_bucket" msg.kv_bucket
      ∷ required_string op "kv_key" msg.kv_key
      ∷ required_timestamp op "timestamp" msg.timestamp
      ∷ [])

  -- validateActionCommand
  unfoldable pub validate_action_command : String → ActionCommand → Error
  validate_action_command op msg = first_error (
      required_string op "version" msg.version
      ∷ required_string op "rpc_id" msg.rpc_id
      ∷ required_string op "target" msg.target
      ∷ required_string op "command_type" msg.command_type
      ∷ required_string op "action" msg.action
      ∷ required_timestamp op "timestamp" msg.timestamp
      ∷ required_json op "payload" msg.payload
      ∷ [])

  -- validateResultEnvelope
  unfoldable pub validate_result_envelope : String → ResultEnvelope → Error
  validate_result_envelope op msg = first_error (
      required_string op "version" msg.version
      ∷ required_string op "rpc_id" msg.rpc_id
      ∷ required_string op "target" msg.target
      ∷ required_string op "result" msg.result
      ∷ required_timestamp op "timestamp" msg.timestamp
      ∷ optional_string op "command_type" msg.command_type
      ∷ optional_string op "uuid" msg.uuid
      ∷ optional_string op "action" msg.action
      ∷ optional_string op "error_code" msg.error_code
      ∷ command_error op msg
      ∷ optional_json op "payload" msg.payload
      ∷ [])

  -- validateStatusEnvelope
  unfoldable pub validate_status_envelope : String → StatusEnvelope → Error
  validate_status_envelope op msg = first_error (
      required_string op "version" msg.version
      ∷ required_string op "target" msg.target
      ∷ required_string op "status" msg.status
      ∷ required_timestamp op "timestamp" msg.timestamp
      ∷ optional_string op "rpc_id" msg.rpc_id
      ∷ optional_string op "uuid" msg.uuid
      ∷ optional_string op "stage" msg.stage
      ∷ optional_json op "payload" msg.payload
      ∷ [])

-- The error of json.Unmarshal, wrapped.
abbrev pub unmarshaled : {A : Type 0} → String → Result A → Result A
unmarshaled op (ok msg) = ok msg
unmarshaled op (err e) = err (facade (fault decode_failed op "failed to decode payload" false) e)

module _ {A : Type 0} (codec : Codec A) where
  -- decodePayload
  unfoldable pub decode_payload : String → List ℕ → Result A
  decode_payload op bytes =
      if no_bytes bytes
      then err (facade_validation_error op "payload is required")
      else unmarshaled op (codec.unmarshal bytes)

  -- The four decoders, of which each has its own validation.
  abbrev pub decode_with : (String → A → Error) → String → List ℕ → Result A
  decode_with validate op bytes =
      decode_payload op bytes >>= (λ msg. check (validate op msg) >> ok msg)

-- decodeConfigureNotification
unfoldable pub decode_configure_notification :
    Codec ConfigureNotification → String → List ℕ → Result ConfigureNotification
decode_configure_notification codec =
    decode_with codec (validate_configure_notification codec.valid)

-- decodeActionCommand
unfoldable pub decode_action_command : Codec ActionCommand → String → List ℕ → Result ActionCommand
decode_action_command codec = decode_with codec (validate_action_command codec.valid)

-- decodeResultEnvelope
unfoldable pub decode_result_envelope :
    Codec ResultEnvelope → String → List ℕ → Result ResultEnvelope
decode_result_envelope codec = decode_with codec (validate_result_envelope codec.valid)

-- decodeStatusEnvelope
unfoldable pub decode_status_envelope :
    Codec StatusEnvelope → String → List ℕ → Result StatusEnvelope
decode_status_envelope codec = decode_with codec (validate_status_envelope codec.valid)
