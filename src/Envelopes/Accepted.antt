-- ===== src/Envelopes/Accepted.antt =====
-- Which messages the decoders of agentcore/handlers_runtime.go accept.
use tip_olg_nats_agent_core.Common.{
  ℕ, String, ◌==◌, Bool, true, false, not, ◌&&◌, ◌||◌, List, [], ◌∷◌, ◌≡◌, ◌↔◌, refl, subst, inl,
  inr, Bool-cases, arith, eq_iff, nat_eq, if◌then◌else◌, All,
}
use tip_olg_nats_agent_core.Strings.{trim_space}
use tip_olg_nats_agent_core.Errors.{Error, nil, facade_validation_error}
use tip_olg_nats_agent_core.Results.{
  Result, ok, err, check, ◌>>◌, ◌>>=◌, first_error, first_error-nil, check-eq-ok,
}
use tip_olg_nats_agent_core.Envelopes.{ResultEnvelope, ActionCommand, Codec}
use tip_olg_nats_agent_core.Envelopes.Validate.{
  required_string, optional_string, required_timestamp, required_json, optional_json, no_bytes,
  command_error, validate_result_envelope, validate_action_command, decode_payload, decode_with,
  unmarshaled, decode_result_envelope, decode_action_command,
}

abbrev pub is_blank : String → Bool
is_blank s = trim_space s == ""

-- Left out or not blank.
abbrev pub is_optional : String → Bool
is_optional s = (s == "") || not (is_blank s)

-- A result that says of which kind of command it is names what the command was about.
abbrev pub fits_command : ResultEnvelope → Bool
fits_command msg =
    (msg.command_type == "")
    || ((msg.command_type == "configure") && not (is_blank msg.uuid))
    || ((msg.command_type == "action") && not (is_blank msg.action))

pub record IsResult (valid : List ℕ → Bool) (msg : ResultEnvelope) : Type 0 where
  pub version : is_blank msg.version ≡ false
  pub rpc_id : is_blank msg.rpc_id ≡ false
  pub target : is_blank msg.target ≡ false
  pub result : is_blank msg.result ≡ false
  pub timestamp : nat_eq msg.timestamp 0 ≡ false
  pub command_type : is_optional msg.command_type ≡ true
  pub uuid : is_optional msg.uuid ≡ true
  pub action : is_optional msg.action ≡ true
  pub error_code : is_optional msg.error_code ≡ true
  pub fits : fits_command msg ≡ true
  pub payload : no_bytes msg.payload || valid msg.payload ≡ true

required_iff : (op field s : String) → (required_string op field s ≡ nil) ↔ (is_blank s ≡ false)
unfolding required_string facade_validation_error
required_iff op field s = (λ h. ground arith, λ h. ground arith)

optional_iff : (op field s : String) → (optional_string op field s ≡ nil) ↔ (is_optional s ≡ true)
unfolding optional_string facade_validation_error
optional_iff op field s = (λ h. ground arith, λ h. ground arith)

timestamp_iff :
    (op field : String) (n : ℕ) → (required_timestamp op field n ≡ nil) ↔ (nat_eq n 0 ≡ false)
unfolding required_timestamp facade_validation_error
timestamp_iff op field n = (λ h. ground arith, λ h. ground arith)

json_iff :
    (valid : List ℕ → Bool) (op field : String) (v : List ℕ)
    → (optional_json valid op field v ≡ nil) ↔ (no_bytes v || valid v ≡ true)
unfolding optional_json facade_validation_error
json_iff valid op field v = (λ h. ground arith, λ h. ground arith)

-- No text is both.
one_command : (s : String) → (s == "configure") && (s == "action") ≡ false
one_command s = elim (Bool-cases (s == "configure")) [
  | inl h ↦ rw ((eq_iff s "configure").0 h) refl
  | inr h ↦ rw (h) refl
]

command_iff :
    (op : String) (msg : ResultEnvelope) → (command_error op msg ≡ nil) ↔ (fits_command msg ≡ true)
unfolding command_error facade_validation_error
command_iff op msg = (λ h. ground arith, λ h. ground (arith, one_command msg.command_type))

first_error_of_nil : (es : List Error) → All (λ e. e ≡ nil) es → first_error es ≡ nil
unfolding first_error
first_error_of_nil [] h = refl
first_error_of_nil (e ∷ es) (here, later) = rw (here) (first_error_of_nil es later)

IsResult-iff :
    (valid : List ℕ → Bool) (op : String) (msg : ResultEnvelope)
    → (validate_result_envelope valid op msg ≡ nil) ↔ IsResult valid msg
unfolding validate_result_envelope
IsResult-iff valid op msg = (
  λ h.
      let (a, (b, (c, (d, (e, (f, (g, (i, (j, (k, (l, _))))))))))) = first_error-nil _ h in
      record {
        version = (required_iff op "version" msg.version).0 a;
        rpc_id = (required_iff op "rpc_id" msg.rpc_id).0 b;
        target = (required_iff op "target" msg.target).0 c;
        result = (required_iff op "result" msg.result).0 d;
        timestamp = (timestamp_iff op "timestamp" msg.timestamp).0 e;
        command_type = (optional_iff op "command_type" msg.command_type).0 f;
        uuid = (optional_iff op "uuid" msg.uuid).0 g;
        action = (optional_iff op "action" msg.action).0 i;
        error_code = (optional_iff op "error_code" msg.error_code).0 j;
        fits = (command_iff op msg).0 k;
        payload = (json_iff valid op "payload" msg.payload).0 l;
      },
  λ r. first_error_of_nil _ (
    (required_iff op "version" msg.version).1 r.version,
    (
      (required_iff op "rpc_id" msg.rpc_id).1 r.rpc_id,
      (
        (required_iff op "target" msg.target).1 r.target,
        (
          (required_iff op "result" msg.result).1 r.result,
          (
            (timestamp_iff op "timestamp" msg.timestamp).1 r.timestamp,
            (
              (optional_iff op "command_type" msg.command_type).1 r.command_type,
              (
                (optional_iff op "uuid" msg.uuid).1 r.uuid,
                (
                  (optional_iff op "action" msg.action).1 r.action,
                  (
                    (optional_iff op "error_code" msg.error_code).1 r.error_code,
                    (
                      (command_iff op msg).1 r.fits,
                      ((json_iff valid op "payload" msg.payload).1 r.payload, tt),
                    ),
                  ),
                ),
              ),
            ),
          ),
        ),
      ),
    ),
  ),
)

module _ {A : Type 0} (codec : Codec A) (validate : String → A → Error) (op : String)
    (msg : A) where
  accepted_by :
      (b : Bool) (r : Result A)
      → ((if b then err (facade_validation_error op "payload is required") else unmarshaled op r)
          >>= (λ m. check (validate op m) >> ok m))
        ≡ ok msg
      → (b ≡ false) × (r ≡ ok msg) × (validate op msg ≡ nil)
  accepted_by true r h = absurd (ground arith)
  accepted_by false (err e) h = absurd (ground arith)
  accepted_by false (ok m) h =
      let (v, e) = check-eq-ok (validate op m) (ok m) h in
      (refl, e, subst (λ x. validate op x ≡ nil) (ground arith) v)

  decode_with_iff :
      (bytes : List ℕ)
      → (decode_with codec validate op bytes ≡ ok msg)
        ↔ ((no_bytes bytes ≡ false) × (codec.unmarshal bytes ≡ ok msg) × (validate op msg ≡ nil))
  unfolding decode_payload
  decode_with_iff bytes = (
    accepted_by (no_bytes bytes) (codec.unmarshal bytes),
    λ (full, back, valid). rw (full, back, unmarshaled, valid) refl,
  )

-- decodeResultEnvelope returns a message exactly if there is a payload, JSON decodes it to that message,
-- and the message is a result: its version, RPC id, target and result are not blank, its time is set,
-- its optional texts are empty or not blank, its payload is empty or valid JSON, and its command type is
-- empty, configure with a UUID that is not blank, or action with an action that is not blank.
pub decode_result_envelope_iff :
    (codec : Codec ResultEnvelope) (op : String) (bytes : List ℕ) (msg : ResultEnvelope)
    → (decode_result_envelope codec op bytes ≡ ok msg)
      ↔ ((no_bytes bytes ≡ false) × (codec.unmarshal bytes ≡ ok msg) × IsResult codec.valid msg)
unfolding decode_result_envelope
decode_result_envelope_iff codec op bytes msg =
    let decoded = decode_with_iff codec (validate_result_envelope codec.valid) op msg bytes in
    let valid = IsResult-iff codec.valid op msg in
    (
      λ h. let (full, back, v) = decoded.0 h in (full, back, valid.0 v),
      λ (full, back, r). decoded.1 (full, back, valid.1 r),
    )

-- The description of an action command that is accepted.
pub record IsAction (valid : List ℕ → Bool) (msg : ActionCommand) : Type 0 where
  pub version : is_blank msg.version ≡ false
  pub rpc_id : is_blank msg.rpc_id ≡ false
  pub target : is_blank msg.target ≡ false
  pub command_type : is_blank msg.command_type ≡ false
  pub action : is_blank msg.action ≡ false
  pub timestamp : nat_eq msg.timestamp 0 ≡ false
  pub payload : not (no_bytes msg.payload) && valid msg.payload ≡ true

required_json_iff :
    (valid : List ℕ → Bool) (op field : String) (v : List ℕ)
    → (required_json valid op field v ≡ nil) ↔ (not (no_bytes v) && valid v ≡ true)
unfolding required_json facade_validation_error
required_json_iff valid op field v = (λ h. ground arith, λ h. ground arith)

IsAction-iff :
    (valid : List ℕ → Bool) (op : String) (msg : ActionCommand)
    → (validate_action_command valid op msg ≡ nil) ↔ IsAction valid msg
unfolding validate_action_command
IsAction-iff valid op msg = (
  λ h.
      let (a, (b, (c, (d, (e, (f, (g, _))))))) = first_error-nil _ h in
      record {
        version = (required_iff op "version" msg.version).0 a;
        rpc_id = (required_iff op "rpc_id" msg.rpc_id).0 b;
        target = (required_iff op "target" msg.target).0 c;
        command_type = (required_iff op "command_type" msg.command_type).0 d;
        action = (required_iff op "action" msg.action).0 e;
        timestamp = (timestamp_iff op "timestamp" msg.timestamp).0 f;
        payload = (required_json_iff valid op "payload" msg.payload).0 g;
      },
  λ r. first_error_of_nil _ (
    (required_iff op "version" msg.version).1 r.version,
    (
      (required_iff op "rpc_id" msg.rpc_id).1 r.rpc_id,
      (
        (required_iff op "target" msg.target).1 r.target,
        (
          (required_iff op "command_type" msg.command_type).1 r.command_type,
          (
            (required_iff op "action" msg.action).1 r.action,
            (
              (timestamp_iff op "timestamp" msg.timestamp).1 r.timestamp,
              ((required_json_iff valid op "payload" msg.payload).1 r.payload, tt),
            ),
          ),
        ),
      ),
    ),
  ),
)

-- decodeActionCommand returns a message exactly if there is a payload, JSON decodes it to that message,
-- and none of the message's texts is blank, its time is set and its own payload is valid JSON that is
-- not empty.
decode_action_command_iff :
    (codec : Codec ActionCommand) (op : String) (bytes : List ℕ) (msg : ActionCommand)
    → (decode_action_command codec op bytes ≡ ok msg)
      ↔ ((no_bytes bytes ≡ false) × (codec.unmarshal bytes ≡ ok msg) × IsAction codec.valid msg)
unfolding decode_action_command
decode_action_command_iff codec op bytes msg =
    let decoded = decode_with_iff codec (validate_action_command codec.valid) op msg bytes in
    let valid = IsAction-iff codec.valid op msg in
    (
      λ h. let (full, back, v) = decoded.0 h in (full, back, valid.0 v),
      λ (full, back, r). decoded.1 (full, back, valid.1 r),
    )
