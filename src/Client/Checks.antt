-- ===== src/Client/Checks.antt =====
-- The validation of messages (agentcore/handlers_runtime.go) accepts the same whatever operation it is
-- made for, since that is only named in the errors, and whatever encoding/json makes of the payload.
use tip_olg_nats_agent_core.Common.{ℕ, String, ◌≡◌, refl, Bool, List, [], ◌∷◌, All, arith}
use tip_olg_nats_agent_core.Errors.{Error, nil, facade_validation_error}
use tip_olg_nats_agent_core.Results.{first_error, first_error-nil}
use tip_olg_nats_agent_core.Envelopes.{ActionCommand, ResultEnvelope, StatusEnvelope}
use tip_olg_nats_agent_core.Envelopes.Validate.{
  required_string, required_timestamp, optional_string, required_json, optional_json, command_error,
  validate_action_command, validate_result_envelope, validate_status_envelope,
}
use tip_olg_nats_agent_core.Client.Delivered.{IsRewritten}

-- A check passes whatever operation it is made for.
pub string_op :
    (op op' field value : String)
    → required_string op field value ≡ nil
    → required_string op' field value ≡ nil
unfolding required_string facade_validation_error
string_op op op' field value h = ground arith

pub timestamp_op :
    (op op' field : String) (value : ℕ)
    → required_timestamp op field value ≡ nil
    → required_timestamp op' field value ≡ nil
unfolding required_timestamp facade_validation_error
timestamp_op op op' field value h = ground arith

optional_op :
    (op op' field value : String)
    → optional_string op field value ≡ nil
    → optional_string op' field value ≡ nil
unfolding optional_string facade_validation_error
optional_op op op' field value h = ground arith

module _ (valid : List ℕ → Bool) where
  json_op :
      (op op' field : String) (value rewritten : List ℕ)
      → IsRewritten valid value rewritten
      → required_json valid op field value ≡ nil
      → required_json valid op' field rewritten ≡ nil
  unfolding required_json facade_validation_error
  json_op op op' field value rewritten r h = ground (arith, r.same_valid, r.same_empty)

  optional_json_op :
      (op op' field : String) (value rewritten : List ℕ)
      → IsRewritten valid value rewritten
      → optional_json valid op field value ≡ nil
      → optional_json valid op' field rewritten ≡ nil
  unfolding optional_json facade_validation_error
  optional_json_op op op' field value rewritten r h = ground (arith, r.same_valid, r.same_empty)

command_op :
    (op op' : String) (msg : ResultEnvelope) (rewritten : List ℕ)
    → command_error op msg ≡ nil
    → command_error op' (record msg { payload = rewritten }) ≡ nil
unfolding command_error facade_validation_error
command_op op op' msg rewritten h = ground arith

nil-first_error : (es : List Error) → All (λ e. e ≡ nil) es → first_error es ≡ nil
unfolding first_error
nil-first_error [] h = refl
nil-first_error (e ∷ es) (h, hs) = rw (h, first_error) (nil-first_error es hs)

module _ (valid : List ℕ → Bool) (op op' : String) where
  pub action_op :
      (cmd : ActionCommand) (rewritten : List ℕ)
      → IsRewritten valid cmd.payload rewritten
      → validate_action_command valid op cmd ≡ nil
      → validate_action_command valid op' (record cmd { payload = rewritten }) ≡ nil
  unfolding validate_action_command
  action_op cmd rewritten r h =
      let (a, (b, (c, (d, (e, (t, (j, _))))))) = first_error-nil _ h in
      nil-first_error _ (
        string_op op op' _ _ a,
        (
          string_op op op' _ _ b,
          (
            string_op op op' _ _ c,
            (
              string_op op op' _ _ d,
              (
                string_op op op' _ _ e,
                (timestamp_op op op' _ _ t, (json_op valid op op' _ _ _ r j, tt)),
              ),
            ),
          ),
        ),
      )

  pub result_op :
      (msg : ResultEnvelope) (rewritten : List ℕ)
      → IsRewritten valid msg.payload rewritten
      → validate_result_envelope valid op msg ≡ nil
      → validate_result_envelope valid op' (record msg { payload = rewritten }) ≡ nil
  unfolding validate_result_envelope
  result_op msg rewritten r h =
      let (a, (b, (c, (d, (t, (e, (f, (g, (i, (k, (j, _))))))))))) = first_error-nil _ h in
      nil-first_error _ (
        string_op op op' _ _ a,
        (
          string_op op op' _ _ b,
          (
            string_op op op' _ _ c,
            (
              string_op op op' _ _ d,
              (
                timestamp_op op op' _ _ t,
                (
                  optional_op op op' _ _ e,
                  (
                    optional_op op op' _ _ f,
                    (
                      optional_op op op' _ _ g,
                      (
                        optional_op op op' _ _ i,
                        (
                          command_op op op' msg rewritten k,
                          (optional_json_op valid op op' _ _ _ r j, tt),
                        ),
                      ),
                    ),
                  ),
                ),
              ),
            ),
          ),
        ),
      )

  pub status_op :
      (msg : StatusEnvelope) (rewritten : List ℕ)
      → IsRewritten valid msg.payload rewritten
      → validate_status_envelope valid op msg ≡ nil
      → validate_status_envelope valid op' (record msg { payload = rewritten }) ≡ nil
  unfolding validate_status_envelope
  status_op msg rewritten r h =
      let (a, (b, (c, (t, (d, (e, (f, (j, _)))))))) = first_error-nil _ h in
      nil-first_error _ (
        string_op op op' _ _ a,
        (
          string_op op op' _ _ b,
          (
            string_op op op' _ _ c,
            (
              timestamp_op op op' _ _ t,
              (
                optional_op op op' _ _ d,
                (
                  optional_op op op' _ _ e,
                  (optional_op op op' _ _ f, (optional_json_op valid op op' _ _ _ r j, tt)),
                ),
              ),
            ),
          ),
        ),
      )
