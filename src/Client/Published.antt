-- ===== src/Client/Published.antt =====
-- The messages of SubmitAction, PublishResult and PublishStatus (agentcore/client.go) are the ones that
-- the callbacks of agentcore/handlers_runtime.go hand to their handlers.
use tip_olg_nats_agent_core.Common.{
  ℕ, String, ◌≡◌, refl, ap, ◌∙◌, Bool, true, Option, none, some, List, [], ◌∷◌, arith,
}
use tip_olg_nats_agent_core.Strings.{Unicode}
use tip_olg_nats_agent_core.Errors.{Error, nil}
use tip_olg_nats_agent_core.Results.{Result, ok, err, public, check-eq-ok}
use tip_olg_nats_agent_core.Subjects.{Builder, action_subject, result_subject, status_subject}
use tip_olg_nats_agent_core.Publisher.{World}
use tip_olg_nats_agent_core.Envelopes.{ActionCommand, ResultEnvelope, StatusEnvelope, Codec}
use tip_olg_nats_agent_core.Envelopes.Validate.{
  decode_payload, decode_with, validate_action_command, validate_result_envelope,
  validate_status_envelope, decode_action_command, decode_result_envelope, decode_status_envelope,
}
use tip_olg_nats_agent_core.Client.{
  SubmissionAck, Publication, validate_operation_context, marshaled, sent,
}
use tip_olg_nats_agent_core.Client.Publish.{
  Outgoing, send, addressed, action_message, acknowledged, submit_action, result_message,
  publish_result, status_message, publish_status,
}
use tip_olg_nats_agent_core.Client.Delivered.{IsCarried, IsRewritten, bind-ok, marshaled-ok}
use tip_olg_nats_agent_core.Client.Checks.{action_op, result_op, status_op}
use tip_olg_nats_agent_core.Handlers.Dispatch.{
  Outcome, bind_action_callback, bind_result_callback, bind_status_callback,
}
use tip_olg_nats_agent_core.Handlers.Called.{handled, expected, callback-handled}

-- What send gives to the publisher is what it was given.
send-some :
    (w : World) (op : String) (o : Outgoing) (p : Publication) (e : Error)
    → send w op o ≡ (some p, e)
    → o ≡ ok (p.subject, p.payload)
unfolding send sent
send-some w op (err x) p e h = absurd (ground arith)
send-some w op (ok (subject, payload)) p e h = ground arith

-- A message that was addressed was encoded.
module _ {A : Type 0} (marshal : A → Result (List ℕ)) (msg : A) where
  addressed-ok :
      (r : Result String) (op text subject : String) (payload : List ℕ)
      → addressed r (λ to. marshaled op to text (marshal msg)) ≡ ok (subject, payload)
      → marshal msg ≡ ok payload
  addressed-ok r op text subject payload h =
      let (to, hs, h1) = bind-ok (public r) _ (subject, payload) h in
      let (bytes, hm, h2) = bind-ok (marshaled op to text (marshal msg)) _ (subject, payload) h1 in
      let same : bytes ≡ payload = ground arith in
      marshaled-ok op to text (marshal msg) bytes hm ∙ ap (λ x. ok x) same

  decode_with_lem :
      (decoded : A) (codec : Codec A) (validate : String → A → Error) (op : String)
      (payload : List ℕ)
      → IsCarried marshal codec.unmarshal msg decoded
      → marshal msg ≡ ok payload
      → validate op decoded ≡ nil
      → decode_with codec validate op payload ≡ ok decoded
  unfolding decode_payload
  decode_with_lem decoded codec validate op payload is h v =
      rw (is.full payload h, is.back payload h, v) refl

  -- The handler gets it.
  given_to :
      (decode : List ℕ → Result A) (subject : String) (bytes : List ℕ)
      → decode bytes ≡ ok msg
      → expected true decode (some (subject, bytes)) ≡ msg ∷ []
  given_to decode subject bytes h =
      ap (λ (r : Result A). elim r as (λ x. List A) [ err e ↦ [] | ok payload ↦ payload ∷ [] ]) h

module _ (u : Unicode) (b : Builder) (w : World) (ctx_err : Error) (now : ℕ) where
  acknowledged-some :
      (cmd : ActionCommand) (o : Option Publication) (e : Error) (p : Publication)
      (answer : Result SubmissionAck)
      → acknowledged u b w ctx_err now cmd (o, e) ≡ (some p, answer)
      → o ≡ some p
  unfolding acknowledged
  acknowledged-some cmd none e p answer h = absurd (ground arith)
  acknowledged-some cmd (some q) e p answer h = ground arith

  module _ (marshal : ActionCommand → Result (List ℕ)) (codec : Codec ActionCommand) where
    -- A command that SubmitAction gives to the publisher, whatever becomes of the publication, is one
    -- with which an action callback, while callbacks are enabled, calls its handler exactly once; and it
    -- is that command, its payload as encoding/json rewrote it. The conditions on encoding/json: it decodes what
    -- it made of this command to the command with the rewritten payload, which is JSON, and is empty, where
    -- the payload is; and both sides agree on what is valid JSON.
    pub submit_action-handled :
        (cmd : ActionCommand) (rewritten : List ℕ) (p : Publication) (answer : Result SubmissionAck)
        (metrics : Bool) (handler : ActionCommand → Outcome)
        → IsCarried marshal codec.unmarshal cmd (record cmd { payload = rewritten })
        → IsRewritten codec.valid cmd.payload rewritten
        → submit_action u b w ctx_err now marshal codec.valid cmd ≡ (some p, answer)
        → handled (bind_action_callback true metrics codec handler (some (p.subject, p.payload)))
          ≡ record cmd { payload = rewritten } ∷ []
    unfolding submit_action action_message bind_action_callback decode_action_command
    submit_action-handled cmd rewritten p answer metrics handler is same_json h =
        let m = action_message u b w ctx_err now marshal codec.valid cmd in
        let z = send w "submit_action_publish" m in
        let o = acknowledged-some cmd z.0 z.1 p answer h in
        let message = send-some w "submit_action_publish" m p z.1 (ap (λ x. (x, z.1)) o) in
        let (ctx, h1) =
          check-eq-ok (validate_operation_context "submit_action" w.has_ctx ctx_err) _ message in
        let (valid, h2) =
          check-eq-ok (validate_action_command codec.valid "submit_action" cmd) _ h1 in
        let encoded =
          addressed-ok marshal cmd (action_subject u b cmd.target cmd.action) _ _ p.subject
            p.payload h2 in
        let read =
          decode_with_lem marshal cmd (record cmd { payload = rewritten }) codec
            (validate_action_command codec.valid) "decode_action_command" p.payload is encoded
            (action_op codec.valid "submit_action" "decode_action_command" cmd rewritten same_json
              valid) in
        callback-handled metrics _ _ handler true _ (some (p.subject, p.payload))
        ∙ given_to marshal (record cmd { payload = rewritten })
            (decode_action_command codec "decode_action_command") p.subject p.payload read

  module _ (marshal : ResultEnvelope → Result (List ℕ)) (codec : Codec ResultEnvelope) where
    -- A result that PublishResult gives to the publisher, whatever becomes of the publication, is one
    -- with which a result callback, while callbacks are enabled, calls its handler exactly once; and it
    -- is that result, its payload as encoding/json rewrote it. The conditions on encoding/json: it decodes what
    -- it made of this result to the result with the rewritten payload, which is JSON, and is empty, where
    -- the payload is; and both sides agree on what is valid JSON.
    pub publish_result-handled :
        (msg : ResultEnvelope) (rewritten : List ℕ) (p : Publication) (e : Error) (metrics : Bool)
        (handler : ResultEnvelope → Outcome)
        → IsCarried marshal codec.unmarshal msg (record msg { payload = rewritten })
        → IsRewritten codec.valid msg.payload rewritten
        → publish_result u b w ctx_err now marshal codec.valid msg ≡ (some p, e)
        → handled (bind_result_callback true metrics codec handler (some (p.subject, p.payload)))
          ≡ record msg { payload = rewritten } ∷ []
    unfolding publish_result result_message bind_result_callback decode_result_envelope
    publish_result-handled msg rewritten p e metrics handler is same_json h =
        let message =
          send-some w "publish_result" (result_message u b w ctx_err now marshal codec.valid msg) p
            e h in
        let (ctx, h1) =
          check-eq-ok (validate_operation_context "publish_result" w.has_ctx ctx_err) _ message in
        let (valid, h2) =
          check-eq-ok (validate_result_envelope codec.valid "publish_result" msg) _ h1 in
        let encoded =
          addressed-ok marshal msg (result_subject u b msg.target) _ _ p.subject p.payload h2 in
        let read =
          decode_with_lem marshal msg (record msg { payload = rewritten }) codec
            (validate_result_envelope codec.valid) "decode_result_envelope" p.payload is encoded
            (result_op codec.valid "publish_result" "decode_result_envelope" msg rewritten same_json
              valid) in
        callback-handled metrics _ _ handler true _ (some (p.subject, p.payload))
        ∙ given_to marshal (record msg { payload = rewritten })
            (decode_result_envelope codec "decode_result_envelope") p.subject p.payload read

  module _ (marshal : StatusEnvelope → Result (List ℕ)) (codec : Codec StatusEnvelope) where
    pub publish_status-handled :
        (msg : StatusEnvelope) (rewritten : List ℕ) (p : Publication) (e : Error) (metrics : Bool)
        (handler : StatusEnvelope → Outcome)
        → IsCarried marshal codec.unmarshal msg (record msg { payload = rewritten })
        → IsRewritten codec.valid msg.payload rewritten
        → publish_status u b w ctx_err now marshal codec.valid msg ≡ (some p, e)
        → handled (bind_status_callback true metrics codec handler (some (p.subject, p.payload)))
          ≡ record msg { payload = rewritten } ∷ []
    unfolding publish_status status_message bind_status_callback decode_status_envelope
    publish_status-handled msg rewritten p e metrics handler is same_json h =
        let message =
          send-some w "publish_status" (status_message u b w ctx_err now marshal codec.valid msg) p
            e h in
        let (ctx, h1) =
          check-eq-ok (validate_operation_context "publish_status" w.has_ctx ctx_err) _ message in
        let (valid, h2) =
          check-eq-ok (validate_status_envelope codec.valid "publish_status" msg) _ h1 in
        let encoded =
          addressed-ok marshal msg (status_subject u b msg.target) _ _ p.subject p.payload h2 in
        let read =
          decode_with_lem marshal msg (record msg { payload = rewritten }) codec
            (validate_status_envelope codec.valid) "decode_status_envelope" p.payload is encoded
            (status_op codec.valid "publish_status" "decode_status_envelope" msg rewritten same_json
              valid) in
        callback-handled metrics _ _ handler true _ (some (p.subject, p.payload))
        ∙ given_to marshal (record msg { payload = rewritten })
            (decode_status_envelope codec "decode_status_envelope") p.subject p.payload read
