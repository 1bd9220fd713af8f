-- ===== src/Client/Publish.antt =====
-- agentcore/client.go: SubmitAction, PublishResult and PublishStatus.
use tip_olg_nats_agent_core.Common.{ℕ, String, Bool, true, Option, none, some, List, if◌then◌else◌}
use tip_olg_nats_agent_core.Strings.{Unicode}
use tip_olg_nats_agent_core.Errors.{Error, is_nil}
use tip_olg_nats_agent_core.Results.{Result, ok, err, check, public, ◌>>◌, ◌>>=◌}
use tip_olg_nats_agent_core.Subjects.{Builder, action_subject, result_subject, status_subject}
use tip_olg_nats_agent_core.Publisher.{World}
use tip_olg_nats_agent_core.Envelopes.{ActionCommand, ResultEnvelope, StatusEnvelope}
use tip_olg_nats_agent_core.Envelopes.Validate.{
  validate_action_command, validate_result_envelope, validate_status_envelope,
}
use tip_olg_nats_agent_core.Client.{
  SubmissionAck, Publication, validate_operation_context, marshaled, sent,
}

-- A message as it goes out: its subject and its bytes, or the error before it.
abbrev pub Outgoing : Type 0
Outgoing = Result (String × List ℕ)

-- The call of the publisher, once there is a message.
unfoldable pub send : World → String → Outgoing → Option Publication × Error
send w op (err e) = (none, e)
send w op (ok (subject, payload)) = let (p, e) = sent w op subject payload in (some p, e)

-- The subject, then the payload.
abbrev pub addressed : Result String → (String → Result (List ℕ)) → Outgoing
addressed subject payload = public subject >>= (λ to. payload to >>= (λ bytes. ok (to, bytes)))

module _ (u : Unicode) (b : Builder) (w : World) (ctx_err : Error) (now : ℕ) where
  -- SubmitAction up to the call of the publisher.
  unfoldable pub action_message :
      (ActionCommand → Result (List ℕ)) → (List ℕ → Bool) → ActionCommand → Outgoing
  action_message marshal valid cmd =
      check (validate_operation_context "submit_action" w.has_ctx ctx_err)
      >> (check (validate_action_command valid "submit_action" cmd)
          >> addressed (action_subject u b cmd.target cmd.action) (λ subject.
            marshaled "submit_action_encode" subject "failed to encode action command"
              (marshal cmd)))

  -- The end of SubmitAction.
  unfoldable pub acknowledged :
      ActionCommand → Option Publication × Error → Option Publication × Result SubmissionAck
  acknowledged cmd (none, e) = (none, err e)
  acknowledged cmd (some p, e) =
      if is_nil e
      then (
        some p,
        ok (record {
          accepted = true;
          rpc_id = cmd.rpc_id;
          target = cmd.target;
          subject = p.subject;
          accepted_at = now;
          kv_bucket = "";
          kv_key = "";
          kv_revision = 0;
        }),
      )
      else (some p, err e)

  -- SubmitAction
  unfoldable pub submit_action :
      (ActionCommand → Result (List ℕ))
      → (List ℕ → Bool)
      → ActionCommand
      → Option Publication × Result SubmissionAck
  submit_action marshal valid cmd =
      acknowledged cmd (send w "submit_action_publish" (action_message marshal valid cmd))

  -- PublishResult
  unfoldable pub result_message :
      (ResultEnvelope → Result (List ℕ)) → (List ℕ → Bool) → ResultEnvelope → Outgoing
  result_message marshal valid msg =
      check (validate_operation_context "publish_result" w.has_ctx ctx_err)
      >> (check (validate_result_envelope valid "publish_result" msg)
          >> addressed (result_subject u b msg.target) (λ subject.
            marshaled "publish_result_encode" subject "failed to encode result envelope"
              (marshal msg)))

  unfoldable pub publish_result :
      (ResultEnvelope → Result (List ℕ))
      → (List ℕ → Bool)
      → ResultEnvelope
      → Option Publication × Error
  publish_result marshal valid msg = send w "publish_result" (result_message marshal valid msg)

  -- PublishStatus
  unfoldable pub status_message :
      (StatusEnvelope → Result (List ℕ)) → (List ℕ → Bool) → StatusEnvelope → Outgoing
  status_message marshal valid msg =
      check (validate_operation_context "publish_status" w.has_ctx ctx_err)
      >> (check (validate_status_envelope valid "publish_status" msg)
          >> addressed (status_subject u b msg.target) (λ subject.
            marshaled "publish_status_encode" subject "failed to encode status envelope"
              (marshal msg)))

  unfoldable pub publish_status :
      (StatusEnvelope → Result (List ℕ))
      → (List ℕ → Bool)
      → StatusEnvelope
      → Option Publication × Error
  publish_status marshal valid msg = send w "publish_status" (status_message marshal valid msg)
