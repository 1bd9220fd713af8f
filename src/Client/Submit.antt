-- ===== src/Client/Submit.antt =====
-- agentcore/client.go: StoreDesiredConfig, LoadDesiredConfig, and SubmitConfigure over them.
use tip_olg_nats_agent_core.Common.{ℕ, String, true, Option, none, some, List, if◌then◌else◌}
use tip_olg_nats_agent_core.Strings.{Unicode}
use tip_olg_nats_agent_core.Errors.{Error, is_nil}
use tip_olg_nats_agent_core.Results.{Result, ok, err, check, public, ◌>>◌, ◌>>=◌}
use tip_olg_nats_agent_core.Subjects.{Builder, configure_subject}
use tip_olg_nats_agent_core.Publisher.{World}
use tip_olg_nats_agent_core.Kv.{DesiredConfigRecord, StoredDesiredConfig, Json, Bucket, Provider}
use tip_olg_nats_agent_core.Kv.Store.{store_desired_config, load_desired_config}
use tip_olg_nats_agent_core.Envelopes.{ConfigureNotification}
use tip_olg_nats_agent_core.Envelopes.Validate.{validate_configure_notification}
use tip_olg_nats_agent_core.Client.{
  ConfigureCommand, SubmissionAck, Publication, validate_operation_context,
  validate_configure_command, to_kv_record, from_kv_stored, marshaled, sent,
}
use tip_olg_nats_agent_core.Client.Publish.{Outgoing}

-- The record that SubmitConfigure stores.
abbrev pub record_of : ConfigureCommand → DesiredConfigRecord
record_of cmd = record {
  version = cmd.version;
  rpc_id = cmd.rpc_id;
  target = cmd.target;
  uuid = cmd.uuid;
  payload = cmd.payload;
  timestamp = cmd.timestamp;
}

-- The notification that it sends.
abbrev pub notification_of : ConfigureCommand → StoredDesiredConfig → ℕ → ConfigureNotification
notification_of cmd stored now = record {
  version = cmd.version;
  rpc_id = cmd.rpc_id;
  target = cmd.target;
  command_type = "configure";
  uuid = cmd.uuid;
  kv_bucket = stored.bucket;
  kv_key = stored.key;
  timestamp = now;
}

abbrev pub ack_of : ConfigureCommand → StoredDesiredConfig → ℕ → String → SubmissionAck
ack_of cmd stored now subject = record {
  accepted = true;
  rpc_id = cmd.rpc_id;
  target = cmd.target;
  subject = subject;
  accepted_at = now;
  kv_bucket = stored.bucket;
  kv_key = stored.key;
  kv_revision = stored.revision;
}

module _ {S : Type 0} (u : Unicode) (j : Json) (bucket : Bucket S) (rt : Provider) where
  -- Client.StoreDesiredConfig: the bucket, the answer, and what is reported to the error sink
  unfoldable pub store : S → DesiredConfigRecord → S × Result StoredDesiredConfig × List Error
  store s rec =
      let (s', answer, reports) = store_desired_config u j bucket rt s (to_kv_record rec) in
      (s', public answer >>= (λ stored. ok (from_kv_stored stored)), reports)

  -- Client.LoadDesiredConfig, and StartupReconcile, which calls it
  unfoldable pub load : S → String → Result StoredDesiredConfig
  load s target =
      public (load_desired_config u j bucket rt s target) >>= (λ stored. ok (from_kv_stored stored))

  module _ (b : Builder) (w : World) (ctx_err : Error) (now : ℕ)
      (marshal : ConfigureNotification → Result (List ℕ)) where
    -- SubmitConfigure between the store and the call of the publisher.
    unfoldable pub notification_message : ConfigureCommand → StoredDesiredConfig → Outgoing
    notification_message cmd stored = public (configure_subject u b cmd.target) >>= (λ subject.
        check (
          validate_configure_notification j.valid "submit_configure"
            (notification_of cmd stored now))
        >> (marshaled "submit_configure_encode_notification" subject
              "failed to encode configure notification" (marshal (notification_of cmd stored now))
            >>= (λ payload. ok (subject, payload))))

    -- SubmitConfigure from the answer of the publisher on.
    unfoldable pub notify :
        ConfigureCommand
        → StoredDesiredConfig
        → Outgoing
        → Option Publication × Result SubmissionAck
    notify cmd stored (err e) = (none, err e)
    notify cmd stored (ok (subject, payload)) =
        let (p, e) = sent w "submit_configure_publish_notification" subject payload in
        (some p, if is_nil e then ok (ack_of cmd stored now subject) else err e)

    -- SubmitConfigure at the answer of the store: the bucket, the message, and the answer.
    unfoldable pub submit_stored :
        ConfigureCommand
        → S × Result StoredDesiredConfig × List Error
        → S × Option Publication × Result SubmissionAck
    submit_stored cmd (s, err e, reports) = (s, none, err e)
    submit_stored cmd (s, ok stored, reports) =
        let (p, answer) = notify cmd stored (notification_message cmd stored) in (s, p, answer)

    -- SubmitConfigure
    unfoldable pub submit_configure :
        S → ConfigureCommand → S × Option Publication × Result SubmissionAck
    submit_configure s cmd =
        elim (check (validate_operation_context "submit_configure" w.has_ctx ctx_err)
          >> check (validate_configure_command j.valid "submit_configure" cmd)) [
            | err e ↦ (s, none, err e)
            | ok passed ↦ submit_stored cmd (store s (record_of cmd))
          ]
