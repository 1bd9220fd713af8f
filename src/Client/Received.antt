-- ===== src/Client/Received.antt =====
-- The one who gets a notification of SubmitConfigure (agentcore/client.go) decodes it, as
-- agentcore/handlers_runtime.go does, and loads the record from where it says.
use tip_olg_nats_agent_core.Common.{
  ℕ, Bool, true, String, ◌≡◌, refl, ap, ◌∙◌, false, some, List, [], ◌∷◌,
}
use tip_olg_nats_agent_core.Strings.{Unicode}
use tip_olg_nats_agent_core.Errors.{Error, nil}
use tip_olg_nats_agent_core.Results.{Result, ok, err, first_error, first_error-nil}
use tip_olg_nats_agent_core.Subjects.{Builder}
use tip_olg_nats_agent_core.Publisher.{World}
use tip_olg_nats_agent_core.Kv.{StoredDesiredConfig, Json, Bucket, Provider}
use tip_olg_nats_agent_core.Envelopes.{ConfigureNotification, Codec}
use tip_olg_nats_agent_core.Envelopes.Validate.{
  no_bytes, decode_payload, decode_configure_notification, validate_configure_notification,
}
use tip_olg_nats_agent_core.Client.{ConfigureCommand, SubmissionAck, Publication}
use tip_olg_nats_agent_core.Client.Submit.{load, submit_configure}
use tip_olg_nats_agent_core.Client.Sent.{
  submitted_record, notification_for, submit_configure-IsNotified,
}
use tip_olg_nats_agent_core.Handlers.Dispatch.{Outcome, bind_configure_callback}
use tip_olg_nats_agent_core.Handlers.Called.{handled, callback-handled}
use tip_olg_nats_agent_core.Client.Checks.{string_op, timestamp_op}
use tip_olg_nats_agent_core.Client.Delivered.{
  IsCodec, IsCarried, IsRewritten, IsBucket, store-stored,
}

notification_op :
    (valid valid' : List ℕ → Bool) (op op' : String) (n : ConfigureNotification)
    → validate_configure_notification valid op n ≡ nil
    → validate_configure_notification valid' op' n ≡ nil
unfolding validate_configure_notification
notification_op valid valid' op op' n h =
    let (a, (b, (c, (d, (e, (f, (g, (i, _)))))))) = first_error-nil _ h in
    rw
      (
        string_op op op' "version" n.version a,
        string_op op op' "rpc_id" n.rpc_id b,
        string_op op op' "target" n.target c,
        string_op op op' "command_type" n.command_type d,
        string_op op op' "uuid" n.uuid e,
        string_op op op' "kv_bucket" n.kv_bucket f,
        string_op op op' "kv_key" n.kv_key g,
        timestamp_op op op' "timestamp" n.timestamp i,
      )
      (unfold first_error in refl)

decode_lem :
    (codec : Codec ConfigureNotification) (op : String) (n : ConfigureNotification) (bytes : List ℕ)
    → no_bytes bytes ≡ false
    → codec.unmarshal bytes ≡ ok n
    → validate_configure_notification codec.valid op n ≡ nil
    → decode_configure_notification codec op bytes ≡ ok n
unfolding decode_configure_notification decode_payload
decode_lem codec op n bytes full back valid = rw (full, back, valid) refl

module _ {S : Type 0} (u : Unicode) (j : Json) (bucket : Bucket S) (rt : Provider) (b : Builder)
    (w : World) (ctx_err : Error) (now : ℕ) (marshal : ConfigureNotification → Result (List ℕ))
    (codec : Codec ConfigureNotification) where
  called :
      (metrics : Bool) (handler : ConfigureNotification → Outcome) (subject : String)
      (bytes : List ℕ) (n : ConfigureNotification)
      → decode_configure_notification codec "decode_configure_notification" bytes ≡ ok n
      → handled (bind_configure_callback true metrics codec handler (some (subject, bytes)))
        ≡ n ∷ []
  unfolding bind_configure_callback
  called metrics handler subject bytes n read =
      callback-handled metrics _ _ handler true _ (some (subject, bytes))
      ∙ ap
          (λ (r : Result ConfigureNotification). elim r as (λ x. List ConfigureNotification) [
            | err e ↦ []
            | ok payload ↦ payload ∷ []
          ])
          read

  -- A message that SubmitConfigure published, whatever became of the publication else, is one with which
  -- a configure callback, while callbacks are enabled, calls its handler exactly once: with a
  -- notification of the command, with its version, RPC ID, target and UUID and the command type configure.
  -- And LoadDesiredConfig for that target, of the bucket as SubmitConfigure left it, gives the record that
  -- was submitted, its payload as encoding/json rewrote it, under the bucket and the key that the
  -- notification names. The conditions on the packages: encoding/json decodes what it made of this record
  -- to the record with the rewritten payload, and what it made of a notification to this; the rewritten
  -- payload is JSON, and is empty, where the payload is; and the bucket has for a key what was last put
  -- there.
  pub submit_configure-received :
      (s s' : S) (cmd : ConfigureCommand) (rewritten : List ℕ) (p : Publication)
      (answer : Result SubmissionAck) (metrics : Bool) (handler : ConfigureNotification → Outcome)
      → IsCarried j.marshal j.unmarshal
          (submitted_record cmd)
          (record (submitted_record cmd) { payload = rewritten })
      → IsRewritten j.valid cmd.payload rewritten
      → IsCodec marshal codec.unmarshal
      → IsBucket bucket rt.bucket_name
      → submit_configure u j bucket rt b w ctx_err now marshal s cmd ≡ (s', some p, answer)
      → (n : ConfigureNotification) × (stored : StoredDesiredConfig) × (handled
            (bind_configure_callback true metrics codec handler (some (p.subject, p.payload)))
          ≡ n ∷ [])
        × (n.version ≡ cmd.version)
        × (n.rpc_id ≡ cmd.rpc_id)
        × (n.command_type ≡ "configure")
        × (n.target ≡ cmd.target)
        × (n.uuid ≡ cmd.uuid)
        × (load u j bucket rt s' n.target ≡ ok stored)
        × (stored.rec ≡ record (submitted_record cmd) { payload = rewritten })
        × (stored.bucket ≡ n.kv_bucket)
        × (stored.key ≡ n.kv_key)
  submit_configure-received s s' cmd rewritten p answer metrics handler json same_json wire holds
        h =
      let is =
        submit_configure-IsNotified u j bucket rt b w ctx_err now marshal s s' cmd p answer h in
      let n = notification_for cmd is.stored now in
      let back =
        store-stored u j bucket rt s (submitted_record cmd) rewritten is.stored json same_json holds
          is.was_stored in
      let read =
        decode_lem codec "decode_configure_notification" n p.payload
          (wire.full n p.payload is.same_payload) (wire.back n p.payload is.same_payload)
          (notification_op j.valid codec.valid "submit_configure" "decode_configure_notification" n
            is.valid) in
      (
        n,
        record is.stored { rec = record (submitted_record cmd) { payload = rewritten } },
        called metrics handler p.subject p.payload n read,
        refl,
        refl,
        refl,
        refl,
        refl,
        ap (λ x. load u j bucket rt x cmd.target) is.same_bucket ∙ back,
        refl,
        refl,
        refl,
      )
