-- ===== src/Client/Sent.antt =====
-- SubmitConfigure (agentcore/client.go) stores before it notifies.
use tip_olg_nats_agent_core.Common.{
  ℕ, String, ◌≡◌, refl, sym, ap, subst, if_lem, ◌∙◌, true, false, Option, none, some, List, length,
  arith, if◌then◌else◌,
}
use tip_olg_nats_agent_core.Strings.{Unicode}
use tip_olg_nats_agent_core.Errors.{Error, nil, is_nil, to_public_error}
use tip_olg_nats_agent_core.Results.{Result, ok, err, public, check-eq-ok, check, ◌>>◌, is_nil→nil}
use tip_olg_nats_agent_core.Subjects.{Builder, configure_subject}
use tip_olg_nats_agent_core.Handlers.Made.{to_public_error-nil}
use tip_olg_nats_agent_core.Publisher.{World, publish}
use tip_olg_nats_agent_core.Publisher.Attempts.{accepted, publish-nil_accepted}
use tip_olg_nats_agent_core.Kv.{DesiredConfigRecord, StoredDesiredConfig, Json, Bucket, Provider}
use tip_olg_nats_agent_core.Envelopes.{ConfigureNotification}
use tip_olg_nats_agent_core.Client.{
  ConfigureCommand, SubmissionAck, Publication, validate_operation_context,
  validate_configure_command, marshaled, sent,
}
use tip_olg_nats_agent_core.Envelopes.Validate.{validate_configure_notification}
use tip_olg_nats_agent_core.Client.Delivered.{bind-ok, public-ok, marshaled-ok}
use tip_olg_nats_agent_core.Client.Publish.{Outgoing}
use tip_olg_nats_agent_core.Client.Submit.{
  record_of, ack_of, store, notification_message, notify, submit_stored, submit_configure,
}

-- What is to be stored for a command.
abbrev pub submitted_record : ConfigureCommand → DesiredConfigRecord
submitted_record cmd = record {
  version = cmd.version;
  rpc_id = cmd.rpc_id;
  target = cmd.target;
  uuid = cmd.uuid;
  payload = cmd.payload;
  timestamp = cmd.timestamp;
}

-- What is to be told of a command for which this was stored.
abbrev pub notification_for : ConfigureCommand → StoredDesiredConfig → ℕ → ConfigureNotification
notification_for cmd stored now = record {
  version = cmd.version;
  rpc_id = cmd.rpc_id;
  target = cmd.target;
  command_type = "configure";
  uuid = cmd.uuid;
  kv_bucket = stored.bucket;
  kv_key = stored.key;
  timestamp = now;
}

module _ {S : Type 0} (u : Unicode) (j : Json) (bucket : Bucket S) (rt : Provider) (b : Builder)
    (w : World) (ctx_err : Error) (now : ℕ)
    (marshal : ConfigureNotification → Result (List ℕ)) where
  abbrev message : ConfigureCommand → StoredDesiredConfig → Outgoing
  message = notification_message u j bucket rt b w ctx_err now marshal

  abbrev submit : S → ConfigureCommand → S × Option Publication × Result SubmissionAck
  submit = submit_configure u j bucket rt b w ctx_err now marshal

  abbrev submits :
      ConfigureCommand
      → S × Result StoredDesiredConfig × List Error
      → S × Option Publication × Result SubmissionAck
  submits = submit_stored u j bucket rt b w ctx_err now marshal

  -- The answer to a command for which this was stored and this message sent.
  abbrev pub Answered :
      ConfigureCommand → StoredDesiredConfig → Publication → Result SubmissionAck → Type 0
  Answered cmd stored p (err e) = is_nil e ≡ false
  Answered cmd stored p (ok ack) =
      (ack.accepted ≡ true)
      × (ack.rpc_id ≡ cmd.rpc_id)
      × (ack.target ≡ cmd.target)
      × (ack.subject ≡ p.subject)
      × (ack.accepted_at ≡ now)
      × (ack.kv_bucket ≡ stored.bucket)
      × (ack.kv_key ≡ stored.key)
      × (ack.kv_revision ≡ stored.revision)
      × (accepted w p.events ≡ 1)

  -- The message of this command, of what was stored for it.
  pub record IsNotified (cmd : ConfigureCommand) (z : S × Result StoredDesiredConfig × List Error)
      (s' : S) (p : Publication) (answer : Result SubmissionAck) : Type 0 where
    pub stored : StoredDesiredConfig
    pub was_stored : z.1 ≡ ok stored
    pub same_bucket : s' ≡ z.0
    pub same_subject : configure_subject u b cmd.target ≡ ok p.subject
    pub valid :
        validate_configure_notification j.valid "submit_configure" (notification_for cmd stored now)
        ≡ nil
    pub same_payload : marshal (notification_for cmd stored now) ≡ ok p.payload
    pub answered : Answered cmd stored p answer

  public-nil : (e : Error) → is_nil (to_public_error e) ≡ true → e ≡ nil
  public-nil e h = is_nil→nil e (ground (arith, to_public_error-nil e))

  message-ok :
      (cmd : ConfigureCommand) (stored : StoredDesiredConfig) (subject : String) (payload : List ℕ)
      → message cmd stored ≡ ok (subject, payload)
      → (configure_subject u b cmd.target ≡ ok subject)
        × (validate_configure_notification j.valid "submit_configure"
              (notification_for cmd stored now)
            ≡ nil)
        × (marshal (notification_for cmd stored now) ≡ ok payload)
  unfolding notification_message
  message-ok cmd stored subject payload h =
      let n = notification_for cmd stored now in
      let (to, hs, h1) =
        bind-ok (public (configure_subject u b cmd.target)) _ (subject, payload) h in
      let (v, h2) =
        check-eq-ok (validate_configure_notification j.valid "submit_configure" n) _ h1 in
      let (bytes, hm, h3) =
        bind-ok
          (marshaled "submit_configure_encode_notification" to
            "failed to encode configure notification" (marshal n))
          _ (subject, payload) h2 in
      let at : to ≡ subject = ground arith in
      let same : bytes ≡ payload = ground arith in
      (
        public-ok (configure_subject u b cmd.target) to hs ∙ ap (λ x. ok x) at,
        v,
        marshaled-ok _ _ _ (marshal n) bytes hm ∙ ap (λ x. ok x) same,
      )

  notify-IsNotified :
      (cmd : ConfigureCommand) (stored : StoredDesiredConfig) (s : S) (reports : List Error)
      (o : Outgoing) (p : Publication) (answer : Result SubmissionAck)
      → message cmd stored ≡ o
      → notify u j bucket rt b w ctx_err now marshal cmd stored o ≡ (some p, answer)
      → IsNotified cmd (s, ok stored, reports) s p answer
  unfolding notify sent
  notify-IsNotified cmd stored s reports (err e) p answer same h = absurd (ground arith)
  notify-IsNotified cmd stored s reports (ok (subject, payload)) p answer same h =
      let op : String = "submit_configure_publish_notification" in
      let q = publish w op subject (length payload) in
      let mine : Publication = record { subject = subject; payload = payload; events = q.0 } in
      let here : p ≡ mine = ground arith in
      let e : answer ≡ (
          if is_nil (to_public_error q.1)
          then ok (ack_of cmd stored now subject)
          else err (to_public_error q.1)) =
        ground arith in
      let (to, v, bytes) =
        message-ok cmd stored p.subject p.payload
          (same ∙ ap (λ (x : Publication). ok (x.subject, x.payload)) (sym here)) in
      record {
        stored = stored;
        was_stored = refl;
        same_bucket = refl;
        same_subject = to;
        valid = v;
        same_payload = bytes;
        answered =
            subst (λ (x : Publication). Answered cmd stored x answer) (sym here)
              (subst (Answered cmd stored mine) (sym e) (
                if_lem (Answered cmd stored mine) (is_nil (to_public_error q.1)) _ _
                  (λ k. (
                    refl,
                    refl,
                    refl,
                    refl,
                    refl,
                    refl,
                    refl,
                    refl,
                    publish-nil_accepted w op subject (length payload) (public-nil q.1 k),
                  ))
                  (λ k. k)));
      }

  submit_stored-IsNotified :
      (cmd : ConfigureCommand) (z : S × Result StoredDesiredConfig × List Error) (s' : S)
      (p : Publication) (answer : Result SubmissionAck)
      → submits cmd z ≡ (s', some p, answer)
      → IsNotified cmd z s' p answer
  unfolding submit_stored
  submit_stored-IsNotified cmd (s, err e, reports) s' p answer h = absurd (ground arith)
  submit_stored-IsNotified cmd (s, ok stored, reports) s' p answer h =
      let n =
        notify-IsNotified cmd stored s reports (message cmd stored) p answer refl
          (ap (λ z. (z.1, z.2)) h) in
      record {
        stored = n.stored;
        was_stored = n.was_stored;
        same_bucket = sym (ap (λ z. z.0) h);
        same_subject = n.same_subject;
        valid = n.valid;
        same_payload = n.same_payload;
        answered = n.answered;
      }

  -- Where SubmitConfigure gives a message to the publisher, the store took before, without an error, the
  -- record with the version, RPC ID, target, UUID, payload and time of the command; the bucket is as the
  -- store left it; the subject is that of configure commands for the target; and the payload is what
  -- encoding/json makes of the notification with the version, RPC ID, target and UUID of the command, the
  -- bucket and the key under which the record was stored, and the time of the call. The answer is then an
  -- acknowledgement, accepted, with the RPC ID and the target of the command, that subject, that time, and
  -- the bucket, the key and the revision that the store answered, and NATS accepted the message exactly
  -- once; or the answer is an error.
  pub submit_configure-IsNotified :
      (s s' : S) (cmd : ConfigureCommand) (p : Publication) (answer : Result SubmissionAck)
      → submit s cmd ≡ (s', some p, answer)
      → IsNotified cmd (store u j bucket rt s (submitted_record cmd)) s' p answer
  unfolding submit_configure
  submit_configure-IsNotified s s' cmd p answer h =
      go
        (check (validate_operation_context "submit_configure" w.has_ctx ctx_err)
          >> check (validate_configure_command j.valid "submit_configure" cmd))
        h
    where
      go :
          (o : Result (Unit {0}))
          → elim o as (λ x. S × Option Publication × Result SubmissionAck) [
            | err e ↦ (s, none, err e)
            | ok passed ↦ submits cmd (store u j bucket rt s (record_of cmd))
          ]
            ≡ (s', some p, answer)
          → IsNotified cmd (store u j bucket rt s (record_of cmd)) s' p answer
      go (err e) k = absurd (ground arith)
      go (ok passed) k =
          submit_stored-IsNotified cmd (store u j bucket rt s (record_of cmd)) s' p answer k
