-- ===== src/Client/Exchanges.antt =====
-- The theorems on the messages of a client at a concrete command and a concrete result.
use tip_olg_nats_agent_core.Common.{
  ℕ, ◌==◌, ◌&&◌, ◌≡◌, ap, sym, refl, Bool, true, false, some, List, [], ◌∷◌, if◌then◌else◌,
}
use tip_olg_nats_agent_core.Strings.{
  trim_space, any_char, is_letter, count_verbs, is_digit, remove_verbs, sprintf,
}
use tip_olg_nats_agent_core.Errors.{as_runtime, to_public_error, nil, external, other}
use tip_olg_nats_agent_core.Results.{first_error, Result, ok, err}
use tip_olg_nats_agent_core.Subjects.{action_subject, result_subject}
use tip_olg_nats_agent_core.Publisher.{
  one_round, publish, publish_loop, publish_once, rounds, publishes, flushes,
}
use tip_olg_nats_agent_core.Envelopes.{ActionCommand, ResultEnvelope, Codec}
use tip_olg_nats_agent_core.Envelopes.Validate.{
  no_bytes, validate_action_command, validate_result_envelope, optional_string, command_error,
  optional_json, required_string, required_timestamp, required_json,
}
use tip_olg_nats_agent_core.Client.{validate_operation_context, sent, SubmissionAck, Publication}
use tip_olg_nats_agent_core.Handlers.Dispatch.{returns, bind_action_callback, bind_result_callback}
use tip_olg_nats_agent_core.Handlers.Called.{handled}
use tip_olg_nats_agent_core.Client.Delivered.{IsCarried}
use tip_olg_nats_agent_core.Subjects.Validate.{
  validate_action, token_char, validate_target, validate_token,
}
use tip_olg_nats_agent_core.Client.Publish.{
  submit_action, action_message, acknowledged, send, publish_result, result_message,
}
use tip_olg_nats_agent_core.Client.Published.{submit_action-handled, publish_result-handled}
use tip_olg_nats_agent_core.Client.Examples.{compact, ascii, builder, world}

abbrev trace : ActionCommand
trace = record {
  version = "1";
  rpc_id = "r";
  target = "ap1";
  command_type = "action";
  action = "trace";
  payload = 123 ∷ 32 ∷ 125 ∷ [];
  timestamp = 5;
}

-- A command with the texts of `trace` is its time and its compacted payload.
abbrev of_trace : ActionCommand → Bool
of_trace cmd =
    (cmd.version == "1")
    && ((cmd.rpc_id == "r")
        && ((cmd.target == "ap1") && ((cmd.command_type == "action") && (cmd.action == "trace"))))

abbrev write_action : ActionCommand → Result (List ℕ)
write_action cmd =
    if of_trace cmd then ok (cmd.timestamp ∷ compact cmd.payload) else err (external other "no")

abbrev read_action : List ℕ → Result ActionCommand
read_action [] = err (external other "no")
read_action (t ∷ more) = ok (record trace { timestamp = t; payload = more })

trace-IsCarried :
    IsCarried write_action read_action trace (record trace { payload = 123 ∷ 125 ∷ [] })
trace-IsCarried = record {
  full = λ bytes h. ap (λ r. elim r as (λ x. Bool) [ ok b ↦ no_bytes b | err e ↦ false ]) (sym h);
  back = λ bytes h.
      ap (λ r. elim r as (λ x. Result ActionCommand) [ ok b ↦ read_action b | err e ↦ err e ])
        (sym h);
}

abbrev action_codec : Codec ActionCommand
action_codec = record { valid = λ bytes. true; unmarshal = read_action }

abbrev action_publication : Publication
action_publication = record {
  subject = "cmd.action.ap1.trace";
  payload = 5 ∷ 123 ∷ 125 ∷ [];
  events = publishes 0 ∷ flushes 0 ∷ [];
}

abbrev action_answer : Result SubmissionAck
action_answer = ok (record {
  accepted = true;
  rpc_id = "r";
  target = "ap1";
  subject = "cmd.action.ap1.trace";
  accepted_at = 9;
  kv_bucket = "";
  kv_key = "";
  kv_revision = 0;
})

action_submitted :
    submit_action ascii builder world nil 9 write_action action_codec.valid trace
    ≡ (some action_publication, action_answer)
unfolding submit_action action_message acknowledged send validate_action_command action_subject
    validate_action validate_operation_context first_error required_string trim_space
    required_timestamp required_json any_char token_char is_letter sent one_round publish
    publish_loop publish_once rounds count_verbs is_digit remove_verbs sprintf as_runtime
    to_public_error validate_target validate_token
action_submitted = refl

submit_action-handled_example :
    handled (
      bind_action_callback true true action_codec
        (λ cmd. returns nil)
        (some (action_publication.subject, action_publication.payload)))
    ≡ record trace { payload = 123 ∷ 125 ∷ [] } ∷ []
submit_action-handled_example =
    submit_action-handled ascii builder world nil 9 write_action action_codec trace (123 ∷ 125 ∷ [])
      action_publication action_answer true (λ cmd. returns nil) trace-IsCarried
      (record { same_valid = refl; same_empty = refl }) action_submitted

abbrev done : ResultEnvelope
done = record {
  version = "1";
  rpc_id = "r";
  target = "ap1";
  command_type = "";
  uuid = "";
  action = "";
  result = "ok";
  message = "";
  error_code = "";
  payload = 123 ∷ 32 ∷ 125 ∷ [];
  timestamp = 5;
}

abbrev of_done : ResultEnvelope → Bool
of_done msg =
    (msg.version == "1")
    && ((msg.rpc_id == "r")
        && ((msg.target == "ap1")
            && ((msg.command_type == "")
                && ((msg.uuid == "")
                    && ((msg.action == "")
                        && ((msg.result == "ok")
                            && ((msg.message == "") && (msg.error_code == ""))))))))

abbrev write_result : ResultEnvelope → Result (List ℕ)
write_result msg =
    if of_done msg then ok (msg.timestamp ∷ compact msg.payload) else err (external other "no")

abbrev read_result : List ℕ → Result ResultEnvelope
read_result [] = err (external other "no")
read_result (t ∷ more) = ok (record done { timestamp = t; payload = more })

done-IsCarried : IsCarried write_result read_result done (record done { payload = 123 ∷ 125 ∷ [] })
done-IsCarried = record {
  full = λ bytes h. ap (λ r. elim r as (λ x. Bool) [ ok b ↦ no_bytes b | err e ↦ false ]) (sym h);
  back = λ bytes h.
      ap (λ r. elim r as (λ x. Result ResultEnvelope) [ ok b ↦ read_result b | err e ↦ err e ])
        (sym h);
}

abbrev result_codec : Codec ResultEnvelope
result_codec = record { valid = λ bytes. true; unmarshal = read_result }

abbrev result_publication : Publication
result_publication = record {
  subject = "result.ap1";
  payload = 5 ∷ 123 ∷ 125 ∷ [];
  events = publishes 0 ∷ flushes 0 ∷ [];
}

result_published :
    publish_result ascii builder world nil 9 write_result result_codec.valid done
    ≡ (some result_publication, nil)
unfolding publish_result result_message send validate_result_envelope optional_string command_error
    optional_json result_subject validate_operation_context first_error required_string trim_space
    required_timestamp any_char token_char is_letter sent one_round publish publish_loop
    publish_once rounds count_verbs is_digit remove_verbs sprintf as_runtime to_public_error
    validate_target validate_token
result_published = refl

publish_result-handled_example :
    handled (
      bind_result_callback true true result_codec
        (λ msg. returns nil)
        (some (result_publication.subject, result_publication.payload)))
    ≡ record done { payload = 123 ∷ 125 ∷ [] } ∷ []
publish_result-handled_example =
    publish_result-handled ascii builder world nil 9 write_result result_codec done (123 ∷ 125 ∷ [])
      result_publication nil true (λ msg. returns nil) done-IsCarried
      (record { same_valid = refl; same_empty = refl }) result_published
