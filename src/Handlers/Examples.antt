-- ===== src/Handlers/Examples.antt =====
-- The theorems on the handlers where a client registers one handler, reconnects, and closes.

use tip_olg_nats_agent_core.Common.{
  refl, insert, ℕ, ◌≡◌, none, some, List, [], ◌∷◌, true, false, lookup, nat_key, arith,
}
use tip_olg_nats_agent_core.Strings.{trim_space, Unicode}
use tip_olg_nats_agent_core.Errors.{is_nil, as_runtime, to_public_error, nil, external, other}
use tip_olg_nats_agent_core.Results.{ok}
use tip_olg_nats_agent_core.Subjects.{Builder, default_patterns}
use tip_olg_nats_agent_core.Session.{connected, fresh}
use tip_olg_nats_agent_core.Registry.{
  bump, activation_from_entry, get_activation_record, snapshot_from_entry, new_entry,
  registration_key, validate_add_spec, add, RegId, AddSpec, kind_result, new, counts,
}
use tip_olg_nats_agent_core.Envelopes.{
  ConfigureNotification, ActionCommand, ResultEnvelope, StatusEnvelope, Codec,
}
use tip_olg_nats_agent_core.Envelopes.Validate.{
  decode_configure_notification, decode_action_command, decode_result_envelope,
  decode_status_envelope,
}
use tip_olg_nats_agent_core.Handlers.{sync_subscription_health, Nats}
use tip_olg_nats_agent_core.Handlers.Register.{finished, added, register}
use tip_olg_nats_agent_core.Handlers.Undone.{register_undone}
use tip_olg_nats_agent_core.Handlers.Dispatch.{
  Msg, returns, panics, bind_configure_callback, bind_action_callback, bind_result_callback,
  bind_status_callback,
}
use tip_olg_nats_agent_core.Handlers.Called.{handled, expected, callbacks-handled}
use tip_olg_nats_agent_core.Handlers.Owned.{IsSound, registry_view, with_sub}
use tip_olg_nats_agent_core.Handlers.Activate.{
  created, activate_record_locked, activation_record_by_id, activate_found,
  activate_registered_subscription_by_id, activate_after_registration, deactivate_all_subscriptions,
}
use tip_olg_nats_agent_core.Handlers.Steps.{
  Operation, registers_configure, activates, restores, run, no_subscriptions, none-IsSound,
  run-IsSound, deactivate_all-quiet,
}
use tip_olg_nats_agent_core.Handlers.Subscribe.{subscribe_internal, create_subscription_for_record}

-- Tables with no letter and no digit beyond ASCII.
abbrev ascii : Unicode
ascii = record { letter = λ c. false; digit = λ c. false; lower = λ c. c }

abbrev builder : Builder
builder = record { patterns = default_patterns }

abbrev nats : Nats
nats = record { has_sink = true; answer = λ i. nil }

abbrev calls : List Operation
calls = registers_configure fresh "vyos" (some 7) [] ∷ activates ∷ restores ∷ []

run-IsSound_example :
    IsSound (run nats ascii builder no_subscriptions calls)
    × ((run nats ascii builder no_subscriptions calls).reported
        ≡ counts (run nats ascii builder no_subscriptions calls).registry)
run-IsSound_example = run-IsSound nats ascii builder calls (omega arith)

deactivate_all-quiet_example :
    let c = run nats ascii builder no_subscriptions calls in
    let c' = (deactivate_all_subscriptions nats "close" c).0 in
    ((s : ℕ) → lookup s c'.live ≡ none)
    × ((i : RegId) → registry_view c'.registry i ≡ with_sub none (registry_view c.registry i))
deactivate_all-quiet_example = deactivate_all-quiet nats ascii builder calls (omega arith)

-- NATS refuses every call.
abbrev refusing : Nats
refusing = record { has_sink = true; answer = λ i. external other "no" }

abbrev spec : AddSpec
spec = record {
  kind = kind_result;
  target = "vyos";
  action = "";
  subject = "result.vyos";
  queue_group = "";
  callback = some 3;
}

refused :
    is_nil (register refusing connected "register_result_handler" (ok spec) no_subscriptions).1
    ≡ false
unfolding register no_subscriptions new add validate_add_spec trim_space registration_key new_entry
    snapshot_from_entry get_activation_record activation_from_entry bump lookup insert added
    finished activate_after_registration activate_registered_subscription_by_id activate_found
    activation_record_by_id activate_record_locked created create_subscription_for_record
    subscribe_internal to_public_error as_runtime sync_subscription_health
refused = refl

register_undone_example :
    let c' = (register refusing connected "register_result_handler" (ok spec) no_subscriptions).0 in
    ((j : RegId) → lookup j c'.registry.entries ≡ lookup j no_subscriptions.registry.entries)
    × ((s : ℕ) → lookup s c'.live ≡ lookup s no_subscriptions.live)
unfolding register no_subscriptions new
register_undone_example =
    register_undone refusing connected "register_result_handler" (ok spec) no_subscriptions
      (omega arith) none-IsSound refused

-- A codec that reads every text as the same result.
abbrev some_result : ResultEnvelope
some_result = record {
  version = "1";
  rpc_id = "r";
  target = "vyos";
  command_type = "";
  uuid = "";
  action = "";
  result = "ok";
  message = "";
  error_code = "";
  payload = [];
  timestamp = 5;
}

abbrev same_codec : {A : Type 0} → A → Codec A
same_codec a = record { valid = λ bytes. true; unmarshal = λ bytes. ok a }

abbrev notification : ConfigureNotification
notification = record {
  version = "1";
  rpc_id = "r";
  target = "vyos";
  command_type = "configure";
  uuid = "u";
  kv_bucket = "cfg";
  kv_key = "desired.vyos";
  timestamp = 5;
}

abbrev action : ActionCommand
action = record {
  version = "1";
  rpc_id = "r";
  target = "vyos";
  command_type = "action";
  action = "trace";
  payload = 123 ∷ 125 ∷ [];
  timestamp = 5;
}

abbrev status : StatusEnvelope
status = record {
  version = "1";
  rpc_id = "r";
  target = "vyos";
  uuid = "";
  status = "up";
  stage = "";
  message = "";
  payload = [];
  timestamp = 5;
}

abbrev msg : Msg
msg = some ("result.vyos", 1 ∷ [])

callbacks-handled_example :
    (handled (bind_configure_callback true true (same_codec notification) (λ n. returns nil) msg)
      ≡ expected true
          (decode_configure_notification (same_codec notification) "decode_configure_notification")
          msg)
    × (handled (bind_action_callback true true (same_codec action) (λ n. returns nil) msg)
        ≡ expected true (decode_action_command (same_codec action) "decode_action_command") msg)
    × (handled (bind_result_callback true true (same_codec some_result) (λ n. panics "no") msg)
        ≡ expected true
            (decode_result_envelope (same_codec some_result) "decode_result_envelope")
            msg)
    × (handled (bind_status_callback true true (same_codec status) (λ n. returns nil) msg)
        ≡ expected true (decode_status_envelope (same_codec status) "decode_status_envelope") msg)
callbacks-handled_example =
    callbacks-handled true true msg (same_codec notification) (λ n. returns nil) (same_codec action)
      (λ n. returns nil) (same_codec some_result) (λ n. panics "no") (same_codec status)
      (λ n. returns nil)
