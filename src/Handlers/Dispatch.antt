-- ===== src/Handlers/Dispatch.antt =====
-- agentcore/handlers_runtime.go: what NATS calls for a message, and the call of the handler in it. A
-- handler returns an error or panics.
use Prim.Native.String.{◌++◌}
use tip_olg_nats_agent_core.Common.{
  ℕ, String, Bool, false, not, Option, none, some, List, [], ◌∷◌, if◌then◌else◌,
}
use tip_olg_nats_agent_core.Errors.{Error, is_nil, facade, fault, subscribe_failed, external, other}
use tip_olg_nats_agent_core.Results.{Result, ok, err}
use tip_olg_nats_agent_core.Registry.{kind_configure, kind_action, kind_result, kind_status}
use tip_olg_nats_agent_core.Envelopes.{
  ConfigureNotification, ActionCommand, ResultEnvelope, StatusEnvelope, Codec,
}
use tip_olg_nats_agent_core.Envelopes.Validate.{
  decode_configure_notification, decode_action_command, decode_result_envelope,
  decode_status_envelope,
}

pub data Outcome : Type 0 where
  returns : Error → Outcome
  panics : String → Outcome

-- What a callback does: it calls its handler, or counts and measures, where there are metrics.
pub data Done (A : Type 0) : Type 0 where
  handles : A → Done A
  incs : String → String → String → Done A
  observes : String → String → Done A

-- A *nats.Msg: nil, or its subject and its data
abbrev pub Msg : Type 0
Msg = Option (String × List ℕ)

-- What a call of a handler comes to, its panic recovered.
unfoldable pub recovered : String → String → Outcome → Error
recovered op message (returns e) = e
recovered op message (panics text) =
    facade (fault subscribe_failed op message false) (external other ("panic: " ++ text))

-- callConfigureHandler, callActionHandler, callResultHandler, callStatusHandler
abbrev pub call_configure_handler : Outcome → Error
call_configure_handler = recovered "dispatch_configure_handler" "configure handler panicked"

abbrev pub call_action_handler : Outcome → Error
call_action_handler = recovered "dispatch_action_handler" "action handler panicked"

abbrev pub call_result_handler : Outcome → Error
call_result_handler = recovered "dispatch_result_handler" "result handler panicked"

abbrev pub call_status_handler : Outcome → Error
call_status_handler = recovered "dispatch_status_handler" "status handler panicked"

-- Whether callbacks are enabled, and whether there are metrics.
module _ (enabled metrics : Bool) where
  -- IncSubscribe, where there are metrics
  abbrev pub inc_subscribe : {A : Type 0} → String → String → String → List (Done A)
  inc_subscribe kind subject result = if metrics then incs kind subject result ∷ [] else []

  abbrev pub observe_latency : {A : Type 0} → String → String → List (Done A)
  observe_latency kind subject = if metrics then observes kind subject ∷ [] else []

  -- The four callbacks behind the decoding of their message.
  unfoldable pub decoded_message :
      {A : Type 0} → String → String → (Outcome → Error) → (A → Outcome) → Result A → List (Done A)
  decoded_message kind subject call handler (err e) = inc_subscribe kind subject "decode_failed"
  decoded_message kind subject call handler (ok payload) =
      handles payload
      ∷ (if is_nil (call (handler payload))
          then observe_latency kind subject
          else inc_subscribe kind subject "handler_failed")

  -- The four callbacks, of which each has its own decoder.
  unfoldable pub callback :
      {A : Type 0}
      → String
      → (List ℕ → Result A)
      → (Outcome → Error)
      → (A → Outcome)
      → Msg
      → List (Done A)
  callback kind decode call handler none =
      if not enabled then [] else inc_subscribe kind "" "decode_failed"
  callback kind decode call handler (some (subject, bytes)) =
      if not enabled then [] else decoded_message kind subject call handler (decode bytes)

  -- bindConfigureCallback
  unfoldable pub bind_configure_callback :
      Codec ConfigureNotification
      → (ConfigureNotification → Outcome)
      → Msg
      → List (Done ConfigureNotification)
  bind_configure_callback codec =
      callback kind_configure (decode_configure_notification codec "decode_configure_notification")
        call_configure_handler

  -- bindActionCallback
  unfoldable pub bind_action_callback :
      Codec ActionCommand → (ActionCommand → Outcome) → Msg → List (Done ActionCommand)
  bind_action_callback codec =
      callback kind_action (decode_action_command codec "decode_action_command") call_action_handler

  -- bindResultCallback
  unfoldable pub bind_result_callback :
      Codec ResultEnvelope → (ResultEnvelope → Outcome) → Msg → List (Done ResultEnvelope)
  bind_result_callback codec =
      callback kind_result (decode_result_envelope codec "decode_result_envelope")
        call_result_handler

  -- bindStatusCallback
  unfoldable pub bind_status_callback :
      Codec StatusEnvelope → (StatusEnvelope → Outcome) → Msg → List (Done StatusEnvelope)
  bind_status_callback codec =
      callback kind_status (decode_status_envelope codec "decode_status_envelope")
        call_status_handler
