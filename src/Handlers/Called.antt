-- ===== src/Handlers/Called.antt =====
-- When the callbacks of agentcore/handlers_runtime.go call their handler.
use tip_olg_nats_agent_core.Common.{
  ℕ, String, ◌≡◌, refl, Bool, true, false, none, some, List, [], ◌∷◌, arith,
}
use tip_olg_nats_agent_core.Errors.{Error}
use tip_olg_nats_agent_core.Results.{Result, ok, err}
use tip_olg_nats_agent_core.Envelopes.{
  ConfigureNotification, ActionCommand, ResultEnvelope, StatusEnvelope, Codec,
}
use tip_olg_nats_agent_core.Envelopes.Validate.{
  decode_configure_notification, decode_action_command, decode_result_envelope,
  decode_status_envelope,
}
use tip_olg_nats_agent_core.Handlers.Dispatch.{
  Outcome, Done, handles, incs, observes, Msg, callback, decoded_message, bind_configure_callback,
  bind_action_callback, bind_result_callback, bind_status_callback, inc_subscribe, observe_latency,
}

-- The messages that the handler was called with.
abbrev pub handled : {A : Type 0} → List (Done A) → List A
handled [] = []
handled (handles payload ∷ more) = payload ∷ handled more
handled (incs kind subject result ∷ more) = handled more
handled (observes kind subject ∷ more) = handled more

-- What it is to be called with.
abbrev pub expected : {A : Type 0} → Bool → (List ℕ → Result A) → Msg → List A
expected false decode msg = []
expected true decode none = []
expected true decode (some (subject, bytes)) = elim (decode bytes) [
  | err e ↦ []
  | ok payload ↦ payload ∷ []
]

module _ {A : Type 0} (metrics : Bool) (kind : String) (call : Outcome → Error)
    (handler : A → Outcome) where
  counted :
      (enabled : Bool) (subject result : String)
      → handled (inc_subscribe enabled metrics {A = A} kind subject result) ≡ []
  counted enabled subject result = ground arith

  measured :
      (enabled : Bool) (subject : String)
      → handled (observe_latency enabled metrics {A = A} kind subject) ≡ []
  measured enabled subject = ground arith

  decoded-handled :
      (enabled : Bool) (subject : String) (r : Result A)
      → handled (decoded_message enabled metrics kind subject call handler r)
        ≡ elim r as (λ x. List A) [ err e ↦ [] | ok payload ↦ payload ∷ [] ]
  unfolding decoded_message
  decoded-handled enabled subject (err e) = counted enabled subject "decode_failed"
  decoded-handled enabled subject (ok payload) =
      ground (arith, counted enabled subject "handler_failed", measured enabled subject)

  pub callback-handled :
      (enabled : Bool) (decode : List ℕ → Result A) (msg : Msg)
      → handled (callback enabled metrics kind decode call handler msg)
        ≡ expected enabled decode msg
  unfolding callback
  callback-handled false decode none = refl
  callback-handled false decode (some (subject, bytes)) = refl
  callback-handled true decode none = counted true "" "decode_failed"
  callback-handled true decode (some (subject, bytes)) = decoded-handled true subject (decode bytes)

-- Each of the four callbacks calls its handler exactly once, with the message that its decoder makes of
-- the bytes, where callbacks are enabled, the message is not nil and the decoder accepts it; and else
-- never. Neither the metrics nor what the handler does, a panic included, changes that.
pub callbacks-handled :
    (enabled metrics : Bool) (msg : Msg) (c : Codec ConfigureNotification)
    (on_configure : ConfigureNotification → Outcome) (a : Codec ActionCommand)
    (on_action : ActionCommand → Outcome) (r : Codec ResultEnvelope)
    (on_result : ResultEnvelope → Outcome) (s : Codec StatusEnvelope)
    (on_status : StatusEnvelope → Outcome)
    → (handled (bind_configure_callback enabled metrics c on_configure msg)
        ≡ expected enabled (decode_configure_notification c "decode_configure_notification") msg)
      × (handled (bind_action_callback enabled metrics a on_action msg)
          ≡ expected enabled (decode_action_command a "decode_action_command") msg)
      × (handled (bind_result_callback enabled metrics r on_result msg)
          ≡ expected enabled (decode_result_envelope r "decode_result_envelope") msg)
      × (handled (bind_status_callback enabled metrics s on_status msg)
          ≡ expected enabled (decode_status_envelope s "decode_status_envelope") msg)
unfolding bind_configure_callback bind_action_callback bind_result_callback bind_status_callback
callbacks-handled enabled metrics msg c on_configure a on_action r on_result s on_status = (
  callback-handled metrics _ _ on_configure enabled _ msg,
  callback-handled metrics _ _ on_action enabled _ msg,
  callback-handled metrics _ _ on_result enabled _ msg,
  callback-handled metrics _ _ on_status enabled _ msg,
)
