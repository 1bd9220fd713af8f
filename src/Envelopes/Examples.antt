-- ===== src/Envelopes/Examples.antt =====
-- A configure result, an action command, and the codecs that decode one byte to them.
use tip_olg_nats_agent_core.Common.{true, false, [], ◌∷◌, ◌≡◌, ◌↔◌}
use tip_olg_nats_agent_core.Results.{ok}
use tip_olg_nats_agent_core.Envelopes.{ResultEnvelope, ActionCommand, Codec}
use tip_olg_nats_agent_core.Envelopes.Validate.{no_bytes, decode_result_envelope}
use tip_olg_nats_agent_core.Envelopes.Accepted.{IsResult, decode_result_envelope_iff}

abbrev applied : ResultEnvelope
applied = record {
  version = "1";
  rpc_id = "r";
  target = "ap1";
  command_type = "configure";
  uuid = "u";
  action = "";
  result = "success";
  message = "";
  error_code = "";
  payload = [];
  timestamp = 5;
}

abbrev reboot : ActionCommand
reboot = record {
  version = "1";
  rpc_id = "r";
  target = "ap1";
  command_type = "action";
  action = "reboot";
  payload = 123 ∷ 125 ∷ [];
  timestamp = 5;
}

abbrev results : Codec ResultEnvelope
results = record { valid = λ bytes. true; unmarshal = λ bytes. ok applied }

abbrev actions : Codec ActionCommand
actions = record { valid = λ bytes. true; unmarshal = λ bytes. ok reboot }

decode_result_envelope_iff_example :
    (decode_result_envelope results "dispatch_result" (1 ∷ []) ≡ ok applied) ↔ (
      (no_bytes (1 ∷ []) ≡ false)
      × (results.unmarshal (1 ∷ []) ≡ ok applied)
      × IsResult results.valid applied)
decode_result_envelope_iff_example =
    decode_result_envelope_iff results "dispatch_result" (1 ∷ []) applied
