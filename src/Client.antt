-- ===== src/Client.antt =====
-- agentcore/client.go: what a client sends. SubmitConfigure stores a record and then notifies its target;
-- SubmitAction, PublishResult and PublishStatus publish one message. The messages are of contracts.go.
-- The functions that only tests replace (storeDesiredConfigFn and its like) are left out, and with them
-- the branch of SubmitConfigure for a store that returns neither a result nor an error.
pub mod Publish
pub mod Submit
pub mod Delivered
pub mod Sent
pub mod Checks
pub mod Received
pub mod Published
pub mod Watches
pub mod Rewatch
pub mod Balance
pub mod Stopped
pub mod Waited
pub mod Tidy
pub mod Copied
pub mod Rewatched
pub mod Reached
pub mod Kept
pub mod Leaked
pub mod Lifecycle
pub mod Config
pub mod New
pub mod Created
pub mod Closed
pub mod Enabled
pub mod Raced
mod Examples
mod Exchanges
mod Runs
mod Lives
mod Setups
use tip_olg_nats_agent_core.Common.{
  ℕ, String, Bool, true, false, not, List, [], ◌∷◌, length, if◌then◌else◌,
}
use tip_olg_nats_agent_core.Errors.{
  Error, nil, is_nil, facade, fault, fault_at, validation, encode_failed, facade_validation_error,
  to_public_error,
}
use tip_olg_nats_agent_core.Results.{Result, ok, err, first_error}
use tip_olg_nats_agent_core.Publisher.{World, Event, publish}
use tip_olg_nats_agent_core.Kv.{DesiredConfigRecord, StoredDesiredConfig}
use tip_olg_nats_agent_core.Envelopes.Validate.{required_string, required_timestamp, required_json}

-- ConfigureCommand
pub record ConfigureCommand : Type 0 where
  pub version : String
  pub rpc_id : String
  pub target : String
  pub uuid : String
  pub payload : List ℕ
  pub timestamp : ℕ

-- SubmissionAck
pub record SubmissionAck : Type 0 where
  pub accepted : Bool
  pub rpc_id : String
  pub target : String
  pub subject : String
  pub accepted_at : ℕ
  pub kv_bucket : String
  pub kv_key : String
  pub kv_revision : ℕ

-- A message that was given to the publisher, and what the publisher did with it.
pub record Publication : Type 0 where
  pub subject : String
  pub payload : List ℕ
  pub events : List Event

-- validateOperationContext, of whether there is a context and its error
unfoldable pub validate_operation_context : String → Bool → Error → Error
validate_operation_context op has_ctx ctx_err =
    if not has_ctx
    then facade_validation_error op "context is required"
    else if is_nil ctx_err
    then nil
    else facade (fault validation op "context is not usable" false) ctx_err

-- validateConfigureCommand
unfoldable pub validate_configure_command : (List ℕ → Bool) → String → ConfigureCommand → Error
validate_configure_command valid op cmd = first_error (
    required_string op "version" cmd.version
    ∷ required_string op "rpc_id" cmd.rpc_id
    ∷ required_string op "target" cmd.target
    ∷ required_string op "uuid" cmd.uuid
    ∷ required_timestamp op "timestamp" cmd.timestamp
    ∷ required_json valid op "payload" cmd.payload
    ∷ [])

-- toKVRecord; the facade's records have the fields of those of internal/kv
unfoldable pub to_kv_record : DesiredConfigRecord → DesiredConfigRecord
to_kv_record rec = record {
  version = rec.version;
  rpc_id = rec.rpc_id;
  target = rec.target;
  uuid = rec.uuid;
  payload = rec.payload;
  timestamp = rec.timestamp;
}

-- fromKVStored, which does not copy Deleted
unfoldable pub from_kv_stored : StoredDesiredConfig → StoredDesiredConfig
from_kv_stored stored = record {
  rec = to_kv_record stored.rec;
  bucket = stored.bucket;
  key = stored.key;
  revision = stored.revision;
  created_at = stored.created_at;
  deleted = false;
}

-- The error of json.Marshal, wrapped.
abbrev pub marshaled : String → String → String → Result (List ℕ) → Result (List ℕ)
marshaled op subject message (ok payload) = ok payload
marshaled op subject message (err e) =
    err (facade (fault_at encode_failed op subject message false) e)

-- What a call leaves: its message, if it came to one, and its answer.
unfoldable pub sent : World → String → String → List ℕ → Publication × Error
sent w op subject payload =
    let (events, e) = publish w op subject (length payload) in
    (record { subject = subject; payload = payload; events = events }, to_public_error e)
