-- ===== src/Envelopes.antt =====
-- The messages of agentcore/contracts.go that cross the wire. A json.RawMessage is a list of bytes, a
-- time.Time a number of nanoseconds whose zero is the zero time.
pub mod Validate
pub mod Accepted
mod Examples
use tip_olg_nats_agent_core.Common.{ℕ, String, Bool, List}
use tip_olg_nats_agent_core.Results.{Result}

-- ConfigureNotification
pub record ConfigureNotification : Type 0 where
  pub version : String
  pub rpc_id : String
  pub target : String
  pub command_type : String
  pub uuid : String
  pub kv_bucket : String
  pub kv_key : String
  pub timestamp : ℕ

-- ActionCommand
pub record ActionCommand : Type 0 where
  pub version : String
  pub rpc_id : String
  pub target : String
  pub command_type : String
  pub action : String
  pub payload : List ℕ
  pub timestamp : ℕ

-- ResultEnvelope
pub record ResultEnvelope : Type 0 where
  pub version : String
  pub rpc_id : String
  pub target : String
  pub command_type : String
  pub uuid : String
  pub action : String
  pub result : String
  pub message : String
  pub error_code : String
  pub payload : List ℕ
  pub timestamp : ℕ

-- StatusEnvelope
pub record StatusEnvelope : Type 0 where
  pub version : String
  pub rpc_id : String
  pub target : String
  pub uuid : String
  pub status : String
  pub stage : String
  pub message : String
  pub payload : List ℕ
  pub timestamp : ℕ

-- What is used of encoding/json: json.Valid, and json.Unmarshal at a type of messages.
pub record Codec (A : Type 0) : Type 0 where
  pub valid : List ℕ → Bool
  pub unmarshal : List ℕ → Result A
