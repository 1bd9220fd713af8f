-- ===== src/Kv.antt =====
-- internal/kv: the desired-config store over a JetStream bucket. Types of store.go and what the package
-- calls: encoding/json and the bucket are parameters. A byte is a number, a time.Time is a number of
-- nanoseconds whose zero is the zero time.
pub mod Keys
pub mod Records
pub mod Store
pub mod Watch
pub mod Start
pub mod RoundTrip
pub mod Delivery
mod Examples
use tip_olg_nats_agent_core.Common.{ℕ, String, Bool, List}
use tip_olg_nats_agent_core.Errors.{Error}
use tip_olg_nats_agent_core.Results.{Result}

abbrev pub Bytes : Type 0
Bytes = List ℕ

-- DesiredConfigRecord
pub record DesiredConfigRecord : Type 0 where
  pub version : String
  pub rpc_id : String
  pub target : String
  pub uuid : String
  pub payload : Bytes
  pub timestamp : ℕ

-- StoredDesiredConfig
pub record StoredDesiredConfig : Type 0 where
  pub rec : DesiredConfigRecord
  pub bucket : String
  pub key : String
  pub revision : ℕ
  pub created_at : ℕ
  pub deleted : Bool

-- json.Valid, json.Marshal and json.Unmarshal at a record
pub record Json : Type 0 where
  pub valid : Bytes → Bool
  pub marshal : DesiredConfigRecord → Result Bytes
  pub unmarshal : Bytes → Result DesiredConfigRecord

-- jetstream.KeyValueOp
pub data Operation : Type 0 where
  put delete purge : Operation

-- What the program reads of a jetstream.KeyValueEntry.
pub record Entry : Type 0 where
  pub bucket : String
  pub key : String
  pub value : Bytes
  pub revision : ℕ
  pub created : ℕ
  pub operation : Operation

-- Put and Get of jetstream.KeyValue, for a bucket whose state is an S.
pub record Bucket (S : Type 0) : Type 0 where
  pub put : S → String → Bytes → S × Result ℕ
  pub get : S → String → Result Entry

-- RuntimeProvider, without the timeouts: the error of KeyValue, nil where it hands out the bucket.
pub record Provider : Type 0 where
  pub key_value_err : Error
  pub bucket_name : String
  pub key_pattern : String
