-- ===== src/Client/Examples.antt =====
-- The theorems on the client at a concrete command, with codecs of one command and a bucket of one key.
use tip_olg_nats_agent_core.Common.{
  ℕ, suc, String, ◌==◌, ◌&&◌, ◌≡◌, ap, sym, nat_eq, refl, Bool, true, false, some, List, [], ◌∷◌,
  pos, arith, eq_iff, if◌then◌else◌,
}
use tip_olg_nats_agent_core.Strings.{
  trim_space, any_char, is_letter, count_verbs, is_digit, remove_verbs, sprintf, Unicode,
}
use tip_olg_nats_agent_core.Errors.{as_runtime, to_public_error, nil, external, other}
use tip_olg_nats_agent_core.Results.{first_error, Result, ok, err}
use tip_olg_nats_agent_core.Subjects.{configure_subject, Builder, default_patterns}
use tip_olg_nats_agent_core.Publisher.{
  one_round, publish, publish_loop, publish_once, rounds, World, publishes, flushes,
}
use tip_olg_nats_agent_core.Envelopes.{ConfigureNotification, Codec}
use tip_olg_nats_agent_core.Envelopes.Validate.{
  no_bytes, required_string, required_timestamp, required_json, validate_configure_notification,
}
use tip_olg_nats_agent_core.Kv.{
  StoredDesiredConfig, Bytes, DesiredConfigRecord, Json, Entry, Bucket, Provider, put,
}
use tip_olg_nats_agent_core.Client.{
  validate_operation_context, validate_configure_command, to_kv_record, from_kv_stored, sent,
  ConfigureCommand, SubmissionAck, Publication,
}
use tip_olg_nats_agent_core.Client.Submit.{
  load, submit_stored, store, notification_message, notify, submit_configure,
}
use tip_olg_nats_agent_core.Client.Sent.{submitted_record, IsNotified, submit_configure-IsNotified}
use tip_olg_nats_agent_core.Client.Received.{submit_configure-received}
use tip_olg_nats_agent_core.Handlers.Dispatch.{Outcome, panics, bind_configure_callback}
use tip_olg_nats_agent_core.Handlers.Called.{handled}
use tip_olg_nats_agent_core.Client.Delivered.{IsCodec, IsCarried, IsRewritten, IsBucket}
use tip_olg_nats_agent_core.Kv.Store.{store_desired_config, prepare, after_put, post_read}
use tip_olg_nats_agent_core.Kv.Records.{
  validate_desired_config_record, encode_desired_config_record,
}
use tip_olg_nats_agent_core.Kv.Keys.{
  validate_token as validate_kv_token, build_desired_config_key, key_pattern_error,
}
use tip_olg_nats_agent_core.Subjects.Validate.{token_char, validate_target, validate_token}

abbrev pub ascii : Unicode
ascii = record { letter = λ c. false; digit = λ c. false; lower = λ c. c }

abbrev command : ConfigureCommand
command = record {
  version = "1";
  rpc_id = "r";
  target = "ap1";
  uuid = "u";
  payload = 123 ∷ 32 ∷ 125 ∷ [];
  timestamp = 5;
}

-- A codec that leaves out the spaces of a payload.
abbrev pub compact : List ℕ → List ℕ
compact [] = []
compact (b ∷ rest) = if nat_eq b 32 then compact rest else b ∷ compact rest

-- A record of the command's texts is its time and its compacted payload.
abbrev of_command : DesiredConfigRecord → Bool
of_command rec =
    (rec.version == "1") && ((rec.rpc_id == "r") && ((rec.target == "ap1") && (rec.uuid == "u")))

abbrev json : Json
json = record {
  valid = λ bytes. true;
  marshal = λ rec.
      if of_command rec
      then ok (rec.timestamp ∷ compact rec.payload)
      else err (external other "no");
  unmarshal = decode;
}
  where
    decode : List ℕ → Result DesiredConfigRecord
    decode [] = err (external other "no")
    decode (t ∷ payload) = ok (record {
      version = "1";
      rpc_id = "r";
      target = "ap1";
      uuid = "u";
      payload = payload;
      timestamp = t;
    })

command-IsCarried :
    IsCarried json.marshal json.unmarshal
      (submitted_record command)
      (record (submitted_record command) { payload = 123 ∷ 125 ∷ [] })
command-IsCarried = record {
  full = λ bytes h. ap (λ r. elim r as (λ x. Bool) [ ok b ↦ no_bytes b | err e ↦ false ]) (sym h);
  back = λ bytes h.
      ap
        (λ r. elim r as (λ x. Result DesiredConfigRecord) [
          | ok b ↦ json.unmarshal b
          | err e ↦ err e
        ])
        (sym h);
}

command-IsRewritten : IsRewritten json.valid command.payload (123 ∷ 125 ∷ [])
command-IsRewritten = record { same_valid = refl; same_empty = refl }

abbrev of_notification : ConfigureNotification → Bool
of_notification n =
    (n.version == "1")
    && ((n.rpc_id == "r")
        && ((n.target == "ap1")
            && ((n.command_type == "configure")
                && ((n.uuid == "u")
                    && ((n.kv_bucket == "cfg_desired") && (n.kv_key == "desired.ap1"))))))

abbrev wire : ConfigureNotification → Result (List ℕ)
wire n = if of_notification n then ok (n.timestamp ∷ []) else err (external other "no")

abbrev read : List ℕ → Result ConfigureNotification
read [] = err (external other "no")
read (t ∷ more) = ok (record {
  version = "1";
  rpc_id = "r";
  target = "ap1";
  command_type = "configure";
  uuid = "u";
  kv_bucket = "cfg_desired";
  kv_key = "desired.ap1";
  timestamp = t;
})

abbrev codec : Codec ConfigureNotification
codec = record { valid = λ bytes. true; unmarshal = read }

wire-back : (n : ConfigureNotification) (bytes : List ℕ) → wire n ≡ ok bytes → read bytes ≡ ok n
wire-back n [] h = absurd (ground arith)
wire-back n (t ∷ more) h = ground (
  arith,
  eq_iff n.version "1",
  eq_iff n.rpc_id "r",
  eq_iff n.target "ap1",
  eq_iff n.command_type "configure",
  eq_iff n.uuid "u",
  eq_iff n.kv_bucket "cfg_desired",
  eq_iff n.kv_key "desired.ap1",
)

wire-IsCodec : IsCodec wire read
wire-IsCodec = record { full = λ n bytes h. ground arith; back = wire-back }

-- The state is the last write, its key and its revision.
abbrev entry_of : String × Bytes × ℕ → Entry
entry_of (key, payload, revision) = record {
  bucket = "cfg_desired";
  key = key;
  value = payload;
  revision = revision;
  created = 7;
  operation = put;
}

abbrev one_entry : Bucket (String × Bytes × ℕ)
one_entry = record {
  put = λ s key payload. ((key, payload, suc s.2), ok (suc s.2));
  get = λ s key. ok (entry_of s);
}

one_entry-IsBucket : IsBucket one_entry "cfg_desired"
one_entry-IsBucket = record {
  written = λ s s' key payload revision h. (
    entry_of s',
    refl,
    record {
      same_bucket = refl;
      same_key = ground arith;
      same_value = ground arith;
      same_revision = ground arith;
    },
  );
}

abbrev provider : Provider
provider = record { key_value_err = nil; bucket_name = "cfg_desired"; key_pattern = "desired.%s" }

abbrev pub builder : Builder
builder = record { patterns = default_patterns }

abbrev pub world : World
world = record {
  attempts = pos 1;
  publish_timeout = pos 5;
  logger = false;
  metrics = false;
  has_ctx = true;
  has_deadline = false;
  entry_err = nil;
  ctx_err = λ i. nil;
  connection = λ i. nil;
  publish = λ i. nil;
  flush = λ i c. nil;
  waited = λ i. nil;
}

abbrev publication : Publication
publication = record {
  subject = "cmd.configure.ap1";
  payload = 9 ∷ [];
  events = publishes 0 ∷ flushes 0 ∷ [];
}

abbrev before : String × Bytes × ℕ
before = ("", [], 0)

abbrev behind : String × Bytes × ℕ
behind = ("desired.ap1", 5 ∷ 123 ∷ 125 ∷ [], 1)

abbrev answer : Result SubmissionAck
answer = ok (record {
  accepted = true;
  rpc_id = "r";
  target = "ap1";
  subject = "cmd.configure.ap1";
  accepted_at = 9;
  kv_bucket = "cfg_desired";
  kv_key = "desired.ap1";
  kv_revision = 1;
})

submitted :
    submit_configure ascii json one_entry provider builder world nil 9 wire before command
    ≡ (behind, some publication, answer)
unfolding submit_configure validate_operation_context validate_configure_command first_error
    required_string trim_space required_timestamp required_json submit_stored store
    store_desired_config prepare validate_desired_config_record to_kv_record validate_kv_token
    any_char token_char is_letter notification_message notify from_kv_stored sent
    validate_configure_notification build_desired_config_key key_pattern_error
    encode_desired_config_record after_put post_read one_round publish publish_loop publish_once
    rounds count_verbs is_digit remove_verbs sprintf as_runtime to_public_error validate_target
    configure_subject validate_token
submitted = refl

submit_configure-IsNotified_example :
    IsNotified ascii json one_entry provider builder world nil 9 wire command
      (store ascii json one_entry provider before (submitted_record command))
      behind
      publication
      answer
submit_configure-IsNotified_example =
    submit_configure-IsNotified ascii json one_entry provider builder world nil 9 wire before behind
      command publication answer submitted

-- A handler that panics.
abbrev panicking : ConfigureNotification → Outcome
panicking n = panics "no"

submit_configure-received_example :
    (n : ConfigureNotification) × (stored : StoredDesiredConfig) × (handled (
        bind_configure_callback true true codec panicking
          (some (publication.subject, publication.payload)))
      ≡ n ∷ [])
    × (n.version ≡ command.version)
    × (n.rpc_id ≡ command.rpc_id)
    × (n.command_type ≡ "configure")
    × (n.target ≡ command.target)
    × (n.uuid ≡ command.uuid)
    × (load ascii json one_entry provider behind n.target ≡ ok stored)
    × (stored.rec ≡ record (submitted_record command) { payload = 123 ∷ 125 ∷ [] })
    × (stored.bucket ≡ n.kv_bucket)
    × (stored.key ≡ n.kv_key)
submit_configure-received_example =
    submit_configure-received ascii json one_entry provider builder world nil 9 wire codec before
      behind command (123 ∷ 125 ∷ []) publication answer true panicking command-IsCarried
      command-IsRewritten wire-IsCodec one_entry-IsBucket submitted
