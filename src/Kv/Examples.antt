-- ===== src/Kv/Examples.antt =====
-- A bucket of one key, a codec of one record, and a watch that sees two values and a removal.
use tip_olg_nats_agent_core.Common.{ℕ, suc, String, true, false, [], ◌∷◌, ◌++◌, map, ◌≡◌, refl}
use tip_olg_nats_agent_core.Strings.{
  Unicode, is_letter, is_digit, trim_space, any_char, count_verbs, remove_verbs, sprintf,
}
use tip_olg_nats_agent_core.Errors.{nil, external, other}
use tip_olg_nats_agent_core.Results.{ok}
use tip_olg_nats_agent_core.Kv.{
  DesiredConfigRecord, StoredDesiredConfig, Json, Entry, Bucket, Provider, put, delete,
}
use tip_olg_nats_agent_core.Subjects.Validate.{token_char}
use tip_olg_nats_agent_core.Kv.Keys.{key_pattern_error, validate_token}
use tip_olg_nats_agent_core.Kv.Records.{validate_desired_config_record}
use tip_olg_nats_agent_core.Kv.Store.{store_desired_config, load_desired_config}
use tip_olg_nats_agent_core.Kv.RoundTrip.{store-load}
use tip_olg_nats_agent_core.Kv.Watch.{initial_done, update, consume_watch}
use tip_olg_nats_agent_core.Kv.Delivery.{handled, accepted, seen, consume_watch-handled}

abbrev ascii : Unicode
ascii = record { letter = λ c. false; digit = λ c. false; lower = λ c. c }

abbrev first : DesiredConfigRecord
first = record {
  version = "1";
  rpc_id = "r";
  target = "ap1";
  uuid = "u";
  payload = 123 ∷ 125 ∷ [];
  timestamp = 5;
}

-- It encodes each record as one byte and decodes each text as the first record.
abbrev codec : Json
codec = record {
  valid = λ bytes. true;
  marshal = λ rec. ok (1 ∷ []);
  unmarshal = λ bytes. ok first;
}

abbrev entry_at : ℕ → Entry
entry_at n = record {
  bucket = "cfg_desired";
  key = "desired.ap1";
  value = 1 ∷ [];
  revision = n;
  created = 7;
  operation = put;
}

-- The state is the number of writes.
abbrev one_key : Bucket ℕ
one_key = record { put = λ n key value. (suc n, ok (suc n)); get = λ n key. ok (entry_at n) }

abbrev provider : Provider
provider = record { key_value_err = nil; bucket_name = "cfg_desired"; key_pattern = "desired.%s" }

abbrev target : String
target = "ap1"

store-load_example :
    (stored : StoredDesiredConfig) × (store_desired_config ascii codec one_key provider 0 first
      ≡ (1, ok stored, []))
    × (load_desired_config ascii codec one_key provider 1 "ap1" ≡ ok stored)
    × (stored.rec ≡ first)
    × (stored.revision ≡ 1)
unfolding validate_desired_config_record key_pattern_error validate_token trim_space any_char
    count_verbs remove_verbs sprintf token_char is_letter is_digit
store-load_example =
    store-load ascii codec one_key provider first refl refl refl 0 1 (1 ∷ []) 1 (entry_at 1) refl
      refl refl refl refl
      (record { same_bucket = refl; same_key = refl; same_value = refl; same_revision = refl })

abbrev removal : Entry
removal = record (entry_at 3) { operation = delete; value = [] }

consume_watch-handled_example :
    (handled (
        consume_watch ascii codec "ap1"
          (λ stored. external other "busy")
          false
          []
          (map update (entry_at 1 ∷ [])))
      ≡ [])
    × (handled (
          consume_watch ascii codec "ap1"
            (λ stored. external other "busy")
            false
            []
            (map update (entry_at 1 ∷ [])
              ++ initial_done ∷ (update (entry_at 2) ∷ update removal ∷ [])))
        ≡ accepted ascii codec "ap1" (entry_at 1 ∷ [])
          ++ accepted ascii codec "ap1"
              (seen ascii codec "ap1" (update (entry_at 2) ∷ update removal ∷ [])))
consume_watch-handled_example =
    consume_watch-handled ascii codec "ap1" (λ stored. external other "busy") (entry_at 1 ∷ [])
      (update (entry_at 2) ∷ update removal ∷ [])
