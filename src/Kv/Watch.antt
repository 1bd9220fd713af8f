-- ===== src/Kv/Watch.antt =====
-- internal/kv/watch.go: consumeWatch, the goroutine that reads a watch and calls the handler. What the
-- select of its loop sees one after another is a list; where the list ends, the loop waits.
use tip_olg_nats_agent_core.Common.{
  String, Bool, true, false, ◌||◌, List, [], ◌∷◌, ◌++◌, if◌then◌else◌,
}
use tip_olg_nats_agent_core.Strings.{Unicode}
use tip_olg_nats_agent_core.Errors.{Error, nil, is_nil}
use tip_olg_nats_agent_core.Results.{Result, ok, err, ◌>>=◌}
use tip_olg_nats_agent_core.Kv.{
  DesiredConfigRecord, StoredDesiredConfig, Json, Entry, Operation, put, delete, purge,
}
use tip_olg_nats_agent_core.Kv.Records.{is_empty, decode_desired_config_record, kv_read_error}
use tip_olg_nats_agent_core.Kv.Store.{created_or}

-- What the loop sees: its context is done; the channel of updates is closed, with the error of the
-- context at that time; the nil entry that ends the present values; an entry.
pub data Signal : Type 0 where
  ctx_done : Signal
  updates_closed : Error → Signal
  initial_done : Signal
  update : Entry → Signal

-- What it does that others see: it marks the watch as ready, calls the handler, or reports an error.
pub data Act : Type 0 where
  marks_ready : Act
  handles : StoredDesiredConfig → Act
  reports : Error → Act

abbrev pub is_removal : Operation → Bool
is_removal put = false
is_removal delete = true
is_removal purge = true

-- The entry is one of a removed key.
unfoldable pub is_deleted : Entry → Bool
is_deleted e = is_removal e.operation || is_empty e.value

-- The record of a removed key: only the target is filled in.
abbrev pub blank : String → DesiredConfigRecord
blank target = record {
  version = "";
  rpc_id = "";
  target = target;
  uuid = "";
  payload = [];
  timestamp = 0;
}

module _ (u : Unicode) (j : Json) (target : String) where
  -- The record that consumeWatch makes of an entry.
  unfoldable pub entry_record : Entry → Result DesiredConfigRecord
  entry_record e =
      if is_deleted e then ok (blank target) else decode_desired_config_record u j e.value

  unfoldable pub stored_of : Entry → Result StoredDesiredConfig
  stored_of e = entry_record e >>= (λ rec. ok (record {
    rec = rec;
    bucket = e.bucket;
    key = e.key;
    revision = e.revision;
    created_at = created_or e.created rec.timestamp;
    deleted = is_deleted e;
  }))

  module _ (handler : StoredDesiredConfig → Error) where
    -- One call of the handler, and the report of its error.
    unfoldable pub call_handler : StoredDesiredConfig → List Act
    call_handler stored =
        let e = handler stored in
        handles stored
        ∷ (if is_nil e
            then []
            else reports (
                kv_read_error "watch_desired_config_handler"
                  "desired-config watch handler returned error" e)
              ∷ [])

    -- The loop over the buffer.
    unfoldable pub flush : List StoredDesiredConfig → List Act
    flush [] = []
    flush (stored ∷ rest) = call_handler stored ++ flush rest

    -- The loop of consumeWatch, with its deferred mark.
    unfoldable pub consume_watch : Bool → List StoredDesiredConfig → List Signal → List Act
    consume_watch is_ready buffer [] = []
    consume_watch is_ready buffer (ctx_done ∷ rest) = marks_ready ∷ []
    consume_watch is_ready buffer (updates_closed e ∷ rest) =
        if is_nil e
        then reports (
            kv_read_error "watch_desired_config_terminated"
              "desired-config watcher terminated unexpectedly" nil)
          ∷ marks_ready
          ∷ []
        else marks_ready ∷ []
    consume_watch is_ready buffer (initial_done ∷ rest) =
        marks_ready ∷ (flush buffer ++ consume_watch true [] rest)
    consume_watch is_ready buffer (update e ∷ rest) = elim (stored_of e) [
      | err x ↦
          reports (
            kv_read_error "watch_desired_config_decode"
              "failed to decode desired-config watch entry" x)
          ∷ consume_watch is_ready buffer rest
      | ok stored ↦
          let called = call_handler stored ++ consume_watch is_ready buffer rest in
          let kept = consume_watch is_ready (buffer ++ stored ∷ []) rest in
          if is_ready then called else kept
    ]
