-- ===== src/Kv/Start.antt =====
-- internal/kv/watch.go: the start and the stop of a watch. The n-th call of WatchDesiredConfig makes the
-- watch n, if it makes one. That the parent context cancels a watch, or its channel is closed, ends its
-- goroutine (Kv/Watch.antt), and its stop function is still to be called.
use tip_olg_nats_agent_core.Common.{
  ℕ, suc, String, Bool, not, Option, none, some, List, [], ◌∷◌, ◌++◌, lookup, insert, delete,
  nat_key, if◌then◌else◌,
}
use tip_olg_nats_agent_core.Strings.{Unicode}
use tip_olg_nats_agent_core.Errors.{Error, nil, is_nil, external, ctx_canceled, validation_error}
use tip_olg_nats_agent_core.Results.{Result, ok, err, check, ◌>>◌, ◌>>=◌}
use tip_olg_nats_agent_core.Kv.Keys.{build_desired_config_key}
use tip_olg_nats_agent_core.Kv.Records.{kv_read_error}

-- Which case of the select in waitForWatchReady came first; the context with its error.
pub data Woken : Type 0 where
  by_ready by_done : Woken
  by_context : Error → Woken

-- waitForWatchReady
unfoldable pub wait_for_watch_ready : Woken → Error
wait_for_watch_ready by_ready = nil
wait_for_watch_ready by_done = external ctx_canceled "context canceled"
wait_for_watch_ready (by_context e) = e

-- What one call meets: the errors of KeyValue and of Watch, what wakes waitForWatchReady, and whether
-- the goroutine ends before the timer, where the call gives the watch up and where it is stopped.
pub record Attempt : Type 0 where
  pub key_value_err : Error
  pub watch_err : Error
  pub woken : Woken
  pub gives_up : Bool
  pub ends : Bool

-- A watch: its target and its handler.
abbrev pub Watched : Type 0
Watched = String × ℕ

-- The watches that were made and whose stop function was not called, whether or not their goroutine has
-- ended by itself; how many calls were made; the watches whose goroutine had not ended when the time to
-- wait for it was over; and what the error sink got.
pub record Watchers : Type 0 where
  pub unstopped : List (ℕ × Watched)
  pub made : ℕ
  pub lingering : List ℕ
  pub sunk : List Error

-- The time to wait for a watch is over, and its goroutine has not ended.
abbrev pub lingers : ℕ → Watchers → Watchers
lingers n r = record r { lingering = n ∷ r.lingering }

module _ (u : Unicode) (key_pattern : String) (has_sink : Bool) (w : ℕ → Attempt) where
  -- reportAsync
  unfoldable pub report_async : Error → Watchers → Watchers
  report_async e r =
      if is_nil e then r else if has_sink then record r { sunk = r.sunk ++ e ∷ [] } else r

  -- WatchDesiredConfig from the wait on
  unfoldable pub awaited : ℕ → Watched → Error → Watchers → Watchers × Result ℕ
  awaited n x e r = if is_nil e then (record r { unstopped = insert n x r.unstopped }, ok n) else (
    if (w n).gives_up
        then r
        else report_async
            (kv_read_error "watch_desired_config_ready_timeout"
              "desired-config watch ready cleanup timed out" nil)
            (lingers n r),
    err (kv_read_error "watch_desired_config" "desired-config watch did not become ready" e),
  )

  -- WatchDesiredConfig from the key on
  unfoldable pub keyed : ℕ → Watched → Result String → Watchers → Watchers × Result ℕ
  keyed n x (err e) r = (r, err e)
  keyed n x (ok key) r =
      if not (is_nil (w n).watch_err)
      then (
        r,
        err (
            kv_read_error "watch_desired_config" "failed to start desired-config watch"
              (w n).watch_err),
      )
      else awaited n x (wait_for_watch_ready (w n).woken) r

  -- WatchDesiredConfig; a handler is known by a number
  unfoldable pub watch_desired_config : String → Option ℕ → Watchers → Watchers × Result ℕ
  watch_desired_config target none r =
      (r, err (validation_error "watch_desired_config" "watch handler is required"))
  watch_desired_config target (some handler) r =
      keyed r.made (target, handler)
        (build_desired_config_key u key_pattern target
          >>= (λ key. check (w r.made).key_value_err >> ok key))
        (record r { made = suc r.made })

  -- The function that WatchDesiredConfig returns; from the second call on it does nothing.
  unfoldable pub stop : ℕ → Watchers → Watchers × Error
  stop n r = elim (lookup n r.unstopped) [
    | none ↦ (r, nil)
    | some x ↦
        let r' = record r { unstopped = delete n r.unstopped } in
        let e =
          kv_read_error "watch_desired_config_stop_timeout"
            "desired-config watch stop timed out waiting for handler cleanup" nil in
        if (w n).ends then (r', nil) else (report_async e (lingers n r'), e)
  ]
