-- ===== src/Client/Rewatch.antt =====
-- agentcore/client.go: restoreAllActiveWatches, which makes every watch anew after a reconnect.
use tip_olg_nats_agent_core.Common.{
  ℕ, suc, String, Bool, Option, none, some, List, [], ◌∷◌, ◌++◌, lookup, delete, modify, nat_key,
  if◌then◌else◌,
}
use tip_olg_nats_agent_core.Strings.{Unicode}
use tip_olg_nats_agent_core.Errors.{Error, nil, is_nil, joined, to_public_error}
use tip_olg_nats_agent_core.Results.{Result, ok, err}
use tip_olg_nats_agent_core.Kv.Start.{Attempt}
use tip_olg_nats_agent_core.Client.Watches.{ActiveWatch, Watches, set_stop, call_stop, build_watch}

-- watchCopy, whose stop function is not read
abbrev pub WatchCopy : Type 0
WatchCopy = ℕ × ActiveWatch

-- restoreResult, with the watch that it is of
abbrev pub RestoreResult : Type 0
RestoreResult = WatchCopy × Result ℕ

-- The n-th answer of the Err of a context is `ctx_err n`. A context that was done gives its error again.
module _ (u : Unicode) (key_pattern : String) (has_sink : Bool) (w : ℕ → Attempt)
    (ctx_err : ℕ → Error) where
  unfoldable pub ask : Watches → Watches × Error
  ask c = (record c { asked = suc c.asked }, ctx_err c.asked)

  -- A watch is stopped, whatever its stop function answers, and left out of the map.
  unfoldable pub discard : ℕ → ActiveWatch → Watches → Watches
  discard id i c =
      let c' = (call_stop u key_pattern has_sink w i.stop_fn c).0 in
      record c' { active = delete id c'.active }

  -- One round of the first loop, at an active watch with a context.
  unfoldable pub copy_one : ℕ → ActiveWatch → Watches → Watches × List WatchCopy
  copy_one id i c =
      let (c', e) = ask c in if is_nil e then (c', (id, i) ∷ []) else (discard id i c', [])

  -- The first loop; a nil context ends the program.
  unfoldable pub copy_each : List (ℕ × ActiveWatch) → Watches → Option (Watches × List WatchCopy)
  copy_each [] c = some (c, [])
  copy_each ((id, i) ∷ rest) c =
      let (c1, here) = copy_one id i c in
      let later = copy_each rest c1 in
      if i.has_ctx
      then elim later [ none ↦ none | some (c2, copies) ↦ some (c2, here ++ copies) ]
      else none

  -- One round of the second loop.
  unfoldable pub rebuild_one : WatchCopy → Watches → Watches × Result ℕ
  rebuild_one (id, i) c =
      let (c', e) = ask c in
      if is_nil e then build_watch u key_pattern has_sink w i.target i.handler c' else (c', err e)

  -- The second loop.
  unfoldable pub rebuild_each : List WatchCopy → Watches → Watches × List RestoreResult
  rebuild_each [] c = (c, [])
  rebuild_each (copy ∷ rest) c =
      let (c1, answer) = rebuild_one copy c in
      let (c2, results) = rebuild_each rest c1 in (c2, (copy, answer) ∷ results)

  -- `c.options.errorSink(res.err)`, which converts the error
  unfoldable pub sink_error : Error → Watches → Watches
  sink_error e c = if has_sink then record c { sunk = c.sunk ++ to_public_error e ∷ [] } else c

  -- One round of the last loop, at a watch that is still in the map or is not.
  unfoldable pub take_over_watch : ℕ → Option ActiveWatch → Result ℕ → Watches → Watches
  take_over_watch id none (err e) c = c
  take_over_watch id none (ok n) c = (call_stop u key_pattern has_sink w (some n) c).0
  take_over_watch id (some i) (err e) c =
      let (c', gone) = ask (sink_error e c) in if is_nil gone then c' else discard id i c'
  take_over_watch id (some i) (ok n) c =
      let c' = (call_stop u key_pattern has_sink w i.stop_fn c).0 in
      record c' { active = modify id (set_stop n) c'.active }

  unfoldable pub failure : Option ActiveWatch → Result ℕ → Error
  failure (some i) (err e) = e
  failure _ _ = nil

  -- The last loop.
  unfoldable pub take_over_watches : List RestoreResult → Error → Watches → Watches × Error
  take_over_watches [] sum c = (c, sum)
  take_over_watches (((id, copy), answer) ∷ rest) sum c =
      let i = lookup id c.active in
      take_over_watches rest (joined sum (failure i answer)) (take_over_watch id i answer c)

  -- The second and the last loop.
  unfoldable pub restore_copies : Watches × List WatchCopy → Watches × Error
  restore_copies (c, copies) =
      let (c', results) = rebuild_each copies c in take_over_watches results nil c'

  -- restoreAllActiveWatches: no answer is that it panics
  unfoldable pub restore_all_active_watches : Watches → Option (Watches × Error)
  restore_all_active_watches c = elim (copy_each c.active c) [
    | none ↦ none
    | some done ↦ some (restore_copies done)
  ]
