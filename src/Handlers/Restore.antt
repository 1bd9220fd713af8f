-- ===== src/Handlers/Restore.antt =====
-- agentcore/handlers_runtime.go: restoreAllRegisteredSubscriptions, which makes every subscription anew
-- after a reconnect, with one flush for all.
use tip_olg_nats_agent_core.Common.{
  ℕ, suc, true, false, ◌&&◌, Option, none, some, is_some, List, [], ◌∷◌, ◌++◌, if◌then◌else◌,
}
use tip_olg_nats_agent_core.Errors.{
  Error, nil, is_nil, facade, fault, subscribe_failed, joined, to_public_error,
}
use tip_olg_nats_agent_core.Results.{Result, ok, err}
use tip_olg_nats_agent_core.Registry.{
  RegId, ActivationRecord, get_activation_record, restore_records, mark_active, mark_inactive,
}
use tip_olg_nats_agent_core.Handlers.{
  Nats, Subscriptions, unsubscribe, cleanup_subscription, sync_subscription_health,
}
use tip_olg_nats_agent_core.Handlers.Subscribe.{create_subscription_for_record}

-- tempSub, by the id of its record: the subscription that was made for it.
abbrev pub Created : Type 0
Created = List (RegId × ℕ)

module _ (w : Nats) where
  -- The old subscription of a record is given up.
  unfoldable pub drop_stale : ActivationRecord → Subscriptions → Subscriptions
  drop_stale rec c =
      if rec.active && is_some rec.active_sub then cleanup_subscription w rec.active_sub c else c

  -- The answer of createSubscriptionForRecord in the first loop: the state, the subscriptions made so
  -- far, and the errors so far.
  unfoldable pub restored :
      RegId → Created → Error → Subscriptions × Result ℕ → Subscriptions × Created × Error
  restored id made sum (c, err e) =
      (record c { registry = mark_inactive c.registry id e }, made, joined sum e)
  restored id made sum (c, ok s) = (c, made ++ (id, s) ∷ [], sum)

  -- One round of the first loop.
  unfoldable pub restore_one :
      ActivationRecord → Created → Error → Subscriptions → Subscriptions × Created × Error
  restore_one rec made sum c =
      restored rec.id made sum
        (create_subscription_for_record w rec "restore_subscriptions" false (drop_stale rec c))

  -- The first loop.
  unfoldable pub restore_each :
      List ActivationRecord → Created → Error → Subscriptions → Subscriptions × Created × Error
  restore_each [] made sum c = (c, made, sum)
  restore_each (rec ∷ recs) made sum c =
      let (c', made', sum') = restore_one rec made sum c in restore_each recs made' sum' c'

  -- What is done with the new subscriptions where they cannot be flushed.
  unfoldable pub give_up : Error → Created → Subscriptions → Subscriptions
  give_up e [] c = c
  give_up e ((id, s) ∷ made) c =
      let c' = (unsubscribe w s c).0 in
      give_up e made (record c' { registry = mark_inactive c'.registry id e })

  -- `_ = sub.Unsubscribe()` on a subscription that may be nil.
  unfoldable pub let_go : Option ℕ → Subscriptions → Subscriptions
  let_go none c = c
  let_go (some s) c = (unsubscribe w s c).0

  -- One round of the last loop.
  unfoldable pub take_over : RegId → ℕ → Subscriptions → Subscriptions
  take_over id s c =
      let (r, stale) = mark_active c.registry id (some s) in
      if is_some (get_activation_record c.registry id)
      then let_go stale (record c { registry = r })
      else let_go (some s) c

  -- The last loop.
  unfoldable pub take_over_each : Created → Subscriptions → Subscriptions
  take_over_each [] c = c
  take_over_each ((id, s) ∷ made) c = take_over_each made (take_over id s c)

  abbrev pub flush_error : Error → Error
  flush_error e =
      facade
        (fault subscribe_failed "restore_subscriptions_batch_flush"
          "batch subscribe readiness flush failed" true)
        e

  -- restoreAllRegisteredSubscriptions behind its first loop: session.Connection, the flush, and the
  -- last loop. Each of the two calls may fail.
  unfoldable pub restore_rest : Created → Error → Subscriptions → Subscriptions × Error
  restore_rest [] sum c = (sync_subscription_health c, sum)
  restore_rest (first ∷ more) sum c =
      let made = first ∷ more in
      let conn = w.answer c.asked in
      let c1 = record c { asked = suc c.asked } in
      let flush = w.answer c1.asked in
      let c2 = record c1 { asked = suc c1.asked } in
      if is_nil conn
      then if is_nil flush then (sync_subscription_health (take_over_each made c2), sum) else (
        sync_subscription_health (give_up (flush_error flush) made c2),
        joined sum (flush_error flush),
      )
      else (sync_subscription_health (give_up conn made c1), joined sum (to_public_error conn))

  -- restoreAllRegisteredSubscriptions at its list of records.
  unfoldable pub restore_from : List ActivationRecord → Subscriptions → Subscriptions × Error
  restore_from [] c = (c, nil)
  restore_from (rec ∷ recs) c =
      let (c', made, sum) = restore_each (rec ∷ recs) [] nil c in restore_rest made sum c'

  -- restoreAllRegisteredSubscriptions
  unfoldable pub restore_all_registered_subscriptions : Subscriptions → Subscriptions × Error
  restore_all_registered_subscriptions c = restore_from (restore_records c.registry) c
