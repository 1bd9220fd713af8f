-- ===== src/Handlers/Activate.antt =====
-- agentcore/handlers_runtime.go: activation of registered handlers, and the end of all of them.
use tip_olg_nats_agent_core.Common.{
  ℕ, Bool, true, false, not, ◌&&◌, String, Option, none, some, is_some, List, [], ◌∷◌,
  if◌then◌else◌,
}
use tip_olg_nats_agent_core.Errors.{Error, nil, is_nil, facade, fault_at, shutdown, joined}
use tip_olg_nats_agent_core.Results.{Result, ok, err}
use tip_olg_nats_agent_core.Registry.{
  Registry, RegId, ActivationRecord, ActiveHandle, get_activation_record, restore_records,
  mark_active, mark_inactive, clear_active_handles, remove,
}
use tip_olg_nats_agent_core.Session.{
  ConnectionState, fresh, connecting, connected, reconnecting, draining, closed, degraded,
}
use tip_olg_nats_agent_core.Handlers.{
  Nats, Subscriptions, unsubscribe, cleanup_subscription, sync_subscription_health,
}
use tip_olg_nats_agent_core.Handlers.Subscribe.{create_subscription_for_record}

-- What activationRecordByIDLocked makes of the record.
abbrev pub to_activate : Bool → Option ActivationRecord → Option ActivationRecord
to_activate force none = none
to_activate force (some rec) = if rec.active && not force then none else some rec

-- activationRecordByIDLocked
unfoldable pub activation_record_by_id : RegId → Bool → Subscriptions → Option ActivationRecord
activation_record_by_id id force c = to_activate force (get_activation_record c.registry id)

-- The states in which a handler that is registered is not subscribed yet.
abbrev pub is_waiting : ConnectionState → Bool
is_waiting fresh = true
is_waiting connecting = true
is_waiting connected = false
is_waiting reconnecting = false
is_waiting draining = false
is_waiting closed = false
is_waiting degraded = false

-- The error of a handle that NATS does not let go.
abbrev pub unsubscribe_error : String → ActiveHandle → Error → Error
unsubscribe_error op handle e =
    if is_nil e
    then nil
    else facade (fault_at shutdown op handle.subject "failed to unsubscribe active handler" true) e

module _ (w : Nats) where
  -- The end of activateRecordLocked for a subscription that was made.
  unfoldable pub settle : RegId → ℕ → Subscriptions → Subscriptions
  settle id s c =
      let (r, stale) = mark_active c.registry id (some s) in
      if is_some (get_activation_record c.registry id)
      then cleanup_subscription w stale (record c { registry = r })
      else cleanup_subscription w (some s) c

  -- The answer of createSubscriptionForRecord in activateRecordLocked.
  unfoldable pub created : RegId → Subscriptions × Result ℕ → Subscriptions × Error
  created id (c, err e) = (record c { registry = mark_inactive c.registry id e }, e)
  created id (c, ok s) = (settle id s c, nil)

  -- activateRecordLocked
  unfoldable pub activate_record_locked :
      ActivationRecord → Bool → String → Bool → Subscriptions → Subscriptions × Error
  activate_record_locked rec force op flush c =
      if rec.active && not force
      then (c, nil)
      else let c' = if force then cleanup_subscription w rec.active_sub c else c in
        created rec.id (create_subscription_for_record w rec op flush c')

  -- activateRegisteredSubscriptionByIDLocked at the record that was found.
  unfoldable pub activate_found :
      Option ActivationRecord → Bool → String → Subscriptions → Subscriptions × Error
  activate_found none force op c = (c, nil)
  activate_found (some rec) force op c = activate_record_locked rec force op true c

  -- activateRegisteredSubscriptionByIDLocked
  unfoldable pub activate_registered_subscription_by_id :
      RegId → Bool → String → Subscriptions → Subscriptions × Error
  activate_registered_subscription_by_id id force op c =
      activate_found (activation_record_by_id id force c) force op c

  -- The loop of activateAllRegisteredSubscriptions.
  unfoldable pub activate_each :
      List ActivationRecord → String → Error → Subscriptions → Subscriptions × Error
  activate_each [] op sum c = (c, sum)
  activate_each (rec ∷ recs) op sum c =
      let (c', e) = activate_record_locked rec false op true c in
      activate_each recs op (joined sum e) c'

  -- activateAllRegisteredSubscriptions
  unfoldable pub activate_all_registered_subscriptions :
      String → Subscriptions → Subscriptions × Error
  activate_all_registered_subscriptions op c =
      let (c', e) = activate_each (restore_records c.registry) op nil c in
      (sync_subscription_health c', e)

  -- activateAfterRegistrationLocked, of the state that Health shows
  unfoldable pub activate_after_registration :
      ConnectionState → RegId → String → Subscriptions → Subscriptions × Error
  activate_after_registration state id op c =
      if is_waiting state
      then (c, nil)
      else let (c', e) = activate_registered_subscription_by_id id false op c in
        (if is_nil e then sync_subscription_health c' else c', e)

  -- rollbackRegistrationLocked at the answer of Remove.
  unfoldable pub removed : Registry × Option ActiveHandle → Subscriptions → Subscriptions
  removed (r, none) c = sync_subscription_health (record c { registry = r })
  removed (r, some handle) c =
      sync_subscription_health (cleanup_subscription w handle.sub (record c { registry = r }))

  -- rollbackRegistrationLocked
  unfoldable pub rollback_registration : RegId → Subscriptions → Subscriptions
  rollback_registration id c = removed (remove c.registry id) c

  -- The loop of deactivateAllSubscriptions.
  unfoldable pub unsubscribe_each :
      List ActiveHandle → String → Error → Subscriptions → Subscriptions × Error
  unsubscribe_each [] op sum c = (c, sum)
  unsubscribe_each (handle ∷ handles) op sum c = elim handle.sub [
    | none ↦ unsubscribe_each handles op sum c
    | some s ↦
        let (c', e) = unsubscribe w s c in
        unsubscribe_each handles op (joined sum (unsubscribe_error op handle e)) c'
  ]

  -- deactivateAllSubscriptions, which gives up subMu behind ClearActiveHandles; it is one operation here.
  unfoldable pub deactivate_all_subscriptions : String → Subscriptions → Subscriptions × Error
  deactivate_all_subscriptions op c =
      let (r, handles) = clear_active_handles c.registry in
      let (c', e) = unsubscribe_each handles op nil (record c { registry = r }) in
      (sync_subscription_health c', e)
