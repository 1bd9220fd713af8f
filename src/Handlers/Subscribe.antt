-- ===== src/Handlers/Subscribe.antt =====
-- agentcore/handlers_runtime.go: one subscription is made (subscribeInternal and its callers).
use tip_olg_nats_agent_core.Common.{
  suc, String, ◌==◌, Bool, true, false, not, is_some, insert, nat_key, ℕ, if◌then◌else◌,
}
use tip_olg_nats_agent_core.Strings.{trim_space}
use tip_olg_nats_agent_core.Errors.{
  Error, nil, is_nil, facade, fault_at, validation, subscribe_failed, facade_validation_error,
  to_public_error,
}
use tip_olg_nats_agent_core.Results.{Result, ok, err}
use tip_olg_nats_agent_core.Registry.{
  ActivationRecord, Callback, kind_configure, kind_action, kind_result, kind_status,
}
use tip_olg_nats_agent_core.Handlers.{Nats, Subscriptions, topic_of, unsubscribe}

-- The error of a subscription that NATS refuses.
abbrev pub subscribe_error : String → String → String → Error → Error
subscribe_error op subject message cause =
    facade (fault_at subscribe_failed op subject message true) cause

module _ (w : Nats) where
  -- nc.FlushTimeout, and what subscribeInternal does with its answer for the new subscription.
  unfoldable pub flushed : String → String → Bool → ℕ → Subscriptions → Subscriptions × Result ℕ
  flushed op subject false s c = (c, ok s)
  flushed op subject true s c =
      let e = w.answer c.asked in
      let c' = record c { asked = suc c.asked } in
      if is_nil e then (c', ok s) else (
        (unsubscribe w s c').0,
        err (subscribe_error op subject "subscribe readiness flush failed" e),
      )

  -- nc.QueueSubscribe or nc.Subscribe, and the flush.
  unfoldable pub subscribed :
      String → String → String → Callback → Bool → Subscriptions → Subscriptions × Result ℕ
  subscribed op subject queue_group callback flush c =
      let e = w.answer c.asked in
      let c' = record c { asked = suc c.asked } in
      if is_nil e
      then flushed op subject flush c.made (record c' {
        live = insert c.made (topic_of subject queue_group callback) c.live;
        made = suc c.made;
      })
      else (c', err (subscribe_error op subject "subscribe operation failed" e))

  -- subscribeInternal
  unfoldable pub subscribe_internal :
      String → String → String → Callback → Bool → Subscriptions → Subscriptions × Result ℕ
  subscribe_internal op subject queue_group callback flush c =
      if not (is_some callback)
      then (c, err (facade_validation_error op "subscription callback is required"))
      else if trim_space subject == ""
      then (c, err (facade_validation_error op "subscription subject is required"))
      else let e = w.answer c.asked in
        let c' = record c { asked = suc c.asked } in
        if is_nil e
        then subscribed op subject queue_group callback flush c'
        else (c', err (to_public_error e))

  -- createSubscriptionForRecord, with subscribeConfigure, subscribeAction, subscribeResult and
  -- subscribeStatus
  unfoldable pub create_subscription_for_record :
      ActivationRecord → String → Bool → Subscriptions → Subscriptions × Result ℕ
  create_subscription_for_record rec op flush c =
      if rec.kind == kind_configure
      then subscribe_internal "subscribe_configure" rec.subject rec.queue_group rec.callback flush c
      else if rec.kind == kind_action
      then subscribe_internal "subscribe_action" rec.subject rec.queue_group rec.callback flush c
      else if rec.kind == kind_result
      then subscribe_internal "subscribe_result" rec.subject rec.queue_group rec.callback flush c
      else if rec.kind == kind_status
      then subscribe_internal "subscribe_status" rec.subject rec.queue_group rec.callback flush c
      else (
        c,
        err (facade (fault_at validation op rec.subject "unsupported subscription kind" false) nil),
      )
