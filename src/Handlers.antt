-- ===== src/Handlers.antt =====
-- agentcore/handlers_runtime.go: the subscriptions of a client's handlers. What subMu guards is one
-- state. The answers of NATS (subscribe, flush, unsubscribe), and of session.Connection before them,
-- are given one after another; a subscription is a pointer to a new object, so the n-th that is made
-- has the number n. Logs and metrics are left out.
pub mod Subscribe
pub mod Activate
pub mod Restore
pub mod Register
pub mod Views
pub mod Owned
pub mod Made
pub mod Todo
pub mod Activated
pub mod Ended
pub mod Registered
pub mod Undone
pub mod Dispatch
pub mod Called
pub mod Half
pub mod Dropped
pub mod Round
pub mod Restored
pub mod Counter
pub mod Reported
pub mod Steps
mod Examples
use tip_olg_nats_agent_core.Common.{
  ℕ, suc, String, ◌==◌, Bool, Option, none, some, List, ◌∷◌, [], ◌++◌, delete, nat_key,
  if◌then◌else◌,
}
use tip_olg_nats_agent_core.Strings.{trim_space}
use tip_olg_nats_agent_core.Errors.{Error, is_nil}
use tip_olg_nats_agent_core.Registry.{Registry, Entry, ActivationRecord, Sub, Callback, counts}

-- What a subscription listens to: its subject, the queue group if it has one, and its callback.
pub record Topic : Type 0 where
  pub subject : String
  pub queue : Option String
  pub callback : Callback

-- Whether options.errorSink is set, and the answer of each call of NATS, nil where it succeeds.
pub record Nats : Type 0 where
  pub has_sink : Bool
  pub answer : ℕ → Error

-- The part of Client that subMu guards, with the subscriptions that were made and on which Unsubscribe
-- was not called (by their number), how many were made, how many calls of NATS were answered, what the
-- error sink got, and the counts that the session's health shows.
pub record Subscriptions : Type 0 where
  pub registry : Registry
  pub live : List (ℕ × Topic)
  pub made : ℕ
  pub asked : ℕ
  pub sunk : List Error
  pub reported : ℕ × ℕ

-- The queue group that a subscription is made with.
unfoldable pub queue_of : String → Option String
queue_of queue_group = if trim_space queue_group == "" then none else some queue_group

unfoldable pub topic_of : String → String → Callback → Topic
topic_of subject queue_group callback = record {
  subject = subject;
  queue = queue_of queue_group;
  callback = callback;
}

-- syncSubscriptionHealth
unfoldable pub sync_subscription_health : Subscriptions → Subscriptions
sync_subscription_health c = record c { reported = counts c.registry }

module _ (w : Nats) where
  -- options.errorSink(err), where there is one
  unfoldable pub sink : Error → Subscriptions → Subscriptions
  sink e c = if w.has_sink then record c { sunk = c.sunk ++ e ∷ [] } else c

  -- sub.Unsubscribe()
  unfoldable pub unsubscribe : ℕ → Subscriptions → Subscriptions × Error
  unsubscribe s c = (record c { live = delete s c.live; asked = suc c.asked }, w.answer c.asked)

  -- cleanupSubscription
  unfoldable pub cleanup_subscription : Sub → Subscriptions → Subscriptions
  cleanup_subscription none c = c
  cleanup_subscription (some s) c =
      let (c', e) = unsubscribe s c in if is_nil e then c' else sink e c'
