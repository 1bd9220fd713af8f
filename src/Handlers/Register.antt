-- ===== src/Handlers/Register.antt =====
-- agentcore/handlers_runtime.go: registration of handlers. A handler is a pointer, and the callback
-- that is bound to it is known by the same number.
use tip_olg_nats_agent_core.Common.{
  ℕ, String, Option, none, some, is_some, not, List, [], ◌∷◌, if◌then◌else◌,
}
use tip_olg_nats_agent_core.Strings.{Unicode, contains_whitespace}
use tip_olg_nats_agent_core.Errors.{Error, nil, is_nil, facade_validation_error, to_public_error}
use tip_olg_nats_agent_core.Results.{Result, ok, err, public, ◌>>=◌}
use tip_olg_nats_agent_core.Subjects.{
  Builder, configure_subject, action_subject, result_subject, status_subject,
}
use tip_olg_nats_agent_core.Registry.{
  Registry, AddSpec, Snapshot, add, kind_configure, kind_action, kind_result, kind_status,
}
use tip_olg_nats_agent_core.Session.{ConnectionState}
use tip_olg_nats_agent_core.Handlers.{Nats, Subscriptions, sync_subscription_health}
use tip_olg_nats_agent_core.Handlers.Activate.{activate_after_registration, rollback_registration}

-- SubscriptionOption: nil, or a function on the queue group, the only field of SubscriptionOptions
abbrev pub SubscriptionOption : Type 0
SubscriptionOption = Option (String → String)

-- WithQueueGroup
abbrev pub with_queue_group : String → SubscriptionOption
with_queue_group queue_group = some (λ old. queue_group)

-- The loop of resolveSubscriptionOptions.
unfoldable pub apply_options : List SubscriptionOption → String → String
apply_options [] queue_group = queue_group
apply_options (none ∷ opts) queue_group = apply_options opts queue_group
apply_options (some opt ∷ opts) queue_group = apply_options opts (opt queue_group)

-- resolveSubscriptionOptions
unfoldable pub resolve_subscription_options : List SubscriptionOption → Result String
resolve_subscription_options opts =
    let queue_group = apply_options opts "" in
    if contains_whitespace queue_group
    then err
        (facade_validation_error "register_handler_options" "queue group cannot contain whitespace")
    else ok queue_group

module _ (w : Nats) (state : ConnectionState) where
  -- A handler that was added, of the answer of its activation: it is rolled back on an error.
  unfoldable pub finished : ℕ → Subscriptions × Error → Subscriptions × Error
  finished id (c, e) = if is_nil e then (c, nil) else (rollback_registration w id c, e)

  -- What the four methods do with the answer of Add.
  unfoldable pub added : String → Subscriptions → Registry × Result Snapshot → Subscriptions × Error
  added op c (r, err e) = (record c { registry = r }, to_public_error e)
  added op c (r, ok snapshot) = finished snapshot.id (
      activate_after_registration w state snapshot.id op
        (sync_subscription_health (record c { registry = r })))

  -- What the four methods do under the lock, once they have what is to be added.
  unfoldable pub register : String → Result AddSpec → Subscriptions → Subscriptions × Error
  register op (err e) c = (c, e)
  register op (ok spec) c = added op c (add c.registry spec)

-- What a method adds, of its handler, its subject and its options; the texts are those of the error
-- for a nil handler.
unfoldable pub spec_for :
    String
    → String
    → String
    → String
    → String
    → Option ℕ
    → Result String
    → List SubscriptionOption
    → Result AddSpec
spec_for op message kind target action handler subject opts =
    if not (is_some handler) then err (facade_validation_error op message) else do
      subject ← public subject
      queue_group ← resolve_subscription_options opts
      ok (record {
        kind = kind;
        target = target;
        action = action;
        subject = subject;
        queue_group = queue_group;
        callback = handler;
      })

module _ (w : Nats) (u : Unicode) (b : Builder) (state : ConnectionState) where
  -- registerConfigureHandler
  unfoldable pub register_configure_handler :
      String → Option ℕ → List SubscriptionOption → Subscriptions → Subscriptions × Error
  register_configure_handler target handler opts = register w state "register_configure_handler" (
      spec_for "register_configure_handler" "configure handler is required" kind_configure target ""
        handler (configure_subject u b target) opts)

  -- registerActionHandler
  unfoldable pub register_action_handler :
      String → String → Option ℕ → List SubscriptionOption → Subscriptions → Subscriptions × Error
  register_action_handler target action handler opts = register w state "register_action_handler" (
      spec_for "register_action_handler" "action handler is required" kind_action target action
        handler (action_subject u b target action) opts)

  -- registerResultHandler
  unfoldable pub register_result_handler :
      String → Option ℕ → List SubscriptionOption → Subscriptions → Subscriptions × Error
  register_result_handler target handler opts = register w state "register_result_handler" (
      spec_for "register_result_handler" "result handler is required" kind_result target "" handler
        (result_subject u b target) opts)

  -- registerStatusHandler
  unfoldable pub register_status_handler :
      String → Option ℕ → List SubscriptionOption → Subscriptions → Subscriptions × Error
  register_status_handler target handler opts = register w state "register_status_handler" (
      spec_for "register_status_handler" "status handler is required" kind_status target "" handler
        (status_subject u b target) opts)
