-- ===== src/Publisher.antt =====
-- internal/transport/publisher.go. What the publisher calls (the context, the connection provider,
-- the NATS publish and flush, the timer) is a record of its answers, for the i-th attempt where the
-- loop asks again. The observable calls are a list of events, in their order.
pub mod Attempts
pub mod Delivery
mod Examples
use tip_olg_nats_agent_core.Common.{
  ℕ, zero, suc, ◌+◌, String, ◌==◌, Bool, true, false, not, Option, none, some, List, [], ◌∷◌, ◌++◌,
  ℤ, pos, negsuc, nat_eq, if◌then◌else◌,
}
use tip_olg_nats_agent_core.Strings.{trim_space}
use tip_olg_nats_agent_core.Errors.{
  Error, nil, runtime, Fault, fault, fault_at, is_nil, as_runtime, validation, disconnected,
  publish_failed,
}

-- The context of a flush: publishContext's choice.
pub data FlushContext : Type 0 where
  background same : FlushContext
  with_timeout : ℤ → FlushContext

-- publishContext, of whether there is a context and whether it has a deadline
unfoldable pub publish_context : Bool → Bool → ℤ → FlushContext
publish_context false has_deadline timeout = background
publish_context true true timeout = same
publish_context true false (pos zero) = same
publish_context true false (negsuc n) = same
publish_context true false (pos (suc n)) = with_timeout (pos (suc n))

pub record World : Type 0 where
  -- p.attempts() and p.publishTimeout(); whether p.logger and p.metrics are set
  pub attempts : ℤ
  pub publish_timeout : ℤ
  pub logger : Bool
  pub metrics : Bool
  -- whether ctx is not nil and has a deadline; ctx.Err() at the entry and before each attempt
  pub has_ctx : Bool
  pub has_deadline : Bool
  pub entry_err : Error
  pub ctx_err : ℕ → Error
  -- the error of p.conn.Connection(), of publishFn, and of flushFn under its context
  pub connection : ℕ → Error
  pub publish : ℕ → Error
  pub flush : ℕ → FlushContext → Error
  -- nil if the timer fires before the context is done, else ctx.Err()
  pub waited : ℕ → Error

pub data Event : Type 0 where
  publishes flushes : ℕ → Event
  counts : String → Event
  observes : Event
  warns : ℕ → ℕ → Event

-- NewPublisher's defaults for the hooks that are nil.
unfoldable pub default_attempts : Option ℤ → ℤ
default_attempts none = pos 1
default_attempts (some n) = n

-- if attempts <= 0 { attempts = 1 }
unfoldable pub rounds : ℤ → ℕ
rounds (pos zero) = 1
rounds (pos (suc n)) = suc n
rounds (negsuc n) = 1

-- errors.As(err, &runErr) && !runErr.Retryable
abbrev pub is_final : Option (Fault × Error) → Bool
is_final none = false
is_final (some (f, cause)) = not f.retryable

-- Events in front of those of the rest of the loop.
abbrev pub before : List Event → List Event × Error → List Event × Error
before events (more, e) = (events ++ more, e)

module _ (w : World) where
  -- incPublish
  abbrev pub inc_publish : String → List Event
  inc_publish result = if w.metrics then counts result ∷ [] else []

  -- observePublishLatency
  abbrev pub observe : List Event
  observe = if w.metrics then observes ∷ [] else []

  abbrev pub warn : ℕ → List Event
  warn i = if w.logger then warns (i + 1) (rounds w.attempts) ∷ [] else []

  abbrev pub flush_err : ℕ → Error
  flush_err i = w.flush i (publish_context w.has_ctx w.has_deadline w.publish_timeout)

  module _ (op subject : String) where
    -- publishOnce
    unfoldable pub publish_once : ℕ → List Event × Error
    publish_once i =
        if not (is_nil (w.connection i))
        then (
          [],
          runtime (fault_at disconnected op subject "connection not resolved" true)
              (w.connection i),
        )
        else if not (is_nil (w.publish i))
        then (
          publishes i ∷ inc_publish "failure",
          runtime (fault_at publish_failed op subject "publish failed" true) (w.publish i),
        )
        else if not (is_nil (flush_err i))
        then (
          publishes i ∷ flushes i ∷ inc_publish "failure",
          runtime (fault_at publish_failed op subject "flush failed" false) (flush_err i),
        )
        else (publishes i ∷ flushes i ∷ [], nil)

    abbrev pub unusable : Error → Error
    unusable e = runtime (fault_at validation op subject "context is not usable" false) e

    abbrev pub aborted : Error → Error
    aborted e =
        runtime
          (fault_at publish_failed op subject "publish aborted due to context cancellation" false) e

    -- One round of the loop of Publish: the attempt's number, whether it is the last, and what the
    -- rounds behind it give. Between two attempts the loop waits.
    unfoldable pub one_round : ℕ → Bool → List Event × Error → List Event × Error
    one_round i last rest =
        let (events, e) = publish_once i in
        if not (is_nil (w.ctx_err i))
        then ([], unusable (w.ctx_err i))
        else if is_nil e
        then (events ++ (inc_publish "success" ++ observe), nil)
        else if is_final (as_runtime e)
        then (events, e)
        else if last
        then before (events ++ warn i) rest
        else if not (is_nil (w.waited i))
        then (events ++ warn i, aborted (w.waited i))
        else before (events ++ warn i) rest

    -- The loop: the rounds left, the attempt's number and lastErr.
    unfoldable pub publish_loop : ℕ → ℕ → Error → List Event × Error
    publish_loop zero i last_err = ([], last_err)
    publish_loop (suc left) i last_err =
        let rest = publish_loop left (i + 1) (publish_once i).1 in one_round i (nat_eq left 0) rest

  -- Publish, of a payload of the given length
  unfoldable pub publish : String → String → ℕ → List Event × Error
  publish given_op subject payload_len =
      let op = if given_op == "" then "publish_payload" else given_op in
      if not w.has_ctx
      then ([], runtime (fault_at validation op subject "context is required" false) nil)
      else if not (is_nil w.entry_err)
      then ([], runtime (fault_at validation op subject "context is not usable" false) w.entry_err)
      else if trim_space subject == ""
      then ([], runtime (fault validation op "publish subject is required" false) nil)
      else if nat_eq payload_len 0
      then ([], runtime (fault_at validation op subject "payload is required" false) nil)
      else publish_loop op subject (rounds w.attempts) 0 nil
