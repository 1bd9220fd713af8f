-- ===== src/Publisher/Delivery.antt =====
-- When Publish succeeds, and what it returns when it does not.
use tip_olg_nats_agent_core.Common.{
  ℕ, zero, suc, ◌+◌, ◌≤◌, ◌<◌, String, ◌==◌, ◌≡◌, ◌≢◌, ◌∙◌, ◌⊎◌, inl, inr, Bool, true, false, List,
  arith, nat_eq, if◌then◌else◌, Bool-cases,
}
use tip_olg_nats_agent_core.Strings.{trim_space}
use tip_olg_nats_agent_core.Errors.{
  Error, nil, fault_at, runtime, is_nil, as_runtime, publish_failed,
}
use tip_olg_nats_agent_core.Publisher.{
  World, Event, flush_err, publish_once, one_round, publish_loop, publish, rounds,
}

module _ (w : World) where
  -- The attempt fails before the message is with NATS.
  abbrev pub Fails : ℕ → Type 0
  Fails i =
      (is_nil (w.connection i) ≡ false) ⊎ ((w.connection i ≡ nil) × (is_nil (w.publish i) ≡ false))

  -- The attempt reaches the flush.
  abbrev pub Reaches : ℕ → Type 0
  Reaches i = (w.connection i ≡ nil) × (w.publish i ≡ nil)

  -- The context outlives the call.
  pub record IsPatient : Type 0 where
    pub present : w.has_ctx ≡ true
    pub entry : w.entry_err ≡ nil
    pub checks : (i : ℕ) → w.ctx_err i ≡ nil
    pub waits : (i : ℕ) → w.waited i ≡ nil

  module _ (patient : IsPatient) (op subject : String) where
    flushed : Error → Error
    flushed e =
        if is_nil e
        then nil
        else runtime (fault_at publish_failed op subject "flush failed" false) e

    round-Reaches :
        (i : ℕ) (last : Bool) (rest : List Event × Error)
        → Reaches i
        → (one_round w op subject i last rest).1 ≡ flushed (flush_err w i)
    unfolding one_round publish_once as_runtime flushed
    round-Reaches i last rest h = ground (arith, patient.checks i)

    round-Fails :
        (i : ℕ) (last : Bool) (rest : List Event × Error)
        → Fails i
        → (one_round w op subject i last rest).1 ≡ rest.1
    unfolding one_round publish_once as_runtime
    round-Fails i last rest h = ground (arith, patient.checks i, patient.waits i)

    loop-Reaches :
        (left i m : ℕ) (last : Error)
        → i ≤ m
        → m < i + left
        → ((j : ℕ) → j < m → Fails j)
        → Reaches m
        → (publish_loop w op subject left i last).1 ≡ flushed (flush_err w m)
    unfolding publish_loop
    loop-Reaches zero i m last h k fails reaches = absurd (omega arith)
    loop-Reaches (suc left) i m last h k fails reaches = elim (Bool-cases (nat_eq i m)) [
      | inl e ↦
          let same : i ≡ m = ground arith in rw same (round-Reaches m (nat_eq left 0) _ reaches)
      | inr e ↦
          let below : i < m = ground arith in
          round-Fails i (nat_eq left 0) _ (fails i below)
          ∙ loop-Reaches left (i + 1) m (publish_once w op subject i).1 (omega arith) (omega arith)
              fails reaches
    ]

    -- Under a context that outlives the call: if the attempts before the m-th fail before NATS has
    -- the message, and the m-th is within the bound and reaches the flush, then its flush decides:
    -- nil if it succeeds, and else an error that is not retried.
    pub publish_by_flush :
        (m : ℕ) (len : ℕ)
        → (op == "") ≡ false
        → (trim_space subject == "") ≡ false
        → len ≢ 0
        → m < rounds w.attempts
        → ((j : ℕ) → j < m → Fails j)
        → Reaches m
        → (publish w op subject len).1 ≡ (
            if is_nil (flush_err w m)
            then nil
            else runtime (fault_at publish_failed op subject "flush failed" false) (flush_err w m))
    unfolding publish flushed
    publish_by_flush m len op_given subject_given payload h fails reaches = ground (
      arith,
      patient.present,
      patient.entry,
      loop-Reaches (rounds w.attempts) 0 m nil (omega arith) (omega arith) fails reaches,
    )
