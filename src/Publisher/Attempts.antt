-- ===== src/Publisher/Attempts.antt =====
-- How often a publish is tried, and how often NATS takes the message over.
use tip_olg_nats_agent_core.Common.{
  ℕ, zero, suc, ◌+◌, ◌≤◌, ◌<◌, String, ◌==◌, ◌≡◌, ◌⊎◌, inl, inr, Bool, true, false, List, [], ◌∷◌,
  ◌++◌, arith, nat_eq, if◌then◌else◌,
}
use tip_olg_nats_agent_core.Errors.{Error, nil, is_nil, as_runtime}
use tip_olg_nats_agent_core.Publisher.{
  World, Event, publishes, flushes, counts, observes, warns, inc_publish, observe, warn,
  publish_once, one_round, publish_loop, publish, rounds, is_final,
}

-- The calls of the NATS publish in a trace.
abbrev pub published : List Event → ℕ
published [] = 0
published (publishes i ∷ events) = suc (published events)
published (_ ∷ events) = published events

published-append : (a b : List Event) → published (a ++ b) ≡ published a + published b
published-append [] b = omega arith
published-append (publishes i ∷ a) b = omega (arith, published-append a b)
published-append (flushes i ∷ a) b = published-append a b
published-append (counts s ∷ a) b = published-append a b
published-append (observes ∷ a) b = published-append a b
published-append (warns i n ∷ a) b = published-append a b

module _ (w : World) where
  -- Those that NATS accepted.
  abbrev pub accepted : List Event → ℕ
  accepted [] = 0
  accepted (publishes i ∷ events) = (if is_nil (w.publish i) then 1 else 0) + accepted events
  accepted (_ ∷ events) = accepted events

  accepted-append : (a b : List Event) → accepted (a ++ b) ≡ accepted a + accepted b
  accepted-append [] b = omega arith
  accepted-append (publishes i ∷ a) b = omega (arith, accepted-append a b)
  accepted-append (flushes i ∷ a) b = accepted-append a b
  accepted-append (counts s ∷ a) b = accepted-append a b
  accepted-append (observes ∷ a) b = accepted-append a b
  accepted-append (warns i n ∷ a) b = accepted-append a b

  quiet_metrics :
      (s : String) → (published (inc_publish w s) ≡ 0) × (accepted (inc_publish w s) ≡ 0)
  quiet_metrics s = ground arith

  quiet_observe : (published (observe w) ≡ 0) × (accepted (observe w) ≡ 0)
  quiet_observe = ground arith

  quiet_warn : (i : ℕ) → (published (warn w i) ≡ 0) × (accepted (warn w i) ≡ 0)
  quiet_warn i = ground arith

  module _ (op subject : String) where
    once-published : (i : ℕ) → published (publish_once w op subject i).0 ≤ 1
    unfolding publish_once
    once-published i = ground arith

    -- One attempt: accepted and flushed; accepted and lost to the flush, which is final; or not
    -- accepted, which may be tried again.
    once_cases :
        (i : ℕ)
        → (((publish_once w op subject i).1 ≡ nil) × (accepted (publish_once w op subject i).0 ≡ 1))
          ⊎ ((is_nil (publish_once w op subject i).1 ≡ false)
              × (is_final (as_runtime (publish_once w op subject i).1) ≡ true)
              × (accepted (publish_once w op subject i).0 ≡ 1))
          ⊎ ((is_nil (publish_once w op subject i).1 ≡ false)
              × (is_final (as_runtime (publish_once w op subject i).1) ≡ false)
              × (accepted (publish_once w op subject i).0 ≡ 0))
    unfolding publish_once as_runtime
    once_cases i = ground arith

    round-published :
        (i : ℕ) (last : Bool) (rest : List Event × Error)
        → published (one_round w op subject i last rest).0 ≤ 1 + published rest.0
    unfolding one_round
    round-published i last rest = ground (
      arith,
      once-published i,
      published-append (publish_once w op subject i).0 (inc_publish w "success" ++ observe w),
      published-append (inc_publish w "success") (observe w),
      published-append (publish_once w op subject i).0 (warn w i),
      published-append ((publish_once w op subject i).0 ++ warn w i) rest.0,
    )

    -- The loop makes at most one call of publish in each round.
    loop-published :
        (left i : ℕ) (last : Error) → published (publish_loop w op subject left i last).0 ≤ left
    unfolding publish_loop
    loop-published zero i last = omega arith
    loop-published (suc left) i last = omega (
      arith,
      round-published i (nat_eq left 0)
          (publish_loop w op subject left (i + 1) (publish_once w op subject i).1),
      loop-published left (i + 1) (publish_once w op subject i).1,
    )

    -- A round behind which at most one message is accepted: accepted at most once in all, and only a
    -- round that goes on has accepted none.
    round-accepted :
        (i : ℕ) (last : Bool) (rest : List Event × Error)
        → accepted rest.0 ≤ 1
        → accepted (one_round w op subject i last rest).0 ≤ 1
    unfolding one_round
    round-accepted i last rest h = ground (
      arith,
      once_cases i,
      accepted-append (publish_once w op subject i).0 (inc_publish w "success" ++ observe w),
      accepted-append (inc_publish w "success") (observe w),
      accepted-append (publish_once w op subject i).0 (warn w i),
      accepted-append ((publish_once w op subject i).0 ++ warn w i) rest.0,
    )

    loop-accepted :
        (left i : ℕ) (last : Error) → accepted (publish_loop w op subject left i last).0 ≤ 1
    unfolding publish_loop
    loop-accepted zero i last = omega arith
    loop-accepted (suc left) i last =
        round-accepted i (nat_eq left 0) _
          (loop-accepted left (i + 1) (publish_once w op subject i).1)

    round-accepted_ok :
        (i : ℕ) (last : Bool) (rest : List Event × Error)
        → (is_nil (publish_once w op subject i).1 ≡ false → rest.1 ≡ nil → accepted rest.0 ≡ 1)
        → (one_round w op subject i last rest).1 ≡ nil
        → accepted (one_round w op subject i last rest).0 ≡ 1
    unfolding one_round
    round-accepted_ok i last rest h e = ground (
      arith,
      once_cases i,
      accepted-append (publish_once w op subject i).0 (inc_publish w "success" ++ observe w),
      accepted-append (inc_publish w "success") (observe w),
      accepted-append (publish_once w op subject i).0 (warn w i),
      accepted-append ((publish_once w op subject i).0 ++ warn w i) rest.0,
    )

    loop-accepted_ok :
        (left i : ℕ) (last : Error)
        → (0 < left) ⊎ (is_nil last ≡ false)
        → (publish_loop w op subject left i last).1 ≡ nil
        → accepted (publish_loop w op subject left i last).0 ≡ 1
    unfolding publish_loop
    loop-accepted_ok zero i last n e = absurd (ground arith)
    loop-accepted_ok (suc left) i last n e =
        round-accepted_ok i (nat_eq left 0) _
          (λ failed. loop-accepted_ok left (i + 1) (publish_once w op subject i).1 (inr failed)) e

  -- Whatever the context, the connection, NATS and the timer do: Publish calls the NATS publish at
  -- most max(1, attempts) times, and NATS accepts the message at most once.
  pub publish_at_most_once :
      (op subject : String) (len : ℕ)
      → (published (publish w op subject len).0 ≤ rounds w.attempts)
        × (accepted (publish w op subject len).0 ≤ 1)
  unfolding publish
  publish_at_most_once op subject len =
      let op' = if op == "" then "publish_payload" else op in
      ground (
        arith,
        loop-published op' subject (rounds w.attempts) 0 nil,
        loop-accepted op' subject (rounds w.attempts) 0 nil,
      )

  rounds-pos : 0 < rounds w.attempts
  unfolding rounds
  rounds-pos = ground arith

  -- If Publish returns nil, NATS accepted the message exactly once.
  pub publish-nil_accepted :
      (op subject : String) (len : ℕ)
      → (publish w op subject len).1 ≡ nil
      → accepted (publish w op subject len).0 ≡ 1
  unfolding publish
  publish-nil_accepted op subject len e =
      let op' = if op == "" then "publish_payload" else op in
      ground (arith, loop-accepted_ok op' subject (rounds w.attempts) 0 nil (inl rounds-pos))
