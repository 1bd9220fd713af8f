-- ===== src/Publisher/Examples.antt =====
-- The theorems on the publisher where the first attempt finds no connection.
use tip_olg_nats_agent_core.Common.{
  ℕ, ◌≤◌, ◌<◌, ◌≡◌, refl, inl, true, false, [], ◌∷◌, pos, nat_eq, if◌then◌else◌, arith,
}
use tip_olg_nats_agent_core.Strings.{trim_space}
use tip_olg_nats_agent_core.Errors.{nil, external, other, as_runtime}
use tip_olg_nats_agent_core.Publisher.{
  World, publishes, flushes, counts, observes, warns, publish, publish_loop, one_round,
  publish_once, rounds,
}
use tip_olg_nats_agent_core.Publisher.Attempts.{
  published, accepted, publish_at_most_once, publish-nil_accepted,
}
use tip_olg_nats_agent_core.Publisher.Delivery.{Fails, IsPatient, publish_by_flush}

abbrev world : World
world = record {
  attempts = pos 3;
  publish_timeout = pos 5;
  logger = true;
  metrics = true;
  has_ctx = true;
  has_deadline = false;
  entry_err = nil;
  ctx_err = λ i. nil;
  connection = λ i. if nat_eq i 0 then external other "down" else nil;
  publish = λ i. nil;
  flush = λ i c. nil;
  waited = λ i. nil;
}

world-IsPatient : IsPatient world
world-IsPatient = record { present = refl; entry = refl; checks = λ i. refl; waits = λ i. refl }

-- The trace: a warning, then the second attempt.
second_attempt :
    publish world "op" "result.vyos" 2
    ≡ (warns 1 3 ∷ publishes 1 ∷ flushes 1 ∷ counts "success" ∷ observes ∷ [], nil)
unfolding publish publish_loop one_round publish_once rounds trim_space as_runtime
second_attempt = refl

publish_at_most_once_example :
    (published (publish world "op" "result.vyos" 2).0 ≤ rounds (pos 3))
    × (accepted world (publish world "op" "result.vyos" 2).0 ≤ 1)
publish_at_most_once_example = publish_at_most_once world "op" "result.vyos" 2

publish-nil_accepted_example : accepted world (publish world "op" "result.vyos" 2).0 ≡ 1
unfolding publish publish_loop one_round publish_once rounds trim_space as_runtime
publish-nil_accepted_example = publish-nil_accepted world "op" "result.vyos" 2 refl

first-Fails : (j : ℕ) → j < 1 → Fails world j
first-Fails j h = inl (ground arith)

publish_by_flush_example : (publish world "op" "result.vyos" 2).1 ≡ nil
unfolding trim_space rounds
publish_by_flush_example =
    publish_by_flush world world-IsPatient "op" "result.vyos" 1 2 refl refl (omega arith)
      (omega arith) first-Fails (refl, refl)
