-- ===== src/Handlers/Steps.antt =====
-- What a client calls on its handlers (agentcore/client.go and agentcore/handlers_runtime.go): it
-- registers them, activates all at its start, restores all after a reconnect, and ends all at its close.
use Prim.Native.Nat.{◌^◌}
use tip_olg_nats_agent_core.Common.{
  ℕ, ◌+◌, ◌<◌, ◌≤◌, String, ◌≡◌, refl, List, [], ◌∷◌, none, Option, arith, length, lookup, nat_key,
}
use tip_olg_nats_agent_core.Strings.{Unicode}
use tip_olg_nats_agent_core.Subjects.{Builder}
use tip_olg_nats_agent_core.Session.{ConnectionState}
use tip_olg_nats_agent_core.Registry.{RegId, new, counts, count_active}
use tip_olg_nats_agent_core.Registry.Invariant.{new-IsValid}
use tip_olg_nats_agent_core.Handlers.{Nats, Subscriptions}
use tip_olg_nats_agent_core.Handlers.Owned.{IsSound, registry_view, with_sub}
use tip_olg_nats_agent_core.Handlers.Activate.{
  activate_all_registered_subscriptions, deactivate_all_subscriptions,
}
use tip_olg_nats_agent_core.Handlers.Restore.{restore_all_registered_subscriptions}
use tip_olg_nats_agent_core.Handlers.Register.{
  SubscriptionOption, register_configure_handler, register_action_handler, register_result_handler,
  register_status_handler,
}
use tip_olg_nats_agent_core.Handlers.Activated.{activate_all-IsSound}
use tip_olg_nats_agent_core.Handlers.Ended.{deactivate_all_lem, deactivate-view}
use tip_olg_nats_agent_core.Handlers.Registered.{register-IsSound}
use tip_olg_nats_agent_core.Handlers.Restored.{restore_all-IsSound}
use tip_olg_nats_agent_core.Handlers.Counter.{
  counter, all-counter, register-counter, deactivate-counter, restore-counter,
}
use tip_olg_nats_agent_core.Handlers.Reported.{
  Shows, register-Shows, all-Shows, deactivate-Shows, restore-Shows,
}

-- One call; a registration also sees the state that the session's health shows.
pub data Operation : Type 0 where
  registers_configure : ConnectionState → String → Option ℕ → List SubscriptionOption → Operation
  registers_action :
      ConnectionState → String → String → Option ℕ → List SubscriptionOption → Operation
  registers_result : ConnectionState → String → Option ℕ → List SubscriptionOption → Operation
  registers_status : ConnectionState → String → Option ℕ → List SubscriptionOption → Operation
  activates : Operation
  restores : Operation
  deactivates : Operation

-- Before the first call.
unfoldable pub no_subscriptions : Subscriptions
no_subscriptions = record {
  registry = new;
  live = [];
  made = 0;
  asked = 0;
  sunk = [];
  reported = (0, 0);
}

-- NATS has exactly the subscriptions that the registrations own, and the health shows their counts.
abbrev pub Holds : Subscriptions → Type 0
Holds c = IsSound c × Shows c

pub none-IsSound : IsSound no_subscriptions
unfolding no_subscriptions new lookup
none-IsSound = record {
  valid = new-IsValid;
  owned = record {
    held = λ i s t h. absurd (ground arith);
    owned = λ s t h. absurd (ground arith);
    one_owner = λ i j s t t' h k. absurd (ground arith);
    bounded = λ s t h. absurd (ground arith);
  };
}

none-Holds : Holds no_subscriptions
unfolding no_subscriptions new counts count_active
none-Holds = (none-IsSound, refl)

module _ (w : Nats) (u : Unicode) (b : Builder) where
  unfoldable pub step : Subscriptions → Operation → Subscriptions
  step c (registers_configure state target handler opts) =
      (register_configure_handler w u b state target handler opts c).0
  step c (registers_action state target action handler opts) =
      (register_action_handler w u b state target action handler opts c).0
  step c (registers_result state target handler opts) =
      (register_result_handler w u b state target handler opts c).0
  step c (registers_status state target handler opts) =
      (register_status_handler w u b state target handler opts c).0
  step c activates = (activate_all_registered_subscriptions w "start" c).0
  step c restores = (restore_all_registered_subscriptions w c).0
  step c deactivates = (deactivate_all_subscriptions w "close" c).0

  unfoldable pub run : Subscriptions → List Operation → Subscriptions
  run c [] = c
  run c (x ∷ xs) = run (step c x) xs

  step-Holds :
      (c : Subscriptions) (x : Operation) → counter c + 1 < 2 ^ 64 → Holds c → Holds (step c x)
  unfolding step register_configure_handler register_action_handler register_result_handler
      register_status_handler
  step-Holds c (registers_configure state target handler opts) room (sound, shows) =
      (register-IsSound w state _ _ c room sound, register-Shows w state _ _ c shows)
  step-Holds c (registers_action state target action handler opts) room (sound, shows) =
      (register-IsSound w state _ _ c room sound, register-Shows w state _ _ c shows)
  step-Holds c (registers_result state target handler opts) room (sound, shows) =
      (register-IsSound w state _ _ c room sound, register-Shows w state _ _ c shows)
  step-Holds c (registers_status state target handler opts) room (sound, shows) =
      (register-IsSound w state _ _ c room sound, register-Shows w state _ _ c shows)
  step-Holds c activates room (sound, shows) =
      (activate_all-IsSound w "start" c sound, all-Shows w "start" c)
  step-Holds c restores room (sound, shows) =
      (restore_all-IsSound w c sound, restore-Shows w c shows)
  step-Holds c deactivates room (sound, shows) =
      ((deactivate_all_lem w "close" c sound).0, deactivate-Shows w "close" c)

  step-counter : (c : Subscriptions) (x : Operation) → counter (step c x) ≤ counter c + 1
  unfolding step register_configure_handler register_action_handler register_result_handler
      register_status_handler
  step-counter c (registers_configure state target handler opts) = register-counter w state _ _ c
  step-counter c (registers_action state target action handler opts) =
      register-counter w state _ _ c
  step-counter c (registers_result state target handler opts) = register-counter w state _ _ c
  step-counter c (registers_status state target handler opts) = register-counter w state _ _ c
  step-counter c activates = omega (arith, all-counter w "start" c)
  step-counter c restores = omega (arith, restore-counter w c)
  step-counter c deactivates = omega (arith, deactivate-counter w "close" c)

  run-Holds :
      (xs : List Operation) (c : Subscriptions)
      → counter c + length xs < 2 ^ 64
      → Holds c
      → Holds (run c xs)
  unfolding run
  run-Holds [] c room holds = holds
  run-Holds (x ∷ xs) c room holds =
      run-Holds xs (step c x) (omega (arith, step-counter c x)) (step-Holds c x (omega arith) holds)

  -- Any sequence of fewer than 2^64 calls of the register methods, of the activation of all handlers, of
  -- their restoration and of their end, whatever NATS answers each time: the registry keeps its
  -- invariant; NATS has exactly the subscriptions that the registrations own, each with the subject, the
  -- queue group and the callback of its owner, and none is owned twice or lost; and the counts that the
  -- health shows are those of the registry.
  pub run-IsSound :
      (xs : List Operation)
      → length xs < 2 ^ 64
      → IsSound (run no_subscriptions xs)
        × ((run no_subscriptions xs).reported ≡ counts (run no_subscriptions xs).registry)
  unfolding no_subscriptions new
  run-IsSound xs room = run-Holds xs no_subscriptions (omega arith) none-Holds

  -- After any such sequence deactivateAllSubscriptions leaves NATS without a subscription, whatever NATS
  -- answers to each Unsubscribe, and every registration as it was, but without a subscription.
  pub deactivate_all-quiet :
      (xs : List Operation)
      → length xs < 2 ^ 64
      → let c = run no_subscriptions xs in
        let c' = (deactivate_all_subscriptions w "close" c).0 in
        ((s : ℕ) → lookup s c'.live ≡ none)
        × ((i : RegId) → registry_view c'.registry i ≡ with_sub none (registry_view c.registry i))
  deactivate_all-quiet xs room =
      let c = run no_subscriptions xs in
      ((deactivate_all_lem w "close" c (run-IsSound xs room).0).1, deactivate-view w "close" c)
