-- ===== src/Handlers/Restored.antt =====
-- restoreAllRegisteredSubscriptions (agentcore/handlers_runtime.go): its first loop, and the whole.
use tip_olg_nats_agent_core.Common.{ℕ, suc, refl, List, [], ◌∷◌, arith, lookup, nat_key, if_lem}
use tip_olg_nats_agent_core.Errors.{Error, nil, is_nil}
use tip_olg_nats_agent_core.Registry.{ActivationRecord, restore_records}
use tip_olg_nats_agent_core.Handlers.{Nats, Subscriptions}
use tip_olg_nats_agent_core.Handlers.Views.{same-IsOwned}
use tip_olg_nats_agent_core.Handlers.Owned.{IsSound}
use tip_olg_nats_agent_core.Handlers.Todo.{Todo, Todo-keep, restore_records-Todo}
use tip_olg_nats_agent_core.Handlers.Activated.{reported-IsSound}
use tip_olg_nats_agent_core.Handlers.Restore.{
  Created, restore_each, restore_rest, restore_from, restore_all_registered_subscriptions,
}
use tip_olg_nats_agent_core.Handlers.Half.{
  IsHalf, done-IsSound, give_up-IsSound, take_over_each-IsSound,
}
use tip_olg_nats_agent_core.Handlers.Round.{Fresh, Fresh-keep, restore_record-Round}

restore_each-IsHalf :
    (w : Nats) (recs : List ActivationRecord) (made : Created) (sum : Error) (c : Subscriptions)
    → IsHalf c made
    → Todo c.registry.entries recs
    → Fresh made recs
    → let (c', made', sum') = restore_each w recs made sum c in IsHalf c' made'
unfolding restore_each
restore_each-IsHalf w [] made sum c half todo fresh = half
restore_each-IsHalf w (rec ∷ recs) made sum c half (here, apart, todo) (free, fresh) =
    let (half', others, keep) = restore_record-Round w c made half sum rec here free in
    restore_each-IsHalf w recs _ _ _ half' (Todo-keep _ _ rec.id recs others apart todo)
      (Fresh-keep rec.id made _ recs keep apart fresh)

-- An answer of NATS more, of which nothing here depends.
asked-IsHalf :
    (c : Subscriptions) (made : Created) (n : ℕ)
    → IsHalf c made
    → IsHalf (record c { asked = n }) made
asked-IsHalf c made n half = record {
  valid = half.valid;
  owned = half.owned;
  unique = half.unique;
  taken = half.taken;
}

restore_rest-IsSound :
    (w : Nats) (made : Created) (sum : Error) (c : Subscriptions)
    → IsHalf c made
    → IsSound (restore_rest w made sum c).0
unfolding restore_rest
restore_rest-IsSound w [] sum c half = reported-IsSound c (done-IsSound c half)
restore_rest-IsSound w ((i, s) ∷ made) sum c half =
    let P : Subscriptions × Error → Type 0 = λ z. IsSound z.0 in
    if_lem P (is_nil (w.answer c.asked)) _ _
      (λ h.
        if_lem P (is_nil (w.answer (suc c.asked))) _ _
          (λ k. reported-IsSound _ (take_over_each-IsSound w _ _ (asked-IsHalf c _ _ half)))
          (λ k. reported-IsSound _ (give_up-IsSound w _ _ _ (asked-IsHalf c _ _ half))))
      (λ h. reported-IsSound _ (give_up-IsSound w _ _ _ (asked-IsHalf c _ _ half)))

-- Nothing is made yet.
begun-IsHalf : (c : Subscriptions) → IsSound c → IsHalf c []
unfolding lookup
begun-IsHalf c sound = record {
  valid = sound.valid;
  owned = same-IsOwned _ c.live c.made sound.owned _ (λ j. refl);
  unique = tt;
  taken = λ j s h. absurd (ground arith);
}

nothing_made : (recs : List ActivationRecord) → Fresh [] recs
unfolding lookup
nothing_made [] = tt
nothing_made (rec ∷ recs) = (refl, nothing_made recs)

restore_from-IsSound :
    (w : Nats) (recs : List ActivationRecord) (c : Subscriptions)
    → IsSound c
    → Todo c.registry.entries recs
    → IsSound (restore_from w recs c).0
unfolding restore_from
restore_from-IsSound w [] c sound todo = sound
restore_from-IsSound w (rec ∷ recs) c sound todo = restore_rest-IsSound w _ _ _ (
    restore_each-IsHalf w (rec ∷ recs) [] nil c (begun-IsHalf c sound) todo
      (nothing_made (rec ∷ recs)))

pub restore_all-IsSound :
    (w : Nats) (c : Subscriptions)
    → IsSound c
    → IsSound (restore_all_registered_subscriptions w c).0
unfolding restore_all_registered_subscriptions
restore_all-IsSound w c sound =
    restore_from-IsSound w (restore_records c.registry) c sound
      (restore_records-Todo c.registry sound.valid)
