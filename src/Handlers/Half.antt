-- ===== src/Handlers/Half.antt =====
-- restoreAllRegisteredSubscriptions (agentcore/handlers_runtime.go) in the midst of its work: what was
-- made for a registration counts as its own, before the registry has it. The last loop, on either path,
-- makes it so.
use tip_olg_nats_agent_core.Common.{
  ℕ, ◌<◌, ◌≡◌, ◌≢◌, refl, sym, subst, ◌∙◌, Option, none, some, [], ◌∷◌, arith, nat_eq_iff, lookup,
  nat_key, Unique, lookup-delete,
}
use tip_olg_nats_agent_core.Errors.{Error}
use tip_olg_nats_agent_core.Registry.{Registry, Entry, RegId, mark_active, mark_inactive, stale}
use tip_olg_nats_agent_core.Registry.Invariant.{IsValid}
use tip_olg_nats_agent_core.Registry.Behaviour.{mark_active-IsValid, mark_inactive-IsValid}
use tip_olg_nats_agent_core.Handlers.{Topic, Nats, Subscriptions, unsubscribe}
use tip_olg_nats_agent_core.Handlers.Views.{
  View, IsOwned, set_view, same-IsOwned, drop-IsOwned, dead-IsOwned,
}
use tip_olg_nats_agent_core.Handlers.Owned.{
  IsSound, entry_topic, registry_view, with_sub, mark_active-view, mark_inactive-view,
}
use tip_olg_nats_agent_core.Handlers.Activated.{
  mark_active-others, mark_inactive-others, found-is_some,
}
use tip_olg_nats_agent_core.Handlers.Restore.{Created, give_up, let_go, take_over, take_over_each}

-- What is made for a registration counts as its own.
abbrev pub pend : Option ℕ → Option (Topic × Option ℕ) → Option (Topic × Option ℕ)
pend none x = x
pend (some s) x = with_sub (some s) x

abbrev pub pending_view : Registry → Created → View
pending_view r made j = pend (lookup j made) (registry_view r j)

-- What an entry held before is unsubscribed.
abbrev pub Dead : Subscriptions → Entry → Type 0
Dead c e = (x : ℕ) → e.active_sub ≡ some x → (lookup x c.live ≡ none) × (x < c.made)

-- A registration for which a subscription was made.
abbrev pub Taken : Subscriptions → RegId → Type 0
Taken c j = (e : Entry) × (lookup j c.registry.entries ≡ some e) × Dead c e

pub record IsHalf (c : Subscriptions) (made : Created) : Type 0 where
  pub valid : IsValid c.registry
  pub owned : IsOwned (pending_view c.registry made) c.live c.made
  pub unique : Unique made
  pub taken : (j : RegId) (s : ℕ) → lookup j made ≡ some s → Taken c j

-- At the end of the last loop.
pub done-IsSound : (c : Subscriptions) → IsHalf c [] → IsSound c
unfolding lookup
done-IsSound c half = record {
  valid = half.valid;
  owned = same-IsOwned _ c.live c.made half.owned _ (λ j. refl);
}

module _ (i : RegId) (s : ℕ) (made : Created) (c : Subscriptions)
    (half : IsHalf c ((i, s) ∷ made)) where
  pub here : Taken c i
  unfolding lookup
  here = half.taken i s (ground (arith, nat_eq_iff i i))

  pub here-view : pending_view c.registry ((i, s) ∷ made) i ≡ some (entry_topic here.0, some s)
  unfolding lookup
  here-view = ground (arith, nat_eq_iff i i, here.1)

  -- The others that are left are others.
  pub left : (j : RegId) (x : ℕ) → lookup j made ≡ some x → (j ≢ i) × Taken c j
  unfolding lookup
  left j x h = (
    λ same. ground (arith, half.unique.0),
    half.taken j x (ground (arith, nat_eq_iff i j, half.unique.0)),
  )

  -- The rest of the loop, of the state behind this round.
  next-IsHalf :
      (c' : Subscriptions)
      → IsValid c'.registry
      → IsOwned (pending_view c'.registry made) c'.live c'.made
      → ((j : RegId) → j ≢ i → lookup j c'.registry.entries ≡ lookup j c.registry.entries)
      → c'.made ≡ c.made
      → ((x : ℕ) → lookup x c.live ≡ none → lookup x c'.live ≡ none)
      → IsHalf c' made
  next-IsHalf c' valid owned others same dead = record {
    valid = valid;
    owned = owned;
    unique = half.unique.1;
    taken = λ j x h.
        let (ne, (e, found, gone)) = left j x h in
        (
          e,
          others j ne ∙ found,
          λ y k. (dead y (gone y k).0, subst (λ n. y < n) (sym same) (gone y k).1),
        );
  }

  -- One round of the loop of the flush that failed.
  lost-view :
      (e : Error) (j : ℕ)
      → pending_view (mark_inactive c.registry i e) made j
        ≡ set_view i (some (entry_topic here.0, none)) (pending_view c.registry ((i, s) ∷ made)) j
  unfolding lookup
  lost-view e j =
      ground (arith, nat_eq_iff i j, here.1, half.unique.0, mark_inactive-view c.registry i e j)

  pub lost-IsHalf :
      (w : Nats) (e : Error)
      → let c' = (unsubscribe w s c).0 in
        IsHalf (record c' { registry = mark_inactive c'.registry i e }) made
  unfolding unsubscribe
  lost-IsHalf w e =
      next-IsHalf _ (mark_inactive-IsValid c.registry i e half.valid)
        (same-IsOwned _ _ c.made
          (drop-IsOwned _ c.live c.made half.owned i s (entry_topic here.0) here-view) _
          (lost-view e))
        (mark_inactive-others c.registry i e) refl (λ x h. ground (arith, lookup-delete s x c.live))

  -- One round of the loop of the flush that succeeded.
  kept-view :
      (j : ℕ)
      → pending_view (mark_active c.registry i (some s)).0 made j
        ≡ pending_view c.registry ((i, s) ∷ made) j
  unfolding lookup
  kept-view j =
      ground
        (arith, nat_eq_iff i j, here.1, half.unique.0, mark_active-view c.registry i (some s) j)

  -- What MarkActive hands back was the entry's.
  handed_back-dead :
      (x : ℕ) → (mark_active c.registry i (some s)).1 ≡ some x → lookup x c.live ≡ none
  unfolding mark_active stale
  handed_back-dead x h = (here.2 x (ground (arith, here.1))).0

  kept-IsHalf :
      (o : Option ℕ)
      → ((x : ℕ) → o ≡ some x → lookup x c.live ≡ none)
      → (w : Nats)
      → IsHalf (let_go w o (record c { registry = (mark_active c.registry i (some s)).0 })) made
  unfolding let_go unsubscribe
  kept-IsHalf none gone w =
      next-IsHalf _ (mark_active-IsValid c.registry i (some s) half.valid)
        (same-IsOwned _ c.live c.made half.owned _ kept-view)
        (mark_active-others c.registry i (some s)) refl (λ x h. h)
  kept-IsHalf (some y) gone w =
      next-IsHalf _ (mark_active-IsValid c.registry i (some s) half.valid)
        (dead-IsOwned _ c.live c.made (same-IsOwned _ c.live c.made half.owned _ kept-view) y
          (gone y refl))
        (mark_active-others c.registry i (some s)) refl
        (λ x h. ground (arith, lookup-delete y x c.live))

  pub take_over-IsHalf : (w : Nats) → IsHalf (take_over w i s c) made
  unfolding take_over
  take_over-IsHalf w =
      rw (found-is_some c.registry i here.0 here.1) (kept-IsHalf _ handed_back-dead w)

pub give_up-IsSound :
    (w : Nats) (e : Error) (made : Created) (c : Subscriptions)
    → IsHalf c made
    → IsSound (give_up w e made c)
unfolding give_up
give_up-IsSound w e [] c half = done-IsSound c half
give_up-IsSound w e ((i, s) ∷ made) c half =
    give_up-IsSound w e made _ (lost-IsHalf i s made c half w e)

pub take_over_each-IsSound :
    (w : Nats) (made : Created) (c : Subscriptions)
    → IsHalf c made
    → IsSound (take_over_each w made c)
unfolding take_over_each
take_over_each-IsSound w [] c half = done-IsSound c half
take_over_each-IsSound w ((i, s) ∷ made) c half =
    take_over_each-IsSound w made _ (take_over-IsHalf i s made c half w)
