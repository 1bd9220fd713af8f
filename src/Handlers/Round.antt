-- ===== src/Handlers/Round.antt =====
-- One round of the first loop of restoreAllRegisteredSubscriptions (agentcore/handlers_runtime.go).
use tip_olg_nats_agent_core.Common.{
  ℕ, ◌≡◌, ◌≢◌, refl, sym, ap, subst, ◌∙◌, inl, inr, false, none, some, List, [], ◌∷◌, ◌++◌, All,
  arith, nat_eq_iff, lookup, nat_key, lookup-delete, Option-cases,
}
use tip_olg_nats_agent_core.Errors.{Error}
use tip_olg_nats_agent_core.Results.{Result, ok, err}
use tip_olg_nats_agent_core.Registry.{
  Registry, Entry, RegId, ActivationRecord, activation_from_entry, mark_inactive,
}
use tip_olg_nats_agent_core.Registry.Behaviour.{mark_inactive-IsValid}
use tip_olg_nats_agent_core.Handlers.{Nats, Subscriptions}
use tip_olg_nats_agent_core.Handlers.Views.{View, IsOwned, set_view, same-IsOwned}
use tip_olg_nats_agent_core.Handlers.Owned.{entry_topic, mark_inactive-view}
use tip_olg_nats_agent_core.Handlers.Subscribe.{create_subscription_for_record}
use tip_olg_nats_agent_core.Handlers.Made.{Made, create-Made, Made-IsOwned, given}
use tip_olg_nats_agent_core.Handlers.Todo.{Current}
use tip_olg_nats_agent_core.Handlers.Activated.{Touches, mark_inactive-others}
use tip_olg_nats_agent_core.Handlers.Ended.{without}
use tip_olg_nats_agent_core.Handlers.Restore.{Created, drop_stale, restored, restore_one}
use tip_olg_nats_agent_core.Handlers.Half.{IsHalf, pending_view, Dead, Taken}
use tip_olg_nats_agent_core.Handlers.Dropped.{
  lookup-last, Unique-last, idle-view, drop_stale_lem, dropped-dead, made-dead,
}

-- Nothing was made yet for what is to be done.
abbrev pub Fresh : Created → List ActivationRecord → Type 0
Fresh made recs = All (λ rec. lookup rec.id made ≡ none) recs

-- The state and the list behind a round for i: others are as they were.
abbrev pub Round : RegId → Subscriptions → Created → Subscriptions → Created → Type 0
Round i c made c' made' =
    IsHalf c' made'
    × Touches i c c'
    × ((j : RegId) → j ≢ i → lookup j made ≡ none → lookup j made' ≡ none)

pub Fresh-keep :
    (i : RegId) (made made' : Created) (recs : List ActivationRecord)
    → ((j : RegId) → j ≢ i → lookup j made ≡ none → lookup j made' ≡ none)
    → All (λ rec. rec.id ≢ i) recs
    → Fresh made recs
    → Fresh made' recs
Fresh-keep i made made' [] keep other fresh = tt
Fresh-keep i made made' (rec ∷ recs) keep (ne, other) (f, fresh) =
    (keep rec.id ne f, Fresh-keep i made made' recs keep other fresh)

-- One round: the entry's old subscription is dropped, giving c1, and a new one is made, giving c2.
module _ (c c1 c2 : Subscriptions) (made : Created) (half : IsHalf c made) (e : Entry)
    (found : lookup e.id c.registry.entries ≡ some e) (free : lookup e.id made ≡ none)
    (drop : (c1.registry ≡ c.registry)
      × (c1.made ≡ c.made)
      × (c1.live ≡ without e.active_sub c.live))
    (r : Result ℕ) (make : Made c1 (entry_topic e) (c2, r)) where
  abbrev view : View
  view = pending_view c.registry made

  abbrev idle : View
  idle = set_view e.id (some (entry_topic e, none)) view

  view_here : view e.id ≡ some (entry_topic e, e.active_sub)
  view_here = ground (arith, found, free)

  idle-IsOwned : IsOwned idle c1.live c1.made
  idle-IsOwned =
      rw (drop.1, drop.2)
        (idle-view view c.live c.made e.id (entry_topic e) e.active_sub half.owned view_here)

  -- What the entry held before, if anything, is not live; it was, so it has a number.
  old-Dead : Dead c2 e
  old-Dead x h =
      let was =
        half.owned.held e.id x (entry_topic e) (view_here ∙ ap (λ o. some (entry_topic e, o)) h) in
      let gone : lookup x c1.live ≡ none =
        ap (lookup x) (drop.2 ∙ ap (λ o. without o c.live) h)
        ∙ ground (arith, lookup-delete x x c.live, nat_eq_iff x x) in
      made-dead c1 c2 (entry_topic e) r x make gone
        (omega (arith, half.owned.bounded x (entry_topic e) was, drop.1))

  others-Taken :
      (j : RegId) (s : ℕ) → lookup j made ≡ some s → Taken (record c2 { registry = c.registry }) j
  others-Taken j s h =
      let (y, there, dead) = half.taken j s h in
      (
        y,
        there,
        λ x k.
            let gone : lookup x c1.live ≡ none =
              ap (lookup x) drop.2 ∙ dropped-dead e.active_sub c.live x (dead x k).0 in
            made-dead c1 c2 (entry_topic e) r x make gone (omega (arith, (dead x k).1, drop.1)),
      )

  idle_here : idle e.id ≡ some (entry_topic e, none)
  idle_here = ground (arith, nat_eq_iff e.id e.id)

  now-IsOwned : IsOwned (given idle c1 idle-IsOwned (entry_topic e) e.id r) c2.live c2.made
  now-IsOwned = Made-IsOwned idle c1 idle-IsOwned (entry_topic e) e.id c2 r make idle_here

  failed-IsHalf :
      (x : Error)
      → r ≡ err x
      → c2.registry ≡ c.registry
      → IsHalf (record c2 { registry = mark_inactive c2.registry e.id x }) made
  failed-IsHalf x bad same =
      let o =
        subst (λ z. IsOwned (given idle c1 idle-IsOwned (entry_topic e) e.id z) c2.live c2.made) bad
          now-IsOwned in
      let half' : IsHalf (record c2 { registry = mark_inactive c.registry e.id x }) made = record {
        valid = mark_inactive-IsValid c.registry e.id x half.valid;
        owned = same-IsOwned _ c2.live c2.made o _ (λ j.
            ground (arith, nat_eq_iff e.id j, found, free, mark_inactive-view c.registry e.id x j));
        unique = half.unique;
        taken = λ j s h.
            let (y, there, dead) = others-Taken j s h in
            (
              y,
              mark_inactive-others c.registry e.id x j
                    (λ q. ground (arith, ap (λ k. lookup k made) q))
                  ∙ there,
              dead,
            );
      } in
      subst (λ (z : Registry). IsHalf (record c2 { registry = mark_inactive z e.id x }) made)
        (sym same) half'

  given-IsHalf : (s : ℕ) → r ≡ ok s → c2.registry ≡ c.registry → IsHalf c2 (made ++ (e.id, s) ∷ [])
  given-IsHalf s good same =
      let o =
        subst (λ z. IsOwned (given idle c1 idle-IsOwned (entry_topic e) e.id z) c2.live c2.made)
          good now-IsOwned in
      let half' : IsHalf (record c2 { registry = c.registry }) (made ++ (e.id, s) ∷ []) = record {
        valid = half.valid;
        owned =
            same-IsOwned _ c2.live c2.made o _
              (λ j. ground (arith, nat_eq_iff e.id j, found, free, lookup-last e.id s made j));
        unique = Unique-last e.id s made free half.unique;
        taken = λ j x h. elim (Option-cases (lookup j made)) [
          | inr (y, before) ↦ others-Taken j y before
          | inl new ↦
              let q : e.id ≡ j = ground (arith, lookup-last e.id s made j, nat_eq_iff e.id j) in
              (e, ap (λ k. lookup k c.registry.entries) (sym q) ∙ found, old-Dead)
        ];
      } in
      subst (λ (z : Registry). IsHalf (record c2 { registry = z }) (made ++ (e.id, s) ∷ []))
        (sym same) half'

restored-Round :
    (w : Nats) (c c1 : Subscriptions) (made : Created) (half : IsHalf c made) (e : Entry)
    → lookup e.id c.registry.entries ≡ some e
    → lookup e.id made ≡ none
    → (c1.registry ≡ c.registry) × (c1.made ≡ c.made) × (c1.live ≡ without e.active_sub c.live)
    → (c2 : Subscriptions) (r : Result ℕ) (sum : Error) → Made c1 (entry_topic e) (c2, r)
    → let (c', made', sum') = restored w e.id made sum (c2, r) in Round e.id c made c' made'
unfolding restored
restored-Round w c c1 made half e found free drop c2 (err x) sum make =
    let same = make.0 ∙ drop.0 in
    (
      failed-IsHalf c c1 c2 made half e found free drop (err x) make x refl same,
      λ j ne.
          mark_inactive-others c2.registry e.id x j ne
          ∙ ap (λ (r : Registry). lookup j r.entries) same,
      λ j ne h. h,
    )
restored-Round w c c1 made half e found free drop c2 (ok s) sum make =
    let same = make.0 ∙ drop.0 in
    (
      given-IsHalf c c1 c2 made half e found free drop (ok s) make s refl same,
      λ j ne. ap (λ (r : Registry). lookup j r.entries) same,
      λ j ne h. ground (arith, lookup-last e.id s made j, nat_eq_iff e.id j),
    )

restore_one-Round :
    (w : Nats) (c : Subscriptions) (made : Created) (half : IsHalf c made) (sum : Error) (e : Entry)
    → lookup e.id c.registry.entries ≡ some e
    → lookup e.id made ≡ none
    → let (c', made', sum') = restore_one w (activation_from_entry e) made sum c in
      Round e.id c made c' made'
unfolding restore_one activation_from_entry
restore_one-Round w c made half sum e found free =
    let c1 = drop_stale w (activation_from_entry e) c in
    let answer =
      create_subscription_for_record w (activation_from_entry e) "restore_subscriptions" false c1 in
    restored-Round w c c1 made half e found free
      (drop_stale_lem w e c (half.valid.entries_ok e.id e found).live) answer.0 answer.1 sum
      (create-Made w (activation_from_entry e) "restore_subscriptions" false c1)

pub restore_record-Round :
    (w : Nats) (c : Subscriptions) (made : Created) (half : IsHalf c made) (sum : Error)
    (rec : ActivationRecord)
    → Current c.registry.entries rec
    → lookup rec.id made ≡ none
    → let (c', made', sum') = restore_one w rec made sum c in Round rec.id c made c' made'
unfolding activation_from_entry
restore_record-Round w c made half sum rec (e, found, same) free =
    let named = (half.valid.entries_ok rec.id e found).same_id in
    subst
      (λ (r : ActivationRecord).
        let (c', made', sum') = restore_one w r made sum c in Round r.id c made c' made')
      (sym same)
      (restore_one-Round w c made half sum e (ap (λ k. lookup k c.registry.entries) named ∙ found)
        (ap (λ k. lookup k made) named ∙ free))
