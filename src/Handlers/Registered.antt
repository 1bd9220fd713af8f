-- ===== src/Handlers/Registered.antt =====
-- Registration of a handler (agentcore/handlers_runtime.go) keeps what NATS has equal to what is owned,
-- also where its activation fails and it is rolled back.
use Prim.Native.Nat.{◌^◌}
use tip_olg_nats_agent_core.Common.{
  ℕ, ◌+◌, ◌<◌, String, ◌≡◌, inl, inr, false, none, some, List, arith, nat_eq_iff, lookup, insert,
  nat_key, string_key, lookup-insert, Bool-cases, Option-cases, if_lem,
}
use tip_olg_nats_agent_core.Errors.{Error, is_nil}
use tip_olg_nats_agent_core.Results.{Result, ok, err}
use tip_olg_nats_agent_core.Session.{ConnectionState}
use tip_olg_nats_agent_core.Registry.{
  Registry, RegId, AddSpec, Snapshot, add, bump, new_entry, validate_add_spec, registration_key,
}
use tip_olg_nats_agent_core.Registry.Invariant.{IsValid, bump_lem, fresh}
use tip_olg_nats_agent_core.Registry.Behaviour.{add-IsValid}
use tip_olg_nats_agent_core.Handlers.{Topic, Nats, Subscriptions}
use tip_olg_nats_agent_core.Handlers.Views.{IsOwned, same-IsOwned, idle-IsOwned}
use tip_olg_nats_agent_core.Handlers.Owned.{IsSound, entry_topic, registry_view}
use tip_olg_nats_agent_core.Handlers.Activate.{
  activate_after_registration, activate_registered_subscription_by_id, is_waiting,
}
use tip_olg_nats_agent_core.Handlers.Activated.{reported-IsSound, activate_by_id-IsSound}
use tip_olg_nats_agent_core.Handlers.Ended.{rollback-IsSound}
use tip_olg_nats_agent_core.Handlers.Register.{finished, added, register}

module _ (r : Registry) (spec : AddSpec) (room : r.next_id + 1 < 2 ^ 64) (valid : IsValid r)
    (live : List (ℕ × Topic)) (made : ℕ) (o : IsOwned (registry_view r) live made) where
  abbrev key : String
  key = registration_key spec.kind spec.subject spec.queue_group

  absent : lookup (bump r.next_id) r.entries ≡ none
  absent = fresh r valid (bump r.next_id) (omega (arith, bump_lem r.next_id room))

  -- A new entry owns nothing.
  new-IsOwned :
      (j : RegId) (m : List (String × RegId))
      → IsOwned
          (registry_view (record {
            next_id = j;
            entries = insert (bump r.next_id) (new_entry (bump r.next_id) spec) r.entries;
            by_key = m;
          }))
          live
          made
  unfolding new_entry
  new-IsOwned j m =
      let i = bump r.next_id in
      let e = new_entry i spec in
      let idle =
        idle-IsOwned (registry_view r) live made o i (some (entry_topic e, none))
          (λ t s h. ground (arith, absent)) (λ t s h. ground arith) in
      same-IsOwned _ live made idle _
        (λ k. ground (arith, nat_eq_iff i k, lookup-insert i k e r.entries))

  pub add-IsOwned : IsOwned (registry_view (add r spec).0) live made
  unfolding add
  add-IsOwned = elim (Bool-cases (is_nil (validate_add_spec spec))) [
    | inr bad ↦ rw bad o
    | inl good ↦ rw good (elim (Option-cases (lookup key r.by_key)) [
      | inl free ↦ rw free (new-IsOwned (bump r.next_id) (insert key (bump r.next_id) r.by_key))
      | inr (x, taken) ↦ rw taken o
    ])
  ]

pub behind_add-IsSound :
    (spec : AddSpec) (c : Subscriptions)
    → c.registry.next_id + 1 < 2 ^ 64
    → IsSound c
    → IsSound (record c { registry = (add c.registry spec).0 })
behind_add-IsSound spec c room sound = record {
  valid = add-IsValid c.registry spec room sound.valid;
  owned = add-IsOwned c.registry spec room sound.valid c.live c.made sound.owned;
}

module _ (w : Nats) (state : ConnectionState) where
  activated-IsSound :
      (c : Subscriptions) (sound : IsSound c) (i : RegId) (op : String)
      → IsSound (activate_after_registration w state i op c).0
  unfolding activate_after_registration
  activated-IsSound c sound i op =
      let c' = activate_registered_subscription_by_id w i false op c in
      let sound' = activate_by_id-IsSound w c sound i op in
      if_lem (λ (z : Subscriptions × Error). IsSound z.0) (is_waiting state) _ _ (λ h. sound)
        (λ h. if_lem IsSound (is_nil c'.1) _ _ (λ k. reported-IsSound _ sound') (λ k. sound'))

  finished-IsSound :
      (i : RegId) (c : Subscriptions) (e : Error)
      → IsSound c
      → IsSound (finished w state i (c, e)).0
  unfolding finished
  finished-IsSound i c e sound =
      if_lem (λ (z : Subscriptions × Error). IsSound z.0) (is_nil e) _ _ (λ h. sound)
        (λ h. rollback-IsSound w i c sound)

  added-IsSound :
      (op : String) (c : Subscriptions) (r : Registry) (result : Result Snapshot)
      → IsSound (record c { registry = r })
      → IsSound (added w state op c (r, result)).0
  unfolding added
  added-IsSound op c r (err e) sound = sound
  added-IsSound op c r (ok snapshot) sound =
      finished-IsSound snapshot.id _ _
        (activated-IsSound _ (reported-IsSound _ sound) snapshot.id op)

  pub register-IsSound :
      (op : String) (spec : Result AddSpec) (c : Subscriptions)
      → c.registry.next_id + 1 < 2 ^ 64
      → IsSound c
      → IsSound (register w state op spec c).0
  unfolding register
  register-IsSound op (err e) c room sound = sound
  register-IsSound op (ok spec) c room sound =
      added-IsSound op c (add c.registry spec).0 (add c.registry spec).1
        (behind_add-IsSound spec c room sound)
