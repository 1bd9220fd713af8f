-- ===== src/Handlers/Undone.antt =====
-- A registration that fails (agentcore/handlers_runtime.go) leaves nothing behind.
use Prim.Native.Nat.{◌^◌}
use tip_olg_nats_agent_core.Common.{
  ℕ, ◌+◌, ◌<◌, String, ◌≡◌, ◌≢◌, refl, sym, ap, ◌∙◌, inl, inr, false, Option, none, some, List,
  arith, nat_eq, nat_eq_iff, lookup, nat_key, string_key, lookup-insert, lookup-delete, Bool-cases,
  Option-cases, if_lem, if◌then◌else◌,
}
use tip_olg_nats_agent_core.Errors.{Error, is_nil}
use tip_olg_nats_agent_core.Results.{Result, ok, err}
use tip_olg_nats_agent_core.Session.{ConnectionState}
use tip_olg_nats_agent_core.Registry.{
  Registry, RegId, AddSpec, ActiveHandle, Snapshot, add, bump, new_entry, validate_add_spec,
  registration_key, remove, snapshot_from_entry,
}
use tip_olg_nats_agent_core.Registry.Invariant.{IsValid, bump_lem, fresh}
use tip_olg_nats_agent_core.Handlers.{Topic, Nats, Subscriptions, sync_subscription_health}
use tip_olg_nats_agent_core.Handlers.Views.{View, IsOwned, same-IsOwned}
use tip_olg_nats_agent_core.Handlers.Owned.{IsSound, entry_view, registry_view}
use tip_olg_nats_agent_core.Handlers.Activate.{
  activate_after_registration, activate_registered_subscription_by_id, is_waiting, removed,
  rollback_registration,
}
use tip_olg_nats_agent_core.Handlers.Activated.{Touches, activate_by_id-Keeps, reported-IsSound}
use tip_olg_nats_agent_core.Handlers.Ended.{cleanup_fields}
use tip_olg_nats_agent_core.Handlers.Registered.{register-IsSound, behind_add-IsSound}
use tip_olg_nats_agent_core.Handlers.Register.{finished, added, register}

-- The view determines what is live.
pub IsOwned-live :
    (v : View) (live live' : List (ℕ × Topic)) (made made' : ℕ)
    → IsOwned v live made
    → IsOwned v live' made'
    → (s : ℕ) → lookup s live ≡ lookup s live'
IsOwned-live v live live' made made' o o' s = elim (Option-cases (lookup s live)) [
  | inr (t, h) ↦ let (i, k) = o.owned s t h in h ∙ sym (o'.held i s t k)
  | inl h ↦ elim (Option-cases (lookup s live')) [
    | inl h' ↦ h ∙ sym h'
    | inr (t, h') ↦ let (i, k) = o'.owned s t h' in absurd (ground (arith, o.held i s t k))
  ]
]

-- Behind Add: on an error the entries are as they were; else one is new.
Fails : Registry → Registry × Result Snapshot → Type 0
Fails r (r', err e) = r'.entries ≡ r.entries
Fails r (r', ok snapshot) =
    (lookup snapshot.id r.entries ≡ none)
    × ((j : ℕ) → j ≢ snapshot.id → lookup j r'.entries ≡ lookup j r.entries)

add-Fails :
    (r : Registry) (spec : AddSpec) → r.next_id + 1 < 2 ^ 64 → IsValid r → Fails r (add r spec)
unfolding add Fails snapshot_from_entry new_entry
add-Fails r spec room valid = elim (Bool-cases (is_nil (validate_add_spec spec))) [
  | inr bad ↦ rw bad refl
  | inl good ↦
      rw good
        (elim (Option-cases
          (lookup (registration_key spec.kind spec.subject spec.queue_group) r.by_key)) [
            | inl free ↦ rw free (
              fresh r valid (bump r.next_id) (omega (arith, bump_lem r.next_id room)),
              λ j ne. ground (
                arith,
                lookup-insert (bump r.next_id) j (new_entry (bump r.next_id) spec) r.entries,
                nat_eq_iff (bump r.next_id) j,
              ),
            )
            | inr (x, taken) ↦ rw taken refl
          ])
]

removed-registry :
    (w : Nats) (r : Registry) (o : Option ActiveHandle) (c : Subscriptions)
    → (removed w (r, o) c).registry ≡ r
unfolding removed sync_subscription_health
removed-registry w r none c = refl
removed-registry w r (some handle) c = (cleanup_fields w handle.sub (record c { registry = r })).0

remove-lookup :
    (r : Registry) (i j : RegId)
    → lookup j (remove r i).0.entries ≡ (if nat_eq i j then none else lookup j r.entries)
unfolding remove
remove-lookup r i j = ground (arith, nat_eq_iff i j, lookup-delete i j r.entries)

module _ (w : Nats) (state : ConnectionState) where
  after-Touches :
      (i : RegId) (op : String) (c : Subscriptions)
      → IsSound c
      → Touches i c (activate_after_registration w state i op c).0
  unfolding activate_after_registration sync_subscription_health
  after-Touches i op c sound =
      let others = (activate_by_id-Keeps w c sound i op).1 in
      if_lem (λ (z : Subscriptions × Error). Touches i c z.0) (is_waiting state) _ _
        (λ h j ne. refl)
        (λ h.
          if_lem (Touches i c) (is_nil (activate_registered_subscription_by_id w i false op c).1) _
            _ (λ k. others) (λ k. others))

  -- The entries behind a handler that was added and could not be activated.
  finished-entries :
      (i : RegId) (c c' : Subscriptions) (e : Error)
      → lookup i c.registry.entries ≡ none
      → Touches i c c'
      → is_nil (finished w state i (c', e)).1 ≡ false
      → (j : RegId)
      → lookup j (finished w state i (c', e)).0.registry.entries ≡ lookup j c.registry.entries
  unfolding finished rollback_registration
  finished-entries i c c' e absent others =
      if_lem
        (λ (z : Subscriptions × Error).
          is_nil z.1 ≡ false
          → (j : RegId) → lookup j z.0.registry.entries ≡ lookup j c.registry.entries)
        (is_nil e) _ _ (λ h bad. absurd (ground arith))
        (λ h bad j.
          ap (λ (r : Registry). lookup j r.entries) (removed-registry w _ _ c')
          ∙ remove-lookup c'.registry i j
          ∙ elim (Bool-cases (nat_eq i j)) [
            | inl here ↦ ground (arith, nat_eq_iff i j)
            | inr there ↦ ground (arith, nat_eq_iff i j, others j)
          ])

  added-entries :
      (op : String) (c : Subscriptions) (r : Registry) (result : Result Snapshot)
      → IsSound (record c { registry = r })
      → Fails c.registry (r, result)
      → is_nil (added w state op c (r, result)).1 ≡ false
      → (j : RegId)
      → lookup j (added w state op c (r, result)).0.registry.entries ≡ lookup j c.registry.entries
  unfolding added Fails sync_subscription_health
  added-entries op c r (err e) sound same bad j = ap (lookup j) same
  added-entries op c r (ok snapshot) sound (absent, others) bad j =
      let before = sync_subscription_health (record c { registry = r }) in
      let behind = activate_after_registration w state snapshot.id op before in
      finished-entries snapshot.id c behind.0 behind.1 absent
        (λ k ne. after-Touches snapshot.id op before (reported-IsSound _ sound) k ne ∙ others k ne)
        bad j

  register-entries :
      (op : String) (spec : Result AddSpec) (c : Subscriptions)
      → c.registry.next_id + 1 < 2 ^ 64
      → IsSound c
      → is_nil (register w state op spec c).1 ≡ false
      → (j : RegId)
      → lookup j (register w state op spec c).0.registry.entries ≡ lookup j c.registry.entries
  unfolding register
  register-entries op (err e) c room sound bad j = refl
  register-entries op (ok spec) c room sound bad j =
      added-entries op c (add c.registry spec).0 (add c.registry spec).1
        (behind_add-IsSound spec c room sound) (add-Fails c.registry spec room sound.valid) bad j

  -- A register method that returns an error leaves nothing behind, wherever it fails: each registration
  -- is as it was, and NATS has the subscriptions that it had. The conditions: a sound state, and room for
  -- one more id below 2^64.
  pub register_undone :
      (op : String) (spec : Result AddSpec) (c : Subscriptions)
      → c.registry.next_id + 1 < 2 ^ 64
      → IsSound c
      → is_nil (register w state op spec c).1 ≡ false
      → let c' = (register w state op spec c).0 in
        ((j : RegId) → lookup j c'.registry.entries ≡ lookup j c.registry.entries)
        × ((s : ℕ) → lookup s c'.live ≡ lookup s c.live)
  register_undone op spec c room sound bad =
      let c' = (register w state op spec c).0 in
      let same = register-entries op spec c room sound bad in
      let sound' = register-IsSound w state op spec c room sound in
      let o =
        same-IsOwned _ c.live c.made sound.owned (registry_view c'.registry)
          (λ j. ap entry_view (same j)) in
      (same, IsOwned-live (registry_view c'.registry) c'.live c.live c'.made c.made sound'.owned o)
