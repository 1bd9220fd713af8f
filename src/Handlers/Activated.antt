-- ===== src/Handlers/Activated.antt =====
-- Activation, rollback and the end of all subscriptions (agentcore/handlers_runtime.go) keep what NATS
-- has equal to what is owned.

use tip_olg_nats_agent_core.Common.{
  ℕ, String, ◌≡◌, ◌≢◌, refl, sym, ap, subst, ◌∙◌, inl, inr, true, false, not, ◌&&◌, Bool, Option,
  none, some, List, [], ◌∷◌, arith, nat_eq_iff, is_some, lookup, nat_key, lookup-modify,
  Option-cases, if_lem,
}
use tip_olg_nats_agent_core.Errors.{Error, nil}
use tip_olg_nats_agent_core.Results.{Result, ok, err}
use tip_olg_nats_agent_core.Registry.{
  Registry, Entry, RegId, Sub, ActivationRecord, activation_from_entry, get_activation_record,
  restore_records, mark_active, mark_inactive, activate, deactivate, stale,
}
use tip_olg_nats_agent_core.Registry.Invariant.{IsValid}
use tip_olg_nats_agent_core.Registry.Behaviour.{mark_active-IsValid, mark_inactive-IsValid}
use tip_olg_nats_agent_core.Handlers.{
  Topic, Nats, Subscriptions, cleanup_subscription, sync_subscription_health,
}
use tip_olg_nats_agent_core.Handlers.Views.{View, IsOwned, set_view, same-IsOwned}
use tip_olg_nats_agent_core.Handlers.Owned.{
  IsSound, entry_topic, registry_view, with_sub, mark_active-view, mark_inactive-view,
}
use tip_olg_nats_agent_core.Handlers.Subscribe.{create_subscription_for_record}
use tip_olg_nats_agent_core.Handlers.Made.{Made, create-Made, Made-IsOwned}
use tip_olg_nats_agent_core.Handlers.Todo.{Current, Todo, Todo-keep, restore_records-Todo}
use tip_olg_nats_agent_core.Handlers.Activate.{
  settle, created, activate_record_locked, activate_registered_subscription_by_id,
  activation_record_by_id, activate_found, activate_each, activate_all_registered_subscriptions,
}

-- Other entries stay as they are.
abbrev pub Touches : RegId → Subscriptions → Subscriptions → Type 0
Touches i c c' = (j : ℕ) → j ≢ i → lookup j c'.registry.entries ≡ lookup j c.registry.entries

pub mark_active-others :
    (r : Registry) (i : RegId) (sub : Sub) (j : ℕ)
    → j ≢ i
    → lookup j (mark_active r i sub).0.entries ≡ lookup j r.entries
unfolding mark_active
mark_active-others r i sub j h =
    ground (arith, nat_eq_iff i j, lookup-modify i j (activate sub) r.entries)

pub mark_inactive-others :
    (r : Registry) (i : RegId) (e : Error) (j : ℕ)
    → j ≢ i
    → lookup j (mark_inactive r i e).entries ≡ lookup j r.entries
unfolding mark_inactive
mark_inactive-others r i e j h =
    ground (arith, nat_eq_iff i j, lookup-modify i j (deactivate e) r.entries)

-- The entry that takes a new subscription gives none back.
mark_active-idle :
    (r : Registry) (i : RegId) (e : Entry) (s : ℕ)
    → lookup i r.entries ≡ some e
    → e.active_sub ≡ none
    → (mark_active r i (some s)).1 ≡ none
unfolding mark_active stale
mark_active-idle r i e s found idle = ground arith

-- A view that is changed to what it is.
set_view_self :
    (v : View) (i : ℕ) (x : Option (Topic × Option ℕ)) (j : ℕ) → v i ≡ x → set_view i x v j ≡ v j
set_view_self v i x j h = ground (arith, nat_eq_iff i j)

module _ (r : Registry) (valid : IsValid r) (i : RegId) (t : Topic) (y : Option ℕ)
    (here : registry_view r i ≡ some (t, y)) (c : Subscriptions) where
  pub inactive-IsSound :
      (x : Error)
      → IsOwned (set_view i (some (t, none)) (registry_view r)) c.live c.made
      → IsSound (record c { registry = mark_inactive r i x })
  inactive-IsSound x o = record {
    valid = mark_inactive-IsValid r i x valid;
    owned = same-IsOwned _ c.live c.made o _ (λ j.
        mark_inactive-view r i x j
        ∙ ap (λ z. set_view i z (registry_view r) j) (ap (with_sub none) here));
  }

  pub active-IsSound :
      (s : ℕ)
      → IsOwned (set_view i (some (t, some s)) (registry_view r)) c.live c.made
      → IsSound (record c { registry = (mark_active r i (some s)).0 })
  active-IsSound s o = record {
    valid = mark_active-IsValid r i (some s) valid;
    owned = same-IsOwned _ c.live c.made o _ (λ j.
        mark_active-view r i (some s) j
        ∙ ap (λ z. set_view i z (registry_view r) j) (ap (with_sub (some s)) here));
  }

-- A registration that is there is found.
pub found-is_some :
    (r : Registry) (i : RegId) (e : Entry)
    → lookup i r.entries ≡ some e
    → is_some (get_activation_record r i) ≡ true
unfolding get_activation_record
found-is_some r i e h = rw (h, get_activation_record) refl

module _ (w : Nats) (c : Subscriptions) (sound : IsSound c) (i : RegId) (e : Entry)
    (found : lookup i c.registry.entries ≡ some e) (idle : e.active_sub ≡ none) where
  view_here : registry_view c.registry i ≡ some (entry_topic e, none)
  view_here = ground arith

  settle_found :
      (s : ℕ) (c' : Subscriptions)
      → c'.registry ≡ c.registry
      → settle w i s c' ≡ record c' { registry = (mark_active c.registry i (some s)).0 }
  unfolding settle cleanup_subscription
  settle_found s c' same =
      rw (same, found-is_some c.registry i e found, mark_active-idle c.registry i e s found idle)
        refl

  pub created-IsSound :
      (c' : Subscriptions) (r : Result ℕ)
      → Made c (entry_topic e) (c', r)
      → IsSound (created w i (c', r)).0 × Touches i c (created w i (c', r)).0
  unfolding created
  created-IsSound c' (err x) (same, bad, l) =
      let o =
        Made-IsOwned (registry_view c.registry) c sound.owned (entry_topic e) i c' (err x)
          (same, bad, l) view_here in
      let kept =
        same-IsOwned _ c'.live c'.made o _
          (λ j. set_view_self (registry_view c.registry) i _ j view_here) in
      rw same (
        inactive-IsSound c.registry sound.valid i (entry_topic e) none view_here c' x kept,
        λ j other. mark_inactive-others c.registry i x j other,
      )
  created-IsSound c' (ok s) m =
      let o =
        Made-IsOwned (registry_view c.registry) c sound.owned (entry_topic e) i c' (ok s) m
          view_here in
      rw (settle_found s c' m.0) (
        active-IsSound c.registry sound.valid i (entry_topic e) none view_here c' s o,
        λ j other. mark_active-others c.registry i (some s) j other,
      )

-- The result of one activation.
abbrev pub Keeps : RegId → Subscriptions → Subscriptions → Type 0
Keeps i c c' = IsSound c' × Touches i c c'

pub activate-Keeps :
    (w : Nats) (c : Subscriptions) (sound : IsSound c) (e : Entry) (op : String) (flush : Bool)
    → lookup e.id c.registry.entries ≡ some e
    → Keeps e.id c (activate_record_locked w (activation_from_entry e) false op flush c).0
unfolding activate_record_locked activation_from_entry
activate-Keeps w c sound e op flush found =
    if_lem (λ (r : Subscriptions × Error). Keeps e.id c r.0) (e.active && not false) _ _
      (λ on. (sound, λ j other. refl))
      (λ off.
        let live = (sound.valid.entries_ok e.id e found).live in
        let idle : e.active_sub ≡ none = ground arith in
        let answer = create_subscription_for_record w (activation_from_entry e) op flush c in
        created-IsSound w c sound e.id e found idle answer.0 answer.1
          (create-Made w (activation_from_entry e) op flush c))

activate_record-Keeps :
    (w : Nats) (c : Subscriptions) (sound : IsSound c) (rec : ActivationRecord) (op : String)
    (flush : Bool)
    → Current c.registry.entries rec
    → Keeps rec.id c (activate_record_locked w rec false op flush c).0
unfolding activation_from_entry
activate_record-Keeps w c sound rec op flush (e, found, same) =
    let named = (sound.valid.entries_ok rec.id e found).same_id in
    let there : lookup e.id c.registry.entries ≡ some e =
      ap (λ k. lookup k c.registry.entries) named ∙ found in
    subst (λ r. Keeps r.id c (activate_record_locked w r false op flush c).0) (sym same)
      (activate-Keeps w c sound e op flush there)

-- The loop over the records.
activate_each-IsSound :
    (w : Nats) (recs : List ActivationRecord) (op : String) (sum : Error) (c : Subscriptions)
    → IsSound c
    → Todo c.registry.entries recs
    → IsSound (activate_each w recs op sum c).0
unfolding activate_each
activate_each-IsSound w [] op sum c sound todo = sound
activate_each-IsSound w (rec ∷ recs) op sum c sound (here, apart, todo) =
    let (sound', others) = activate_record-Keeps w c sound rec op true here in
    activate_each-IsSound w recs op _ _ sound' (Todo-keep _ _ rec.id recs others apart todo)

-- The counts that are reported do not matter here.
pub reported-IsSound : (c : Subscriptions) → IsSound c → IsSound (sync_subscription_health c)
unfolding sync_subscription_health
reported-IsSound c sound = record { valid = sound.valid; owned = sound.owned }

pub activate_all-IsSound :
    (w : Nats) (op : String) (c : Subscriptions)
    → IsSound c
    → IsSound (activate_all_registered_subscriptions w op c).0
unfolding activate_all_registered_subscriptions
activate_all-IsSound w op c sound = reported-IsSound _ (
    activate_each-IsSound w (restore_records c.registry) op nil c sound
      (restore_records-Todo c.registry sound.valid))

-- A record that is found is that of its entry.
found_record :
    (c : Subscriptions) (i : RegId) (rec : ActivationRecord)
    → activation_record_by_id i false c ≡ some rec
    → (e : Entry) × (lookup i c.registry.entries ≡ some e) × (rec ≡ activation_from_entry e)
unfolding activation_record_by_id get_activation_record
found_record c i rec h = elim (Option-cases (lookup i c.registry.entries)) [
  | inl absent ↦ absurd (ground arith)
  | inr (e, there) ↦ (e, there, ground arith)
]

pub activate_by_id-Keeps :
    (w : Nats) (c : Subscriptions) (sound : IsSound c) (i : RegId) (op : String)
    → Keeps i c (activate_registered_subscription_by_id w i false op c).0
unfolding activate_registered_subscription_by_id activate_found activation_from_entry found_record
activate_by_id-Keeps w c sound i op = go (activation_record_by_id i false c) refl
  where
    go :
        (o : Option ActivationRecord)
        → activation_record_by_id i false c ≡ o
        → Keeps i c (activate_found w o false op c).0
    go none h = (sound, λ j ne. refl)
    go (some rec) h =
        let (e, there, same) = found_record c i rec h in
        let named = (sound.valid.entries_ok i e there).same_id in
        let id : rec.id ≡ i = ap (λ (r : ActivationRecord). r.id) same ∙ named in
        subst (λ k. Keeps k c (activate_record_locked w rec false op true c).0) id
          (activate_record-Keeps w c sound rec op true
            (e, ap (λ k. lookup k c.registry.entries) id ∙ there, same))

pub activate_by_id-IsSound :
    (w : Nats) (c : Subscriptions) (sound : IsSound c) (i : RegId) (op : String)
    → IsSound (activate_registered_subscription_by_id w i false op c).0
activate_by_id-IsSound w c sound i op = (activate_by_id-Keeps w c sound i op).0
