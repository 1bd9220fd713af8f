-- ===== src/Registry/Preservation.antt =====
-- Every method of a registry keeps its invariant.

use tip_olg_nats_agent_core.Common.{
  String, ◌==◌, ◌≡◌, refl, sym, ◌∙◌, false, none, some, arith, is_some, nat_eq, nat_eq_iff, eq_iff,
  lookup, delete, modify, map_values, nat_key, string_key, lookup-delete, lookup-modify,
  lookup-map_values, delete-Unique, modify-Unique, map_values-Unique, Option-cases, Bool-cases, inl,
  inr,
}
use tip_olg_nats_agent_core.Errors.{Error}
use tip_olg_nats_agent_core.Registry.Invariant.{IsRegistered, IsValid}
use tip_olg_nats_agent_core.Registry.{
  Registry, Entry, RegId, Sub, registration_key, activate, deactivate, detach,
}

-- A change of an entry that keeps its id, its key and the fields that the key is made from, and
-- leaves it active exactly if it has a subscription.
pub record IsUpdate (f : Entry → Entry) : Type 0 where
  pub same_id : (e : Entry) → (f e).id ≡ e.id
  pub same_key : (e : Entry) → (f e).key ≡ e.key
  pub same_fields :
      (e : Entry)
      → registration_key (f e).kind (f e).subject (f e).queue_group
        ≡ registration_key e.kind e.subject e.queue_group
  pub live : (e : Entry) → (f e).active ≡ is_some (f e).active_sub

pub activate-IsUpdate : (sub : Sub) → IsUpdate (activate sub)
unfolding activate
activate-IsUpdate none = record {
  same_id = λ e. refl;
  same_key = λ e. refl;
  same_fields = λ e. refl;
  live = λ e. refl;
}
activate-IsUpdate (some s) = record {
  same_id = λ e. refl;
  same_key = λ e. refl;
  same_fields = λ e. refl;
  live = λ e. refl;
}

pub deactivate-IsUpdate : (err : Error) → IsUpdate (deactivate err)
unfolding deactivate
deactivate-IsUpdate err = record {
  same_id = λ e. refl;
  same_key = λ e. refl;
  same_fields = λ e. refl;
  live = λ e. refl;
}

pub detach-IsUpdate : IsUpdate detach
unfolding detach
detach-IsUpdate = record {
  same_id = λ e. refl;
  same_key = λ e. refl;
  same_fields = λ e. refl;
  live = λ e. refl;
}

module _ (r : Registry) (v : IsValid r) (f : Entry → Entry) (up : IsUpdate f) where
  updated-IsRegistered :
      (r' : Registry) (i : RegId) (e : Entry)
      → r'.next_id ≡ r.next_id
      → r'.by_key ≡ r.by_key
      → IsRegistered r i e
      → IsRegistered r' i (f e)
  updated-IsRegistered r' i e h k old = record {
    same_id = up.same_id e ∙ old.same_id;
    bounded = omega (arith, old.bounded);
    keyed = rw (k, up.same_key e) old.keyed;
    key_fields = up.same_key e ∙ old.key_fields ∙ sym (up.same_fields e);
    live = up.live e;
  }

  same-IsRegistered :
      (r' : Registry) (i : RegId) (e : Entry)
      → r'.next_id ≡ r.next_id
      → r'.by_key ≡ r.by_key
      → IsRegistered r i e
      → IsRegistered r' i e
  same-IsRegistered r' i e h k old = record {
    same_id = old.same_id;
    bounded = omega (arith, old.bounded);
    keyed = rw k old.keyed;
    key_fields = old.key_fields;
    live = old.live;
  }

  module _ (i : RegId) where
    abbrev pub modified : Registry
    modified = record r { entries = modify i f r.entries }

    modified-IsRegistered :
        (j : RegId) (e : Entry) → lookup j modified.entries ≡ some e → IsRegistered modified j e
    modified-IsRegistered j e h = elim (Option-cases (lookup j r.entries)) [
      | inl missing ↦ absurd (ground (arith, lookup-modify i j f r.entries))
      | inr (x, found) ↦
          let old = v.entries_ok j x found in
          elim (Bool-cases (nat_eq i j)) [
            | inl same ↦
                let new : f x ≡ e = ground (arith, lookup-modify i j f r.entries) in
                rw (← new) (updated-IsRegistered modified j x refl refl old)
            | inr other ↦
                let new : x ≡ e = ground (arith, lookup-modify i j f r.entries) in
                rw (← new) (same-IsRegistered modified j x refl refl old)
          ]
    ]

    modified-keys_ok :
        (k : String) (j : RegId)
        → lookup k r.by_key ≡ some j
        → (e : Entry) × (lookup j modified.entries ≡ some e) × (e.key ≡ k)
    modified-keys_ok k j h =
        let (x, found, same) = v.keys_ok k j h in
        elim (Bool-cases (nat_eq i j)) [
          | inl e ↦ (f x, ground (arith, lookup-modify i j f r.entries), up.same_key x ∙ same)
          | inr e ↦ (x, ground (arith, lookup-modify i j f r.entries), same)
        ]

    pub modified-IsValid : IsValid modified
    modified-IsValid = record {
      entries_ok = modified-IsRegistered;
      keys_ok = modified-keys_ok;
      one_entry = modify-Unique i f r.entries v.one_entry;
      one_key = v.one_key;
    }

module _ (r : Registry) (v : IsValid r) where
  abbrev pub detached : Registry
  detached = record r { entries = map_values detach r.entries }

  detached-IsRegistered :
      (j : RegId) (e : Entry) → lookup j detached.entries ≡ some e → IsRegistered detached j e
  detached-IsRegistered j e h = elim (Option-cases (lookup j r.entries)) [
    | inl missing ↦ absurd (ground (arith, lookup-map_values j detach r.entries))
    | inr (x, found) ↦
        let new : detach x ≡ e = ground (arith, lookup-map_values j detach r.entries) in
        rw (← new) (
          updated-IsRegistered r v detach detach-IsUpdate detached j x refl refl
            (v.entries_ok j x found))
  ]

  pub detached-IsValid : IsValid detached
  detached-IsValid = record {
    entries_ok = detached-IsRegistered;
    keys_ok = λ k j h.
        let (x, found, same) = v.keys_ok k j h in
        (
          detach x,
          ground (arith, lookup-map_values j detach r.entries),
          detach-IsUpdate.same_key x ∙ same,
        );
    one_entry = map_values-Unique detach r.entries v.one_entry;
    one_key = v.one_key;
  }

  module _ (i : RegId) (gone : Entry) (there : lookup i r.entries ≡ some gone) where
    abbrev pub removed : Registry
    removed = record r { entries = delete i r.entries; by_key = delete gone.key r.by_key }

    -- Two ids never share a key.
    other_key :
        (j : RegId) (e : Entry)
        → lookup j r.entries ≡ some e
        → nat_eq i j ≡ false
        → (gone.key == e.key) ≡ false
    other_key j e h other = ground (
      arith,
      (v.entries_ok i gone there).keyed,
      (v.entries_ok j e h).keyed,
      eq_iff gone.key e.key,
    )

    removed-IsRegistered :
        (j : RegId) (e : Entry) → lookup j removed.entries ≡ some e → IsRegistered removed j e
    removed-IsRegistered j e h =
        let other : nat_eq i j ≡ false = ground (arith, lookup-delete i j r.entries) in
        let found : lookup j r.entries ≡ some e = ground (arith, lookup-delete i j r.entries) in
        let old = v.entries_ok j e found in
        record {
          same_id = old.same_id;
          bounded = old.bounded;
          keyed =
              ground (
                arith,
                lookup-delete gone.key e.key r.by_key,
                other_key j e found other,
                old.keyed,
              );
          key_fields = old.key_fields;
          live = old.live;
        }

    removed-keys_ok :
        (k : String) (j : RegId)
        → lookup k removed.by_key ≡ some j
        → (e : Entry) × (lookup j removed.entries ≡ some e) × (e.key ≡ k)
    removed-keys_ok k j h =
        let other : (gone.key == k) ≡ false = ground (arith, lookup-delete gone.key k r.by_key) in
        let found : lookup k r.by_key ≡ some j =
          ground (arith, lookup-delete gone.key k r.by_key) in
        let (x, at_j, same) = v.keys_ok k j found in
        (x, ground (arith, lookup-delete i j r.entries, nat_eq_iff i j, eq_iff gone.key k), same)

    pub removed-IsValid : IsValid removed
    removed-IsValid = record {
      entries_ok = removed-IsRegistered;
      keys_ok = removed-keys_ok;
      one_entry = delete-Unique i r.entries v.one_entry;
      one_key = delete-Unique gone.key r.by_key v.one_key;
    }
