-- ===== src/Registry/Invariant.antt =====
-- What holds of a registry between two calls of its methods.
use Prim.Native.Nat.{◌^◌}
use tip_olg_nats_agent_core.Common.{
  ℕ, ◌+◌, ◌≤◌, ◌<◌, String, ◌==◌, ◌≡◌, refl, ◌⊎◌, none, some, arith, is_some, nat_eq_iff, eq_iff,
  lookup, insert, nat_key, string_key, Unique, lookup-insert, insert-Unique, Option-cases,
  Bool-cases, inl, inr,
}
use tip_olg_nats_agent_core.Registry.{
  Registry, Entry, RegId, AddSpec, new, bump, registration_key, new_entry,
}

-- An entry under its id: the key index leads back to it, its key is that of its fields, and it is
-- active exactly if it has a live subscription.
pub record IsRegistered (r : Registry) (id : RegId) (e : Entry) : Type 0 where
  pub same_id : e.id ≡ id
  pub bounded : id ≤ r.next_id
  pub keyed : lookup e.key r.by_key ≡ some id
  pub key_fields : e.key ≡ registration_key e.kind e.subject e.queue_group
  pub live : e.active ≡ is_some e.active_sub

pub record IsValid (r : Registry) : Type 0 where
  pub entries_ok : (id : RegId) (e : Entry) → lookup id r.entries ≡ some e → IsRegistered r id e
  pub keys_ok :
      (k : String) (id : RegId)
      → lookup k r.by_key ≡ some id
      → (e : Entry) × (lookup id r.entries ≡ some e) × (e.key ≡ k)
  pub one_entry : Unique r.entries
  pub one_key : Unique r.by_key

pub new-IsValid : IsValid new
unfolding new lookup
new-IsValid = record {
  entries_ok = λ id e h. absurd (ground arith);
  keys_ok = λ k id h. absurd (ground arith);
  one_entry = tt;
  one_key = tt;
}

pub bump_lem : (n : ℕ) → n + 1 < 2 ^ 64 → bump n ≡ n + 1
unfolding bump
bump_lem n h = omega arith

-- An id above the counter is free.
pub fresh :
    (r : Registry) (v : IsValid r) (id : RegId) → r.next_id < id → lookup id r.entries ≡ none
fresh r v id h = elim (Option-cases (lookup id r.entries)) [
  | inl e ↦ e
  | inr (e, found) ↦ let entry = v.entries_ok id e found in absurd (omega arith)
]

-- The registry after a successful Add.
module _ (r : Registry) (v : IsValid r) (room : r.next_id + 1 < 2 ^ 64) (spec : AddSpec)
    (free : lookup (registration_key spec.kind spec.subject spec.queue_group) r.by_key ≡ none) where
  unfoldable pub id : RegId
  id = bump r.next_id

  abbrev pub added : Registry
  added = record {
    next_id = id;
    entries = insert id (new_entry id spec) r.entries;
    by_key = insert (registration_key spec.kind spec.subject spec.queue_group) id r.by_key;
  }

  -- What a lookup in the new entries finds.
  added_cases :
      (i : RegId) (e : Entry)
      → lookup i added.entries ≡ some e
      → ((i ≡ id) × (e ≡ new_entry id spec)) ⊎ (lookup i r.entries ≡ some e)
  added_cases i e h =
      ground (arith, lookup-insert id i (new_entry id spec) r.entries, nat_eq_iff id i)

  abbrev spec_key : String
  spec_key = registration_key spec.kind spec.subject spec.queue_group

  new_entry-IsRegistered : IsRegistered added id (new_entry id spec)
  unfolding new_entry id
  new_entry-IsRegistered = record {
    same_id = refl;
    bounded = omega arith;
    keyed = ground (arith, lookup-insert spec_key spec_key id r.by_key, eq_iff spec_key spec_key);
    key_fields = refl;
    live = refl;
  }

  old-IsRegistered : (i : RegId) (e : Entry) → lookup i r.entries ≡ some e → IsRegistered added i e
  unfolding id
  old-IsRegistered i e h =
      let old = v.entries_ok i e h in
      record {
        same_id = old.same_id;
        bounded = omega (arith, old.bounded, bump_lem r.next_id room);
        keyed =
            ground
              (arith, lookup-insert spec_key e.key id r.by_key, eq_iff spec_key e.key, old.keyed);
        key_fields = old.key_fields;
        live = old.live;
      }

  added-IsRegistered :
      (i : RegId) (e : Entry) → lookup i added.entries ≡ some e → IsRegistered added i e
  added-IsRegistered i e h = elim (added_cases i e h) [
    | inl (same, found) ↦ rw (same, found) new_entry-IsRegistered
    | inr found ↦ old-IsRegistered i e found
  ]

  kept : (i : RegId) (e : Entry) → lookup i r.entries ≡ some e → lookup i added.entries ≡ some e
  unfolding id
  kept i e found = ground (
    arith,
    lookup-insert id i (new_entry id spec) r.entries,
    nat_eq_iff id i,
    (v.entries_ok i e found).bounded,
    bump_lem r.next_id room,
  )

  added-keys_ok :
      (k : String) (i : RegId)
      → lookup k added.by_key ≡ some i
      → (e : Entry) × (lookup i added.entries ≡ some e) × (e.key ≡ k)
  unfolding new_entry
  added-keys_ok k i h = elim (Bool-cases (spec_key == k)) [
    | inl e ↦ (
      new_entry id spec,
      ground (
        arith,
        lookup-insert spec_key k id r.by_key,
        lookup-insert id i (new_entry id spec) r.entries,
        nat_eq_iff id i,
      ),
      (eq_iff spec_key k).0 e,
    )
    | inr e ↦
        let before : lookup k r.by_key ≡ some i =
          ground (arith, lookup-insert spec_key k id r.by_key) in
        let (x, found, same) = v.keys_ok k i before in (x, kept i x found, same)
  ]

  pub added-IsValid : IsValid added
  added-IsValid = record {
    entries_ok = added-IsRegistered;
    keys_ok = added-keys_ok;
    one_entry = insert-Unique _ _ r.entries v.one_entry;
    one_key = insert-Unique _ _ r.by_key v.one_key;
  }
