-- ===== src/Registry/Intents.antt =====
-- What Add and Remove do to the registered intents.
use Prim.Native.String.{◌++◌}
use tip_olg_nats_agent_core.Strings.{trim_space}
use Prim.Native.Nat.{◌^◌}
use tip_olg_nats_agent_core.Common.{
  ◌+◌, ◌<◌, String, ◌≡◌, refl, ◌↔◌, ◌≢◌, inl, inr, Bool, true, false, none, some, arith, nat_eq_iff,
  eq_iff, lookup, insert, delete, nat_key, string_key, lookup-insert, lookup-delete, Option-cases,
}
use tip_olg_nats_agent_core.Errors.{nil}
use tip_olg_nats_agent_core.Results.{Result, ok, err}
use tip_olg_nats_agent_core.Registry.{
  Registry, Entry, RegId, AddSpec, Snapshot, add, remove, bump, validate_add_spec, registration_key,
  new_entry, snapshot_from_entry, conflict,
}
use tip_olg_nats_agent_core.Registry.Invariant.{IsValid, bump_lem, fresh}

-- An intent with the key is registered.
abbrev pub IsTaken : Registry → String → Type 0
IsTaken r key = (i : RegId) × (e : Entry) × (lookup i r.entries ≡ some e) × (e.key ≡ key)

abbrev pub is_ok {ℓ} : {A : Type ℓ} → Result A → Bool
is_ok (ok a) = true
is_ok (err e) = false

abbrev pub spec_key : AddSpec → String
spec_key spec = registration_key spec.kind spec.subject spec.queue_group

remove-found :
    (q : Registry) (i : RegId) (e : Entry)
    → lookup i q.entries ≡ some e
    → (remove q i).0 ≡ record q { entries = delete i q.entries; by_key = delete e.key q.by_key }
unfolding remove
remove-found q i e h = rw (h, remove) refl

module _ (r : Registry) (v : IsValid r) (spec : AddSpec) (fine : validate_add_spec spec ≡ nil) where
  add-taken :
      (i : RegId)
      → lookup (spec_key spec) r.by_key ≡ some i
      → (add r spec).1 ≡ err (conflict spec i)
  unfolding add
  add-taken i h = rw (fine, h) refl

  add-free :
      lookup (spec_key spec) r.by_key ≡ none
      → add r spec ≡ (
        record {
          next_id = bump r.next_id;
          entries = insert (bump r.next_id) (new_entry (bump r.next_id) spec) r.entries;
          by_key = insert (spec_key spec) (bump r.next_id) r.by_key;
        },
        ok (snapshot_from_entry (new_entry (bump r.next_id) spec)),
      )
  unfolding add
  add-free h = rw (fine, h) refl

  found : (i : RegId) → lookup (spec_key spec) r.by_key ≡ some i → IsTaken r (spec_key spec)
  found i h = let (e, there, same) = v.keys_ok (spec_key spec) i h in (i, e, there, same)

  free_not-IsTaken : lookup (spec_key spec) r.by_key ≡ none → ¬ IsTaken r (spec_key spec)
  free_not-IsTaken free (i, e, there, same) =
      let keyed : lookup (spec_key spec) r.by_key ≡ some i =
        rw same at (v.entries_ok i e there).keyed in
      ground arith

  -- A complete intent is refused exactly if one with the same registration key is registered: with the
  -- same text of its kind, its subject and its queue group, trimmed and joined by '|'.
  pub add_refused_iff :
      (is_ok (add r spec).1 ≡ false)
      ↔ IsTaken r
          (spec.kind ++ ("|" ++ (trim_space spec.subject ++ ("|" ++ trim_space spec.queue_group))))
  unfolding registration_key
  add_refused_iff = elim (Option-cases (lookup (spec_key spec) r.by_key)) [
    | inl free ↦
        (λ h. absurd (ground (arith, add-free free)), λ t. absurd (free_not-IsTaken free t))
    | inr (i, taken) ↦ (λ h. found i taken, λ t. rw (add-taken i taken) refl)
  ]

  -- An accepted intent is registered under a new id, not active, and the other intents stay.
  add_registers :
      (s : Snapshot)
      → r.next_id + 1 < 2 ^ 64
      → (add r spec).1 ≡ ok s
      → (s.id ≡ r.next_id + 1)
        × (s.active ≡ false)
        × (lookup s.id r.entries ≡ none)
        × (lookup s.id (add r spec).0.entries ≡ some (new_entry s.id spec))
        × ((i : RegId) → i ≢ s.id → lookup i (add r spec).0.entries ≡ lookup i r.entries)
  unfolding new_entry snapshot_from_entry
  add_registers s room h = elim (Option-cases (lookup (spec_key spec) r.by_key)) [
    | inr (i, taken) ↦ absurd (ground (arith, add-taken i taken))
    | inl free ↦
        let id = bump r.next_id in
        let same : snapshot_from_entry (new_entry id spec) ≡ s = ground (arith, add-free free) in
        rw (← same, add-free free)
          (
            bump_lem r.next_id room,
            refl,
            fresh r v id (omega (arith, bump_lem r.next_id room)),
            ground (arith, lookup-insert id id (new_entry id spec) r.entries, nat_eq_iff id id),
            λ i other.
                ground (arith, lookup-insert id i (new_entry id spec) r.entries, nat_eq_iff id i),
          )
  ]

  -- Removing an intent that was just added restores every lookup, by id and by key.
  pub remove-add :
      (s : Snapshot)
      → r.next_id + 1 < 2 ^ 64
      → (add r spec).1 ≡ ok s
      → ((i : RegId) → lookup i (remove (add r spec).0 s.id).0.entries ≡ lookup i r.entries)
        × ((k : String) → lookup k (remove (add r spec).0 s.id).0.by_key ≡ lookup k r.by_key)
  unfolding new_entry snapshot_from_entry
  remove-add s room h = elim (Option-cases (lookup (spec_key spec) r.by_key)) [
    | inr (i, taken) ↦ absurd (ground (arith, add-taken i taken))
    | inl free ↦
        let id = bump r.next_id in
        let e = new_entry id spec in
        let same : snapshot_from_entry e ≡ s = ground (arith, add-free free) in
        let there : lookup id (insert id e r.entries) ≡ some e =
          ground (arith, lookup-insert id id e r.entries, nat_eq_iff id id) in
        let after : Registry = record {
          next_id = id;
          entries = insert id e r.entries;
          by_key = insert (spec_key spec) id r.by_key;
        } in
        let gone : (remove (add r spec).0 s.id).0 ≡ record after {
          entries = delete id after.entries;
          by_key = delete (spec_key spec) after.by_key;
        } =
          rw (← same, add-free free) (remove-found after id e there) in
        let unused = fresh r v id (omega (arith, bump_lem r.next_id room)) in
        rw gone (
          λ i. ground (
            arith,
            lookup-delete id i after.entries,
            lookup-insert id i e r.entries,
            nat_eq_iff id i,
          ),
          λ k. ground (
            arith,
            lookup-delete (spec_key spec) k after.by_key,
            lookup-insert (spec_key spec) k id r.by_key,
            eq_iff (spec_key spec) k,
          ),
        )
  ]
