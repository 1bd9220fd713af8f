-- ===== src/Handlers/Todo.antt =====
-- The records that a loop of agentcore/handlers_runtime.go has before it: each is that of its entry as
-- it stands, and no two have one id.
use tip_olg_nats_agent_core.Common.{
  ℕ, ◌≡◌, ◌≢◌, refl, sym, subst, ap, ◌∙◌, none, some, List, [], ◌∷◌, All, arith, nat_eq_iff, lookup,
  nat_key, Unique,
}
use tip_olg_nats_agent_core.Registry.{
  Registry, Entry, RegId, ActivationRecord, activation_from_entry, list_activations,
  restore_records,
}
use tip_olg_nats_agent_core.Registry.Invariant.{IsValid}

module _ (entries : List (RegId × Entry)) where
  abbrev pub Current : ActivationRecord → Type 0
  Current rec = (e : Entry) × (lookup rec.id entries ≡ some e) × (rec ≡ activation_from_entry e)

  abbrev pub Todo : List ActivationRecord → Type 0
  Todo [] = Unit
  Todo (rec ∷ recs) = Current rec × All (λ other. other.id ≢ rec.id) recs × Todo recs

-- A change of other entries.
pub Todo-keep :
    (entries entries' : List (RegId × Entry)) (i : ℕ) (recs : List ActivationRecord)
    → ((j : ℕ) → j ≢ i → lookup j entries' ≡ lookup j entries)
    → All (λ other. other.id ≢ i) recs
    → Todo entries recs
    → Todo entries' recs
Todo-keep entries entries' i [] same other todo = tt
Todo-keep entries entries' i (rec ∷ recs) same (ne, nes) ((e, found, eq), apart, todo) =
    ((e, same rec.id ne ∙ found, eq), apart, Todo-keep entries entries' i recs same nes todo)

module _ (full : List (RegId × Entry))
    (named : (i : RegId) (e : Entry) → lookup i full ≡ some e → e.id ≡ i) where
  -- What stands in a list with one pair for each key stands in its tail, or first.
  first :
      (j : RegId) (x : Entry) (m : List (RegId × Entry))
      → ((k : RegId) (y : Entry) → lookup k ((j, x) ∷ m) ≡ some y → lookup k full ≡ some y)
      → lookup j full ≡ some x
  unfolding lookup
  first j x m sub = sub j x (ground (arith, nat_eq_iff j j))

  rest :
      (j : RegId) (x : Entry) (m : List (RegId × Entry))
      → ((k : RegId) (y : Entry) → lookup k ((j, x) ∷ m) ≡ some y → lookup k full ≡ some y)
      → lookup j m ≡ none
      → (k : RegId) (y : Entry) → lookup k m ≡ some y
      → lookup k full ≡ some y
  unfolding lookup
  rest j x m sub f k y h = sub k y (ground (arith, nat_eq_iff j k))

  apart :
      (i : RegId) (m : List (RegId × Entry))
      → lookup i m ≡ none
      → ((j : RegId) (x : Entry) → lookup j m ≡ some x → lookup j full ≡ some x)
      → Unique m
      → All (λ other. other.id ≢ i) (list_activations m)
  unfolding lookup list_activations activation_from_entry
  apart i [] fresh sub u = tt
  apart i ((j, x) ∷ m) fresh sub (f, u) = (
    λ same. ground (arith, named j x (first j x m sub), nat_eq_iff j i),
    apart i m (ground arith) (rest j x m sub f) u,
  )

  all-Todo :
      (m : List (RegId × Entry))
      → ((j : RegId) (x : Entry) → lookup j m ≡ some x → lookup j full ≡ some x)
      → Unique m
      → Todo full (list_activations m)
  unfolding list_activations activation_from_entry
  all-Todo [] sub u = tt
  all-Todo ((j, x) ∷ m) sub (f, u) =
      let found = first j x m sub in
      let same = named j x found in
      (
        (x, ap (λ k. lookup k full) same ∙ found, refl),
        subst (λ k. All (λ other. other.id ≢ k) (list_activations m)) (sym same)
            (apart j m f (rest j x m sub f) u),
        all-Todo m (rest j x m sub f) u,
      )

pub restore_records-Todo : (r : Registry) → IsValid r → Todo r.entries (restore_records r)
unfolding restore_records
restore_records-Todo r v =
    all-Todo r.entries (λ i e h. (v.entries_ok i e h).same_id) r.entries (λ j x h. h) v.one_entry
