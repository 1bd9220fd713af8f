-- ===== src/Registry/Handles.antt =====
-- What becomes of the live subscriptions: none is replaced or cleared without being handed back.
use mathlib.Core.Option
use tip_olg_nats_agent_core.Common.{
  ℕ, ◌≤◌, ◌≡◌, ◌≢◌, refl, ◌⊎◌, inl, inr, none, some, List, [], ◌∷◌, arith, is_some, length, nat_eq,
  nat_eq_iff, lookup, modify, map_values, nat_key, Unique, lookup-modify, lookup-map_values,
  Option-cases, Bool-cases,
}
use tip_olg_nats_agent_core.Registry.{
  Registry, Entry, RegId, Sub, ActiveHandle, mark_active, clear_active_handles, counts,
  count_active, handles, detach, activate, stale,
}
use tip_olg_nats_agent_core.Registry.Invariant.{IsValid}

-- A handle of this subscription is in the list.
abbrev pub Hands : ℕ → List ActiveHandle → Type 0
Hands s [] = ⊥
Hands s (h ∷ hs) = (h.sub ≡ some s) ⊎ Hands s hs

count_active-le : (m : List (RegId × Entry)) → count_active m ≤ length m
unfolding count_active
count_active-le [] = omega arith
count_active-le ((i, e) ∷ m) = ground (arith, count_active-le m)

-- Counts never reports more active subscriptions than registered ones.
counts-le : (r : Registry) → (counts r).1 ≤ (counts r).0
unfolding counts
counts-le r = count_active-le r.entries

count_active-detached : (m : List (RegId × Entry)) → count_active (map_values detach m) ≡ 0
unfolding count_active map_values detach
count_active-detached [] = refl
count_active-detached ((i, e) ∷ m) = count_active-detached m

length-map_values :
    (f : Entry → Entry) (m : List (RegId × Entry)) → length (map_values f m) ≡ length m
unfolding map_values
length-map_values f [] = refl
length-map_values f ((i, e) ∷ m) = omega (arith, length-map_values f m)

handles-Hands :
    (m : List (RegId × Entry)) (i : RegId) (e : Entry) (s : ℕ)
    → lookup i m ≡ some e
    → e.active_sub ≡ some s
    → Hands s (handles m)
unfolding lookup handles
handles-Hands [] i e s h live = absurd (ground arith)
handles-Hands ((j, x) ∷ m) i e s h live = elim (Bool-cases (nat_eq j i)) [
  | inl here ↦
      let same : x ≡ e = ground arith in
      let found : x.active_sub ≡ some s = ground arith in rw (found, handles) (inl refl)
  | inr there ↦
      let rest = handles-Hands m i e s (ground arith) live in
      elim (Option-cases x.active_sub) [
        | inl idle ↦ rw (idle, handles) rest
        | inr (t, busy) ↦ rw (busy, handles) (inr rest)
      ]
]

length-handles :
    (m : List (RegId × Entry))
    → Unique m
    → ((i : RegId) (e : Entry) → lookup i m ≡ some e → e.active ≡ is_some e.active_sub)
    → length (handles m) ≡ count_active m
unfolding handles count_active lookup
length-handles [] u live = refl
length-handles ((i, e) ∷ m) (fresh, u) live =
    let here : e.active ≡ is_some e.active_sub = live i e (ground (arith, nat_eq_iff i i)) in
    let rest : length (handles m) ≡ count_active m =
      length-handles m u (λ j x h. live j x (ground (arith, nat_eq_iff i j))) in
    ground arith

-- ClearActiveHandles hands back every live subscription of the registry.
pub clear_active_handles-Hands :
    (r : Registry) (i : RegId) (e : Entry) (s : ℕ)
    → lookup i r.entries ≡ some e
    → e.active_sub ≡ some s
    → Hands s (clear_active_handles r).1
unfolding clear_active_handles
clear_active_handles-Hands r i e s h live = handles-Hands r.entries i e s h live

-- In a valid registry ClearActiveHandles hands back as many handles as Counts reported active; after
-- it none is active, as many are registered, and each entry has only lost its subscription.
clear_active_handles-counts :
    (r : Registry)
    → IsValid r
    → (length (clear_active_handles r).1 ≡ (counts r).1)
      × ((counts (clear_active_handles r).0).1 ≡ 0)
      × ((counts (clear_active_handles r).0).0 ≡ (counts r).0)
      × ((i : RegId)
          → lookup i (clear_active_handles r).0.entries ≡ Option.map detach (lookup i r.entries))
unfolding clear_active_handles counts
clear_active_handles-counts r v = (
  length-handles r.entries v.one_entry (λ i e h. (v.entries_ok i e h).live),
  count_active-detached r.entries,
  length-map_values detach r.entries,
  λ i. lookup-map_values i detach r.entries,
)

mark_active-found :
    (r : Registry) (i : RegId) (e : Entry) (sub : Sub)
    → lookup i r.entries ≡ some e
    → mark_active r i sub
      ≡ (record r { entries = modify i (activate sub) r.entries }, stale sub e.active_sub)
unfolding mark_active
mark_active-found r i e sub h = rw (h, mark_active) refl

handed_back :
    (sub : Sub) (s : ℕ)
    → (stale sub (some s) ≡ some s) ⊎ ((sub ≡ some s) × (stale sub (some s) ≡ none))
unfolding stale
handed_back none s = inl refl
handed_back (some t) s = elim (Bool-cases (nat_eq s t)) [
  | inl same ↦ inr (ground (arith, nat_eq_iff s t), rw same refl)
  | inr other ↦ inl (rw other refl)
]

-- MarkActive on a registered entry: the subscription that it held is handed back, unless it is the
-- very one that is stored now; the entry holds the new one, and the others are as before.
mark_active_lem :
    (r : Registry) (i : RegId) (e : Entry) (s : ℕ) (sub : Sub)
    → lookup i r.entries ≡ some e
    → e.active_sub ≡ some s
    → (((mark_active r i sub).1 ≡ some s) ⊎ ((sub ≡ some s) × ((mark_active r i sub).1 ≡ none)))
      × (lookup i (mark_active r i sub).0.entries ≡ some (activate sub e))
      × ((j : RegId) → j ≢ i → lookup j (mark_active r i sub).0.entries ≡ lookup j r.entries)
mark_active_lem r i e s sub h live =
    rw (mark_active-found r i e sub h, live)
      (
        handed_back sub s,
        ground (arith, lookup-modify i i (activate sub) r.entries, nat_eq_iff i i),
        λ j other. ground (arith, lookup-modify i j (activate sub) r.entries, nat_eq_iff i j),
      )
