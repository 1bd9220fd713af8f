-- ===== src/Registry/Behaviour.antt =====
-- Every sequence of calls keeps the registry's invariant; what Add and Remove do to the intents.
use Prim.Native.Nat.{◌^◌}
use tip_olg_nats_agent_core.Common.{
  ◌+◌, ◌≤◌, ◌<◌, inl, inr, List, [], ◌∷◌, arith, length, lookup, nat_key, string_key, Option-cases,
  Bool-cases,
}
use tip_olg_nats_agent_core.Errors.{Error, is_nil}
use tip_olg_nats_agent_core.Registry.{
  Registry, RegId, AddSpec, Sub, new, add, mark_active, mark_inactive, clear_active_handles, remove,
  bump, validate_add_spec, registration_key,
}
use tip_olg_nats_agent_core.Registry.Invariant.{IsValid, new-IsValid, added-IsValid, bump_lem, id}
use tip_olg_nats_agent_core.Registry.Preservation.{
  modified-IsValid, detached-IsValid, removed-IsValid, activate-IsUpdate, deactivate-IsUpdate,
}

-- The calls that change a registry.
pub data Call : Type 0 where
  adds : AddSpec → Call
  marks_active : RegId → Sub → Call
  marks_inactive : RegId → Error → Call
  clears : Call
  removes : RegId → Call

abbrev pub step : Registry → Call → Registry
step r (adds spec) = (add r spec).0
step r (marks_active i sub) = (mark_active r i sub).0
step r (marks_inactive i e) = mark_inactive r i e
step r clears = (clear_active_handles r).0
step r (removes i) = (remove r i).0

abbrev pub run : Registry → List Call → Registry
run r [] = r
run r (c ∷ calls) = run (step r c) calls

-- A larger counter changes nothing else.
bumped-IsValid :
    (r : Registry)
    → r.next_id + 1 < 2 ^ 64
    → IsValid r
    → IsValid (record r { next_id = bump r.next_id })
bumped-IsValid r room v = record {
  entries_ok = λ i e h.
      let old = v.entries_ok i e h in
      record {
        same_id = old.same_id;
        bounded = omega (arith, old.bounded, bump_lem r.next_id room);
        keyed = old.keyed;
        key_fields = old.key_fields;
        live = old.live;
      };
  keys_ok = v.keys_ok;
  one_entry = v.one_entry;
  one_key = v.one_key;
}

pub add-IsValid :
    (r : Registry) (spec : AddSpec) → r.next_id + 1 < 2 ^ 64 → IsValid r → IsValid (add r spec).0
unfolding add
add-IsValid r spec room v = elim (Bool-cases (is_nil (validate_add_spec spec))) [
  | inr invalid ↦ rw invalid v
  | inl valid ↦
      rw valid
        (elim (Option-cases
          (lookup (registration_key spec.kind spec.subject spec.queue_group) r.by_key)) [
            | inl free ↦ rw free (unfold id in added-IsValid r v room spec free)
            | inr (x, taken) ↦ rw taken (bumped-IsValid r room v)
          ])
]

pub mark_active-IsValid :
    (r : Registry) (i : RegId) (sub : Sub) → IsValid r → IsValid (mark_active r i sub).0
unfolding mark_active
mark_active-IsValid r i sub v = elim (Option-cases (lookup i r.entries)) [
  | inl e ↦ rw (e, mark_active) v
  | inr (x, e) ↦ rw (e, mark_active) (modified-IsValid r v _ (activate-IsUpdate sub) i)
]

pub mark_inactive-IsValid :
    (r : Registry) (i : RegId) (e : Error) → IsValid r → IsValid (mark_inactive r i e)
unfolding mark_inactive
mark_inactive-IsValid r i e v = elim (Option-cases (lookup i r.entries)) [
  | inl h ↦ rw (h, mark_inactive) v
  | inr (x, h) ↦ rw (h, mark_inactive) (modified-IsValid r v _ (deactivate-IsUpdate e) i)
]

pub remove-IsValid : (r : Registry) (i : RegId) → IsValid r → IsValid (remove r i).0
unfolding remove
remove-IsValid r i v = elim (Option-cases (lookup i r.entries)) [
  | inl e ↦ rw (e, remove) v
  | inr (x, e) ↦ rw (e, remove) (removed-IsValid r v i x e)
]

step-IsValid : (r : Registry) (c : Call) → r.next_id + 1 < 2 ^ 64 → IsValid r → IsValid (step r c)
unfolding clear_active_handles
step-IsValid r (adds spec) room v = add-IsValid r spec room v
step-IsValid r (marks_active i sub) room v = mark_active-IsValid r i sub v
step-IsValid r (marks_inactive i e) room v = mark_inactive-IsValid r i e v
step-IsValid r clears room v = detached-IsValid r v
step-IsValid r (removes i) room v = remove-IsValid r i v

step-next_id-le :
    (r : Registry) (c : Call) → r.next_id + 1 < 2 ^ 64 → (step r c).next_id ≤ r.next_id + 1
unfolding add mark_active mark_inactive clear_active_handles remove
step-next_id-le r (adds spec) room = ground (arith, bump_lem r.next_id room)
step-next_id-le r (marks_active i sub) room = ground arith
step-next_id-le r (marks_inactive i e) room = ground arith
step-next_id-le r clears room = omega arith
step-next_id-le r (removes i) room = ground arith

run-IsValid :
    (r : Registry) (calls : List Call)
    → IsValid r
    → r.next_id + length calls < 2 ^ 64
    → IsValid (run r calls)
run-IsValid r [] v room = v
run-IsValid r (c ∷ calls) v room =
    run-IsValid (step r c) calls (step-IsValid r c (omega arith) v)
      (omega (arith, step-next_id-le r c (omega arith)))

-- From an empty registry, fewer than 2^64 calls of its methods, in any order, keep the invariant.
pub run-new-IsValid : (calls : List Call) → length calls < 2 ^ 64 → IsValid (run new calls)
unfolding new
run-new-IsValid calls room = run-IsValid new calls new-IsValid (omega arith)
