-- ===== src/Handlers/Owned.antt =====
-- The operations of agentcore/handlers_runtime.go on single registrations, seen through the view of
-- the registry.

use tip_olg_nats_agent_core.Common.{
  ℕ, ◌≡◌, refl, Option, none, some, arith, nat_eq_iff, lookup, nat_key, lookup-delete,
  lookup-modify,
}
use tip_olg_nats_agent_core.Errors.{Error}
use tip_olg_nats_agent_core.Registry.{
  Registry, Entry, RegId, Sub, mark_active, mark_inactive, remove, activate, deactivate,
}
use tip_olg_nats_agent_core.Registry.Invariant.{IsValid}
use tip_olg_nats_agent_core.Handlers.{Topic, Subscriptions, topic_of}
use tip_olg_nats_agent_core.Handlers.Views.{View, IsOwned, set_view}

-- The topic of an entry, and what it owns.
abbrev pub entry_topic : Entry → Topic
entry_topic e = topic_of e.subject e.queue_group e.callback

abbrev pub entry_view : Option Entry → Option (Topic × Option ℕ)
entry_view none = none
entry_view (some e) = some (entry_topic e, e.active_sub)

abbrev pub registry_view : Registry → View
registry_view r i = entry_view (lookup i r.entries)

-- What a change of the subscription makes of one view.
abbrev pub with_sub : Option ℕ → Option (Topic × Option ℕ) → Option (Topic × Option ℕ)
with_sub x none = none
with_sub x (some (t, old)) = some (t, x)

pub mark_active-view :
    (r : Registry) (i : RegId) (sub : Sub) (j : ℕ)
    → registry_view (mark_active r i sub).0 j
      ≡ set_view i (with_sub sub (registry_view r i)) (registry_view r) j
unfolding mark_active activate
mark_active-view r i sub j =
    ground (arith, nat_eq_iff i j, lookup-modify i j (activate sub) r.entries)

pub mark_inactive-view :
    (r : Registry) (i : RegId) (e : Error) (j : ℕ)
    → registry_view (mark_inactive r i e) j
      ≡ set_view i (with_sub none (registry_view r i)) (registry_view r) j
unfolding mark_inactive deactivate
mark_inactive-view r i e j =
    ground (arith, nat_eq_iff i j, lookup-modify i j (deactivate e) r.entries)

pub remove-view :
    (r : Registry) (i : RegId) (j : ℕ)
    → registry_view (remove r i).0 j ≡ set_view i none (registry_view r) j
unfolding remove
remove-view r i j = ground (arith, nat_eq_iff i j, lookup-delete i j r.entries)

-- What a change of the subscription makes of the view of a registration.
pub with_sub-view :
    (r : Registry) (i : RegId) (e : Entry) (x : Option ℕ)
    → lookup i r.entries ≡ some e
    → with_sub x (registry_view r i) ≡ some (entry_topic e, x)
with_sub-view r i e x h = rw h refl

-- The registry is valid, and NATS has exactly the subscriptions that it owns.
pub record IsSound (c : Subscriptions) : Type 0 where
  pub valid : IsValid c.registry
  pub owned : IsOwned (registry_view c.registry) c.live c.made
