-- ===== src/Handlers/Counter.antt =====
-- The counter of registration ids (agentcore/handlers_runtime.go): only a registration moves it, by one.

use tip_olg_nats_agent_core.Common.{
  ℕ, suc, ◌+◌, ◌≤◌, String, ◌≡◌, refl, ap, ◌∙◌, inl, inr, true, false, not, ◌&&◌, Option, none,
  some, List, [], ◌∷◌, arith, is_some, lookup, nat_key, string_key, Bool-cases, Option-cases,
  if_lem,
}
use tip_olg_nats_agent_core.Errors.{Error, nil, is_nil}
use tip_olg_nats_agent_core.Results.{Result, ok, err}
use tip_olg_nats_agent_core.Session.{ConnectionState}
use tip_olg_nats_agent_core.Registry.{
  Registry, RegId, Sub, AddSpec, Snapshot, ActiveHandle, ActivationRecord, mark_active,
  mark_inactive, remove, add, bump, validate_add_spec, registration_key, get_activation_record,
  clear_active_handles, restore_records,
}
use tip_olg_nats_agent_core.Handlers.{
  Topic, Nats, Subscriptions, unsubscribe, cleanup_subscription, sync_subscription_health,
}
use tip_olg_nats_agent_core.Handlers.Subscribe.{create_subscription_for_record}
use tip_olg_nats_agent_core.Handlers.Made.{Made, create-Made}
use tip_olg_nats_agent_core.Handlers.Activate.{
  settle, created, activate_record_locked, activate_found, activate_registered_subscription_by_id,
  activate_each, is_waiting, activate_all_registered_subscriptions, activate_after_registration,
  removed, rollback_registration, deactivate_all_subscriptions, activation_record_by_id,
}
use tip_olg_nats_agent_core.Handlers.Ended.{cleanup_fields, unsubscribe_each-lookup}
use tip_olg_nats_agent_core.Handlers.Register.{finished, added, register}
use tip_olg_nats_agent_core.Handlers.Restore.{
  Created, drop_stale, restored, restore_one, restore_each, give_up, let_go, take_over,
  take_over_each, restore_rest, restore_from, restore_all_registered_subscriptions,
}

abbrev pub counter : Subscriptions → ℕ
counter c = c.registry.next_id

mark_active-next_id :
    (r : Registry) (i : RegId) (sub : Sub) → (mark_active r i sub).0.next_id ≡ r.next_id
unfolding mark_active
mark_active-next_id r i sub = ground arith

mark_inactive-next_id :
    (r : Registry) (i : RegId) (e : Error) → (mark_inactive r i e).next_id ≡ r.next_id
unfolding mark_inactive
mark_inactive-next_id r i e = ground arith

remove-next_id : (r : Registry) (i : RegId) → (remove r i).0.next_id ≡ r.next_id
unfolding remove
remove-next_id r i = ground arith

add-next_id : (r : Registry) (spec : AddSpec) → (add r spec).0.next_id ≤ r.next_id + 1
unfolding add bump
add-next_id r spec = elim (Bool-cases (is_nil (validate_add_spec spec))) [
  | inr bad ↦ rw bad (omega arith)
  | inl good ↦
      rw good
        (elim (Option-cases
          (lookup (registration_key spec.kind spec.subject spec.queue_group) r.by_key)) [
            | inl free ↦ rw free (omega arith)
            | inr (x, taken) ↦ rw taken (omega arith)
          ])
]

cleanup-counter :
    (w : Nats) (sub : Sub) (c : Subscriptions) → counter (cleanup_subscription w sub c) ≡ counter c
cleanup-counter w sub c = ap (λ (r : Registry). r.next_id) (cleanup_fields w sub c).0

Made-counter :
    (c c' : Subscriptions) (t : Topic) (r : Result ℕ) → Made c t (c', r) → counter c' ≡ counter c
Made-counter c c' t (err e) m = ap (λ (r : Registry). r.next_id) m.0
Made-counter c c' t (ok s) m = ap (λ (r : Registry). r.next_id) m.0

created-counter :
    (w : Nats) (i : RegId) (c : Subscriptions) (r : Result ℕ)
    → counter (created w i (c, r)).0 ≡ counter c
unfolding created settle
created-counter w i c (err e) = mark_inactive-next_id c.registry i e
created-counter w i c (ok s) =
    if_lem (λ z. counter z ≡ counter c) (is_some (get_activation_record c.registry i)) _ _
      (λ h. cleanup-counter w _ _ ∙ mark_active-next_id c.registry i (some s))
      (λ h. cleanup-counter w _ c)

record-counter :
    (w : Nats) (rec : ActivationRecord) (op : String) (c : Subscriptions)
    → counter (activate_record_locked w rec false op true c).0 ≡ counter c
unfolding activate_record_locked
record-counter w rec op c =
    if_lem (λ (z : Subscriptions × Error). counter z.0 ≡ counter c) (rec.active && not false) _ _
      (λ h. refl)
      (λ h.
        created-counter w rec.id _ _
        ∙ Made-counter c (create_subscription_for_record w rec op true c).0 _ _
            (create-Made w rec op true c))

each-counter :
    (w : Nats) (recs : List ActivationRecord) (op : String) (sum : Error) (c : Subscriptions)
    → counter (activate_each w recs op sum c).0 ≡ counter c
unfolding activate_each
each-counter w [] op sum c = refl
each-counter w (rec ∷ recs) op sum c = each-counter w recs op _ _ ∙ record-counter w rec op c

pub all-counter :
    (w : Nats) (op : String) (c : Subscriptions)
    → counter (activate_all_registered_subscriptions w op c).0 ≡ counter c
unfolding activate_all_registered_subscriptions sync_subscription_health
all-counter w op c = each-counter w (restore_records c.registry) op nil c

found-counter :
    (w : Nats) (o : Option ActivationRecord) (op : String) (c : Subscriptions)
    → counter (activate_found w o false op c).0 ≡ counter c
unfolding activate_found
found-counter w none op c = refl
found-counter w (some rec) op c = record-counter w rec op c

after-counter :
    (w : Nats) (state : ConnectionState) (i : RegId) (op : String) (c : Subscriptions)
    → counter (activate_after_registration w state i op c).0 ≡ counter c
unfolding activate_after_registration activate_registered_subscription_by_id
    sync_subscription_health
after-counter w state i op c =
    let same = found-counter w (activation_record_by_id i false c) op c in
    if_lem (λ (z : Subscriptions × Error). counter z.0 ≡ counter c) (is_waiting state) _ _
      (λ h. refl)
      (λ h.
        if_lem (λ z. counter z ≡ counter c)
          (is_nil (activate_registered_subscription_by_id w i false op c).1) _ _ (λ k. same)
          (λ k. same))

removed-counter :
    (w : Nats) (r : Registry) (o : Option ActiveHandle) (c : Subscriptions)
    → counter (removed w (r, o) c) ≡ r.next_id
unfolding removed sync_subscription_health
removed-counter w r none c = refl
removed-counter w r (some handle) c = cleanup-counter w handle.sub (record c { registry = r })

added-counter :
    (w : Nats) (state : ConnectionState) (op : String) (c : Subscriptions) (r : Registry)
    (result : Result Snapshot)
    → counter (added w state op c (r, result)).0 ≡ r.next_id
unfolding added finished rollback_registration sync_subscription_health
added-counter w state op c r (err e) = refl
added-counter w state op c r (ok snapshot) =
    let c' = sync_subscription_health (record c { registry = r }) in
    let z = activate_after_registration w state snapshot.id op c' in
    let same = after-counter w state snapshot.id op c' in
    if_lem (λ (z : Subscriptions × Error). counter z.0 ≡ r.next_id) (is_nil z.1) _ _ (λ h. same)
      (λ h. removed-counter w _ _ z.0 ∙ remove-next_id z.0.registry snapshot.id ∙ same)

pub register-counter :
    (w : Nats) (state : ConnectionState) (op : String) (spec : Result AddSpec) (c : Subscriptions)
    → counter (register w state op spec c).0 ≤ counter c + 1
unfolding register
register-counter w state op (err e) c = omega arith
register-counter w state op (ok spec) c = omega (
  arith,
  added-counter w state op c (add c.registry spec).0 (add c.registry spec).1,
  add-next_id c.registry spec,
)

pub deactivate-counter :
    (w : Nats) (op : String) (c : Subscriptions)
    → counter (deactivate_all_subscriptions w op c).0 ≡ counter c
unfolding deactivate_all_subscriptions sync_subscription_health clear_active_handles
deactivate-counter w op c =
    ap (λ (r : Registry). r.next_id)
      (unsubscribe_each-lookup w (clear_active_handles c.registry).1 op nil
        (record c { registry = (clear_active_handles c.registry).0 })).0

stale-counter :
    (w : Nats) (rec : ActivationRecord) (c : Subscriptions)
    → counter (drop_stale w rec c) ≡ counter c
unfolding drop_stale
stale-counter w rec c =
    if_lem (λ z. counter z ≡ counter c) (rec.active && is_some rec.active_sub) _ _
      (λ h. cleanup-counter w rec.active_sub c) (λ h. refl)

restored-counter :
    (w : Nats) (i : RegId) (made : Created) (sum : Error) (c : Subscriptions) (r : Result ℕ)
    → counter (restored w i made sum (c, r)).0 ≡ counter c
unfolding restored
restored-counter w i made sum c (err e) = mark_inactive-next_id c.registry i e
restored-counter w i made sum c (ok s) = refl

loop-counter :
    (w : Nats) (recs : List ActivationRecord) (made : Created) (sum : Error) (c : Subscriptions)
    → counter (restore_each w recs made sum c).0 ≡ counter c
unfolding restore_each restore_one
loop-counter w [] made sum c = refl
loop-counter w (rec ∷ recs) made sum c =
    loop-counter w recs _ _ _
    ∙ restored-counter w rec.id made sum _ _
    ∙ Made-counter (drop_stale w rec c)
        (create_subscription_for_record w rec "restore_subscriptions" false (drop_stale w rec c)).0
        _ _ (create-Made w rec "restore_subscriptions" false (drop_stale w rec c))
    ∙ stale-counter w rec c

give_up-counter :
    (w : Nats) (e : Error) (made : Created) (c : Subscriptions)
    → counter (give_up w e made c) ≡ counter c
unfolding give_up unsubscribe
give_up-counter w e [] c = refl
give_up-counter w e ((i, s) ∷ made) c =
    give_up-counter w e made _ ∙ mark_inactive-next_id c.registry i e

let_go-counter :
    (w : Nats) (sub : Option ℕ) (c : Subscriptions) → counter (let_go w sub c) ≡ counter c
unfolding let_go unsubscribe
let_go-counter w none c = refl
let_go-counter w (some s) c = refl

take_over-counter :
    (w : Nats) (made : Created) (c : Subscriptions) → counter (take_over_each w made c) ≡ counter c
unfolding take_over_each take_over
take_over-counter w [] c = refl
take_over-counter w ((i, s) ∷ made) c =
    take_over-counter w made _
    ∙ if_lem (λ z. counter z ≡ counter c) (is_some (get_activation_record c.registry i)) _ _
        (λ h. let_go-counter w _ _ ∙ mark_active-next_id c.registry i (some s))
        (λ h. let_go-counter w _ c)

rest-counter :
    (w : Nats) (made : Created) (sum : Error) (c : Subscriptions)
    → counter (restore_rest w made sum c).0 ≡ counter c
unfolding restore_rest sync_subscription_health
rest-counter w [] sum c = refl
rest-counter w (first ∷ made) sum c =
    let P : Subscriptions × Error → Type 0 = λ z. counter z.0 ≡ counter c in
    if_lem P (is_nil (w.answer c.asked)) _ _
      (λ h.
        if_lem P (is_nil (w.answer (suc c.asked))) _ _ (λ k. take_over-counter w _ _)
          (λ k. give_up-counter w _ _ _))
      (λ h. give_up-counter w _ _ _)

from-counter :
    (w : Nats) (recs : List ActivationRecord) (c : Subscriptions)
    → counter (restore_from w recs c).0 ≡ counter c
unfolding restore_from
from-counter w [] c = refl
from-counter w (rec ∷ recs) c = rest-counter w _ _ _ ∙ loop-counter w (rec ∷ recs) [] nil c

pub restore-counter :
    (w : Nats) (c : Subscriptions)
    → counter (restore_all_registered_subscriptions w c).0 ≡ counter c
unfolding restore_all_registered_subscriptions
restore-counter w c = from-counter w (restore_records c.registry) c
