-- ===== src/Handlers/Reported.antt =====
-- The counts that the session's health shows (agentcore/handlers_runtime.go, syncSubscriptionHealth) are
-- those of the registry behind every operation, also where it fails.
use tip_olg_nats_agent_core.Common.{
  suc, String, ◌≡◌, refl, sym, ◌∙◌, inl, inr, true, false, Bool, Option, none, some, List, [], ◌∷◌,
  arith, lookup, string_key, Bool-cases, Option-cases, if_lem,
}
use tip_olg_nats_agent_core.Errors.{Error, is_nil}
use tip_olg_nats_agent_core.Results.{Result, ok, err}
use tip_olg_nats_agent_core.Session.{ConnectionState}
use tip_olg_nats_agent_core.Registry.{
  Registry, RegId, AddSpec, Snapshot, ActiveHandle, ActivationRecord, add, validate_add_spec,
  registration_key, counts, restore_records,
}
use tip_olg_nats_agent_core.Handlers.{Nats, Subscriptions, sync_subscription_health}
use tip_olg_nats_agent_core.Handlers.Activate.{
  is_waiting, removed, rollback_registration, activate_after_registration,
  activate_registered_subscription_by_id, activate_all_registered_subscriptions,
  deactivate_all_subscriptions,
}
use tip_olg_nats_agent_core.Handlers.Register.{finished, added, register}
use tip_olg_nats_agent_core.Handlers.Restore.{
  Created, restore_rest, restore_from, restore_all_registered_subscriptions,
}

abbrev pub Shows : Subscriptions → Type 0
Shows c = c.reported ≡ counts c.registry

synced-Shows : (c : Subscriptions) → Shows (sync_subscription_health c)
unfolding sync_subscription_health
synced-Shows c = refl

-- Add changes no count where it fails.
Unmoved : Registry → Registry × Result Snapshot → Type 0
Unmoved r (r', err e) = counts r' ≡ counts r
Unmoved r (r', ok snapshot) = ◌≡◌ {A = Bool} true true

add-counts : (r : Registry) (spec : AddSpec) → Unmoved r (add r spec)
unfolding add counts Unmoved
add-counts r spec = elim (Bool-cases (is_nil (validate_add_spec spec))) [
  | inr bad ↦ rw bad refl
  | inl good ↦
      rw good
        (elim (Option-cases
          (lookup (registration_key spec.kind spec.subject spec.queue_group) r.by_key)) [
            | inl free ↦ rw free refl
            | inr (x, taken) ↦ rw taken refl
          ])
]

removed-Shows :
    (w : Nats) (r : Registry) (o : Option ActiveHandle) (c : Subscriptions)
    → Shows (removed w (r, o) c)
unfolding removed
removed-Shows w r none c = synced-Shows _
removed-Shows w r (some handle) c = synced-Shows _

-- Behind an activation that succeeded.
after-Shows :
    (w : Nats) (state : ConnectionState) (i : RegId) (op : String) (c : Subscriptions)
    → Shows c
    → let (c', e) = activate_after_registration w state i op c in is_nil e ≡ true → Shows c'
unfolding activate_after_registration
after-Shows w state i op c shows =
    let z = activate_registered_subscription_by_id w i false op c in
    if_lem (λ (z : Subscriptions × Error). is_nil z.1 ≡ true → Shows z.0) (is_waiting state) _ _
      (λ h k. shows)
      (λ h k. if_lem Shows (is_nil z.1) _ _ (λ l. synced-Shows z.0) (λ l. absurd (ground arith)))

added-Shows :
    (w : Nats) (state : ConnectionState) (op : String) (c : Subscriptions) (r : Registry)
    (result : Result Snapshot)
    → Shows c
    → Unmoved c.registry (r, result)
    → Shows (added w state op c (r, result)).0
unfolding added finished rollback_registration Unmoved
added-Shows w state op c r (err e) shows same = shows ∙ sym same
added-Shows w state op c r (ok snapshot) shows same =
    let c' = sync_subscription_health (record c { registry = r }) in
    let z = activate_after_registration w state snapshot.id op c' in
    if_lem (λ (z : Subscriptions × Error). Shows z.0) (is_nil z.1) _ _
      (λ h. after-Shows w state snapshot.id op c' (synced-Shows (record c { registry = r })) h)
      (λ h. removed-Shows w _ _ z.0)

pub register-Shows :
    (w : Nats) (state : ConnectionState) (op : String) (spec : Result AddSpec) (c : Subscriptions)
    → Shows c
    → Shows (register w state op spec c).0
unfolding register
register-Shows w state op (err e) c shows = shows
register-Shows w state op (ok spec) c shows =
    added-Shows w state op c (add c.registry spec).0 (add c.registry spec).1 shows
      (add-counts c.registry spec)

pub all-Shows :
    (w : Nats) (op : String) (c : Subscriptions)
    → Shows (activate_all_registered_subscriptions w op c).0
unfolding activate_all_registered_subscriptions
all-Shows w op c = synced-Shows _

pub deactivate-Shows :
    (w : Nats) (op : String) (c : Subscriptions) → Shows (deactivate_all_subscriptions w op c).0
unfolding deactivate_all_subscriptions
deactivate-Shows w op c = synced-Shows _

rest-Shows :
    (w : Nats) (made : Created) (sum : Error) (c : Subscriptions)
    → Shows (restore_rest w made sum c).0
unfolding restore_rest
rest-Shows w [] sum c = synced-Shows c
rest-Shows w (first ∷ made) sum c =
    let P : Subscriptions × Error → Type 0 = λ z. Shows z.0 in
    if_lem P (is_nil (w.answer c.asked)) _ _
      (λ h.
        if_lem P (is_nil (w.answer (suc c.asked))) _ _ (λ k. synced-Shows _) (λ k. synced-Shows _))
      (λ h. synced-Shows _)

from-Shows :
    (w : Nats) (recs : List ActivationRecord) (c : Subscriptions)
    → Shows c
    → Shows (restore_from w recs c).0
unfolding restore_from
from-Shows w [] c shows = shows
from-Shows w (rec ∷ recs) c shows = rest-Shows w _ _ _

pub restore-Shows :
    (w : Nats) (c : Subscriptions) → Shows c → Shows (restore_all_registered_subscriptions w c).0
unfolding restore_all_registered_subscriptions
restore-Shows w c shows = from-Shows w (restore_records c.registry) c shows
