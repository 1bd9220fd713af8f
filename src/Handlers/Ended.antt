-- ===== src/Handlers/Ended.antt =====
-- Rollback and deactivateAllSubscriptions (agentcore/handlers_runtime.go) keep what NATS has equal to what
-- is owned; after the latter NATS has nothing.
use tip_olg_nats_agent_core.Common.{
  ℕ, String, ◌≡◌, ◌≢◌, refl, sym, ap, subst, ◌∙◌, inl, inr, Option, none, some, List, [], ◌∷◌,
  arith, nat_eq_iff, lookup, delete, nat_key, lookup-delete, lookup-map_values, Option-cases,
}
use tip_olg_nats_agent_core.Errors.{Error, nil, joined}
use tip_olg_nats_agent_core.Registry.{
  Registry, Entry, RegId, ActiveHandle, remove, clear_active_handles, detach,
}
use tip_olg_nats_agent_core.Registry.Invariant.{IsValid}
use tip_olg_nats_agent_core.Registry.Preservation.{detached-IsValid}
use tip_olg_nats_agent_core.Registry.Behaviour.{remove-IsValid}
use tip_olg_nats_agent_core.Registry.Handles.{Hands, clear_active_handles-Hands}
use tip_olg_nats_agent_core.Handlers.{
  Topic, Nats, Subscriptions, unsubscribe, cleanup_subscription, sink, sync_subscription_health,
}
use tip_olg_nats_agent_core.Handlers.Views.{
  View, IsOwned, set_view, same-IsOwned, drop-IsOwned, idle-IsOwned,
}
use tip_olg_nats_agent_core.Handlers.Owned.{
  with_sub, IsSound, entry_topic, registry_view, remove-view,
}
use tip_olg_nats_agent_core.Handlers.Activate.{
  removed, rollback_registration, unsubscribe_each, deactivate_all_subscriptions, unsubscribe_error,
}
use tip_olg_nats_agent_core.Handlers.Activated.{reported-IsSound}

-- What cleanupSubscription leaves of the live subscriptions.
abbrev pub without : Option ℕ → List (ℕ × Topic) → List (ℕ × Topic)
without none live = live
without (some s) live = delete s live

pub cleanup_fields :
    (w : Nats) (sub : Option ℕ) (c : Subscriptions)
    → let c' = cleanup_subscription w sub c in
      (c'.registry ≡ c.registry) × (c'.made ≡ c.made) × (c'.live ≡ without sub c.live)
unfolding cleanup_subscription unsubscribe sink
cleanup_fields w none c = (refl, refl, refl)
cleanup_fields w (some s) c = ground arith

-- A registration is taken out, and its subscription with it.
gone-IsOwned :
    (v : View) (live : List (ℕ × Topic)) (made i : ℕ) (t : Topic) (sub : Option ℕ)
    → IsOwned v live made
    → v i ≡ some (t, sub)
    → IsOwned (set_view i none v) (without sub live) made
gone-IsOwned v live made i t none o h =
    idle-IsOwned v live made o i none (λ t' s k. ground arith) (λ t' s k. ground arith)
gone-IsOwned v live made i t (some s) o h =
    let dropped = drop-IsOwned v live made o i s t h in
    let idle =
      idle-IsOwned _ _ made dropped i none (λ t' x k. ground (arith, nat_eq_iff i i))
        (λ t' x k. ground arith) in
    same-IsOwned _ _ made idle _ (λ j. ground (arith, nat_eq_iff i j))

-- What Remove hands back is what the entry owned.
remove-handle :
    (r : Registry) (i : RegId) (e : Entry) (o : Option ActiveHandle)
    → lookup i r.entries ≡ some e
    → (remove r i).1 ≡ o
    → o ≡ some (record { id = e.id; subject = e.subject; sub = e.active_sub })
unfolding remove
remove-handle r i e o h k = ground arith

remove-absent : (r : Registry) (i : RegId) → lookup i r.entries ≡ none → remove r i ≡ (r, none)
unfolding remove
remove-absent r i h = rw (h, remove) refl

pub rollback-IsSound :
    (w : Nats) (i : RegId) (c : Subscriptions) → IsSound c → IsSound (rollback_registration w i c)
unfolding rollback_registration removed
rollback-IsSound w i c sound = elim (Option-cases (lookup i c.registry.entries)) [
  | inl h ↦
      subst (λ p. IsSound (removed w p c)) (sym (remove-absent c.registry i h))
        (reported-IsSound _ sound)
  | inr (e, h) ↦ go e h (remove c.registry i).1 refl
]
  where
    go :
        (e : Entry)
        → lookup i c.registry.entries ≡ some e
        → (o : Option ActiveHandle) → (remove c.registry i).1 ≡ o
        → IsSound (removed w ((remove c.registry i).0, o) c)
    go e h none k = absurd (ground (arith, remove-handle c.registry i e none h k))
    go e h (some handle) k =
        let same = remove-handle c.registry i e (some handle) h k in
        let sub : handle.sub ≡ e.active_sub = ground arith in
        let c' = record c { registry = (remove c.registry i).0 } in
        let (r, m, l) = cleanup_fields w handle.sub c' in
        let here : registry_view c.registry i ≡ some (entry_topic e, handle.sub) = ground arith in
        let gone =
          gone-IsOwned (registry_view c.registry) c.live c.made i (entry_topic e) handle.sub
            sound.owned here in
        let seen =
          same-IsOwned _ _ _ gone (registry_view (remove c.registry i).0)
            (remove-view c.registry i) in
        reported-IsSound _ (record {
          valid = subst IsValid (sym r) (remove-IsValid c.registry i sound.valid);
          owned = rw (r, m, l) seen;
        })

-- What the loop of deactivateAllSubscriptions leaves: nothing of what it was given is live.
abbrev pub Let : List ActiveHandle → Subscriptions → Subscriptions → Type 0
Let hs c c' =
    (c'.registry ≡ c.registry)
    × (c'.made ≡ c.made)
    × ((s : ℕ) → lookup s c.live ≡ none → lookup s c'.live ≡ none)
    × ((s : ℕ) → Hands s hs → lookup s c'.live ≡ none)

skipped :
    (handle : ActiveHandle) (hs : List ActiveHandle) (c c' : Subscriptions)
    → handle.sub ≡ none
    → Let hs c c'
    → Let (handle ∷ hs) c c'
skipped handle hs c c' idle (r, m, dead, gone) =
    (r, m, dead, λ s h. elim h [ inl here ↦ absurd (ground arith) | inr there ↦ gone s there ])

dropped :
    (w : Nats) (handle : ActiveHandle) (hs : List ActiveHandle) (c c' : Subscriptions) (x : ℕ)
    → handle.sub ≡ some x
    → Let hs (unsubscribe w x c).0 c'
    → Let (handle ∷ hs) c c'
unfolding unsubscribe
dropped w handle hs c c' x busy (r, m, dead, gone) = (
  r,
  m,
  λ s h. dead s (ground (arith, lookup-delete x s c.live)),
  λ s h. elim h [
    | inl here ↦ dead s (ground (arith, lookup-delete x s c.live, nat_eq_iff x s))
    | inr there ↦ gone s there
  ],
)

each-skipped :
    (w : Nats) (handle : ActiveHandle) (hs : List ActiveHandle) (op : String) (sum : Error)
    (c : Subscriptions)
    → handle.sub ≡ none
    → unsubscribe_each w (handle ∷ hs) op sum c ≡ unsubscribe_each w hs op sum c
unfolding unsubscribe_each
each-skipped w handle hs op sum c idle = rw (idle, unsubscribe_each) refl

each-dropped :
    (w : Nats) (handle : ActiveHandle) (hs : List ActiveHandle) (op : String) (sum : Error)
    (c : Subscriptions) (s : ℕ)
    → handle.sub ≡ some s
    → unsubscribe_each w (handle ∷ hs) op sum c
      ≡ unsubscribe_each w hs op
          (joined sum (unsubscribe_error op handle (unsubscribe w s c).1))
          (unsubscribe w s c).0
unfolding unsubscribe_each
each-dropped w handle hs op sum c s busy = rw (busy, unsubscribe_each) refl

pub unsubscribe_each-lookup :
    (w : Nats) (hs : List ActiveHandle) (op : String) (sum : Error) (c : Subscriptions)
    → Let hs c (unsubscribe_each w hs op sum c).0
unsubscribe_each-lookup w [] op sum c =
    unfold unsubscribe_each in (refl, refl, λ s h. h, λ s h. absurd h)
unsubscribe_each-lookup w (handle ∷ hs) op sum c =
    let P : Subscriptions × Error → Type 0 = λ z. Let (handle ∷ hs) c z.0 in
    elim (Option-cases handle.sub) [
      | inl idle ↦ subst P (sym (each-skipped w handle hs op sum c idle)) (
          skipped handle hs c (unsubscribe_each w hs op sum c).0 idle
            (unsubscribe_each-lookup w hs op sum c))
      | inr (s, busy) ↦ subst P (sym (each-dropped w handle hs op sum c s busy)) (
          dropped w handle hs c (rest s).0 s busy
            (unsubscribe_each-lookup w hs op (failed s) (unsubscribe w s c).0))
    ]
  where
    failed : ℕ → Error
    failed s = joined sum (unsubscribe_error op handle (unsubscribe w s c).1)

    rest : ℕ → Subscriptions × Error
    rest s = unsubscribe_each w hs op (failed s) (unsubscribe w s c).0

-- A registry that was detached owns nothing.
detached-view :
    (r : Registry) (i s : ℕ) (t : Topic)
    → registry_view (clear_active_handles r).0 i ≢ some (t, some s)
unfolding clear_active_handles detach
detached-view r i s t h = ground (arith, lookup-map_values i detach r.entries)

cleared-IsValid : (r : Registry) → IsValid r → IsValid (clear_active_handles r).0
unfolding clear_active_handles
cleared-IsValid r v = detached-IsValid r v

-- Where nothing is owned and nothing is live.
nothing-IsSound :
    (c : Subscriptions) (r : Registry)
    → IsValid r
    → c.registry ≡ (clear_active_handles r).0
    → ((s : ℕ) → lookup s c.live ≡ none)
    → IsSound c
nothing-IsSound c r v same dead =
    let idle : (i s : ℕ) (t : Topic) → registry_view c.registry i ≢ some (t, some s) = λ i s t.
      subst (λ (x : Registry). registry_view x i ≢ some (t, some s)) (sym same)
        (detached-view r i s t) in
    record {
      valid = subst IsValid (sym same) (cleared-IsValid r v);
      owned = record {
        held = λ i s t h. absurd (idle i s t h);
        owned = λ s t h. absurd (ground (arith, dead s));
        one_owner = λ i j s t t' h k. absurd (idle i s t h);
        bounded = λ s t h. absurd (ground (arith, dead s));
      };
    }

-- What was live was owned, and is handed back.
handed :
    (c : Subscriptions) (s : ℕ) (t : Topic)
    → IsSound c
    → lookup s c.live ≡ some t
    → Hands s (clear_active_handles c.registry).1
handed c s t sound h =
    let (i, k) = sound.owned.owned s t h in
    elim (Option-cases (lookup i c.registry.entries)) [
      | inl absent ↦ absurd (ground arith)
      | inr (e, found) ↦ clear_active_handles-Hands c.registry i e s found (ground arith)
    ]

pub deactivate_all_lem :
    (w : Nats) (op : String) (c : Subscriptions)
    → IsSound c
    → IsSound (deactivate_all_subscriptions w op c).0
      × ((s : ℕ) → lookup s (deactivate_all_subscriptions w op c).0.live ≡ none)
unfolding deactivate_all_subscriptions sync_subscription_health
deactivate_all_lem w op c sound =
    let r = clear_active_handles c.registry in
    let (same, m, dead, gone) =
      unsubscribe_each-lookup w r.1 op nil (record c { registry = r.0 }) in
    let none_live : (s : ℕ)
        → lookup s (unsubscribe_each w r.1 op nil (record c { registry = r.0 })).0.live ≡ none =
      λ s. elim (Option-cases (lookup s c.live)) [
        | inl h ↦ dead s h
        | inr (t, h) ↦ gone s (handed c s t sound h)
      ] in
    (nothing-IsSound _ c.registry sound.valid same none_live, none_live)

pub deactivate-view :
    (w : Nats) (op : String) (c : Subscriptions) (i : RegId)
    → registry_view (deactivate_all_subscriptions w op c).0.registry i
      ≡ with_sub none (registry_view c.registry i)
unfolding deactivate_all_subscriptions sync_subscription_health clear_active_handles detach
deactivate-view w op c i =
    let r = clear_active_handles c.registry in
    ap (λ (x : Registry). registry_view x i)
      (unsubscribe_each-lookup w r.1 op nil (record c { registry = r.0 })).0
    ∙ ground (arith, lookup-map_values i detach c.registry.entries)
