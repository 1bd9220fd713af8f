-- ===== src/Handlers/Made.antt =====
-- What subscribeInternal (agentcore/handlers_runtime.go) leaves, on every path.
use tip_olg_nats_agent_core.Common.{
  ℕ, suc, String, ◌==◌, ◌≡◌, refl, ap, ◌⊎◌, inl, inr, true, false, not, Bool, none, some, arith,
  is_some, insert, delete, nat_key, if_lem,
}
use tip_olg_nats_agent_core.Strings.{trim_space}
use tip_olg_nats_agent_core.Errors.{Error, is_nil, to_public_error, facade_validation_error}
use tip_olg_nats_agent_core.Results.{Result, ok, err}
use tip_olg_nats_agent_core.Registry.{
  Callback, ActivationRecord, kind_configure, kind_action, kind_result, kind_status,
}
use tip_olg_nats_agent_core.Handlers.{Topic, Nats, Subscriptions, topic_of, unsubscribe}
use tip_olg_nats_agent_core.Handlers.Views.{View, IsOwned, set_view, take-IsOwned, undo-IsOwned}
use tip_olg_nats_agent_core.Handlers.Subscribe.{
  flushed, subscribed, subscribe_internal, create_subscription_for_record,
}

-- On an error the subscription was not made, or made and unsubscribed again; else it is the next one,
-- and live. The registry is as it was.
abbrev pub Made : Subscriptions → Topic → Subscriptions × Result ℕ → Type 0
Made c t (c', err e) =
    (c'.registry ≡ c.registry)
    × (is_nil e ≡ false)
    × ((c'.live ≡ c.live) × (c'.made ≡ c.made)
        ⊎ (c'.live ≡ delete c.made (insert c.made t c.live)) × (c'.made ≡ suc c.made))
Made c t (c', ok s) =
    (c'.registry ≡ c.registry)
    × (s ≡ c.made)
    × (c'.live ≡ insert c.made t c.live)
    × (c'.made ≡ suc c.made)

pub to_public_error-nil : (e : Error) → is_nil e ≡ false → is_nil (to_public_error e) ≡ false
unfolding to_public_error
to_public_error-nil e h = ground arith

module _ (w : Nats) (op subject queue_group : String) (callback : Callback) where
  abbrev topic : Topic
  topic = topic_of subject queue_group callback

  flushed-Made :
      (flush : Bool) (c c' : Subscriptions)
      → c'.registry ≡ c.registry
      → c'.live ≡ insert c.made topic c.live
      → c'.made ≡ suc c.made
      → Made c topic (flushed w op subject flush c.made c')
  unfolding flushed unsubscribe
  flushed-Made false c c' r l m = (r, refl, l, m)
  flushed-Made true c c' r l m =
      if_lem (Made c topic) (is_nil (w.answer c'.asked)) _ _ (λ h. (r, refl, l, m))
        (λ h. (r, refl, inr (ap (delete c.made) l, m)))

  subscribed-Made :
      (flush : Bool) (c : Subscriptions)
      → Made c topic (subscribed w op subject queue_group callback flush c)
  unfolding subscribed
  subscribed-Made flush c =
      if_lem (Made c topic) (is_nil (w.answer c.asked)) _ _
        (λ h. flushed-Made flush c _ refl refl refl) (λ h. (refl, refl, inl (refl, refl)))

  pub subscribe_internal-Made :
      (flush : Bool) (c : Subscriptions)
      → Made c topic (subscribe_internal w op subject queue_group callback flush c)
  unfolding subscribe_internal facade_validation_error
  subscribe_internal-Made flush c =
      if_lem (Made c topic) (not (is_some callback)) _ _ (λ h. (refl, refl, inl (refl, refl)))
        (λ h.
          if_lem (Made c topic) (trim_space subject == "") _ _ (λ k. (refl, refl, inl (refl, refl)))
            (λ k.
              if_lem (Made c topic) (is_nil (w.answer c.asked)) _ _
                (λ l. subscribed-Made flush (record c { asked = suc c.asked }))
                (λ l. (refl, to_public_error-nil _ l, inl (refl, refl)))))

pub create-Made :
    (w : Nats) (rec : ActivationRecord) (op : String) (flush : Bool) (c : Subscriptions)
    → Made c
        (topic_of rec.subject rec.queue_group rec.callback)
        (create_subscription_for_record w rec op flush c)
unfolding create_subscription_for_record
create-Made w rec op flush c =
    let M = Made c (topic_of rec.subject rec.queue_group rec.callback) in
    if_lem M (rec.kind == kind_configure) _ _ (λ h. subscribe_internal-Made w _ _ _ _ flush c)
      (λ h.
        if_lem M (rec.kind == kind_action) _ _ (λ h. subscribe_internal-Made w _ _ _ _ flush c)
          (λ h.
            if_lem M (rec.kind == kind_result) _ _ (λ h. subscribe_internal-Made w _ _ _ _ flush c)
              (λ h.
                if_lem M (rec.kind == kind_status) _ _
                  (λ h. subscribe_internal-Made w _ _ _ _ flush c)
                  (λ h. (refl, refl, inl (refl, refl))))))

module _ (v : View) (c : Subscriptions) (o : IsOwned v c.live c.made) (t : Topic) where
  -- The view that the answer stands for.
  abbrev pub given : ℕ → Result ℕ → View
  given i (err e) = v
  given i (ok s) = set_view i (some (t, some s)) v

  pub Made-IsOwned :
      (i : ℕ) (c' : Subscriptions) (r : Result ℕ)
      → Made c t (c', r)
      → v i ≡ some (t, none)
      → IsOwned (given i r) c'.live c'.made
  Made-IsOwned i c' (err e) (same, _, inl (l, m)) h = rw (l, m) o
  Made-IsOwned i c' (err e) (same, _, inr (l, m)) h = rw (l, m) (undo-IsOwned v c.live c.made o t)
  Made-IsOwned i c' (ok s) (same, n, l, m) h = rw (n, l, m) (take-IsOwned v c.live c.made o i t h)
