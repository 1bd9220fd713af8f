-- ===== src/Client/Stopped.antt =====
-- agentcore/client.go and internal/kv/watch.go: what a start and a stop of a watch change.
use tip_olg_nats_agent_core.Common.{
  ℕ, suc, ◌+◌, ◌<◌, ◌≤◌, ◌≡◌, refl, ap, sym, subst, ◌∙◌, inl, inr, String, Bool, true, false, not,
  Option, none, some, arith, lookup, delete, nat_key, nat_eq_iff, lookup-insert, lookup-delete,
  Option-cases, if◌then◌else◌, if_lem,
}
use tip_olg_nats_agent_core.Strings.{Unicode}
use tip_olg_nats_agent_core.Errors.{Error, nil, is_nil}
use tip_olg_nats_agent_core.Results.{Result, ok, err}
use tip_olg_nats_agent_core.Kv.Start.{
  Watched, Attempt, Watchers, lingers, report_async, awaited, keyed, watch_desired_config, stop,
  wait_for_watch_ready,
}
use tip_olg_nats_agent_core.Kv.Records.{kv_read_error}
use tip_olg_nats_agent_core.Client.Watches.{Watches, call_stop}
use tip_olg_nats_agent_core.Client.Balance.{
  alive, hold, of_result, alive-insert, alive-delete, alive-found, same_watched_self,
}

-- No watch runs under a number that is still to be given.
abbrev pub IsFresh : Watchers → Type 0
IsFresh r = (n : ℕ) → r.made ≤ n → lookup n r.unstopped ≡ none

-- The watches that run are those before, and the one that the answer names.
abbrev pub Started : Watched → Watchers → Watchers × Result ℕ → Type 0
Started y r (r', answer) =
    ((s : ℕ) (x : Watched)
      → alive s x r'.unstopped ≡ of_result s x answer y + alive s x r.unstopped)
    × IsFresh r'

abbrev ready_timeout : Error
ready_timeout =
    kv_read_error "watch_desired_config_ready_timeout"
      "desired-config watch ready cleanup timed out" nil

module _ (u : Unicode) (key_pattern : String) (has_sink : Bool) (w : ℕ → Attempt) where
  report_async-unstopped :
      (e : Error) (r : Watchers)
      → (report_async u key_pattern has_sink w e r).unstopped ≡ r.unstopped
  unfolding report_async
  report_async-unstopped e r = ground arith

  report_async-made :
      (e : Error) (r : Watchers) → (report_async u key_pattern has_sink w e r).made ≡ r.made
  unfolding report_async
  report_async-made e r = ground arith

  reported-Started :
      (y : Watched) (r r' : Watchers) (e : Error)
      → (r'.unstopped ≡ r.unstopped) × (r'.made ≡ suc r.made)
      → IsFresh r
      → Started y r (r', err e)
  reported-Started y r r' e (same, more) fresh =
      (λ s x. ap (alive s x) same ∙ omega arith, λ n h. rw same (fresh n (omega arith)))

  given_up-Started :
      (y : Watched) (r : Watchers) (b : Bool) (e e' : Error)
      → IsFresh r
      → Started y r (
        if b
            then record r { made = suc r.made }
            else report_async u key_pattern has_sink w e
                (lingers r.made (record r { made = suc r.made })),
        err e',
      )
  given_up-Started y r true e e' fresh =
      reported-Started y r (record r { made = suc r.made }) e' (refl, refl) fresh
  given_up-Started y r false e e' fresh =
      let next : Watchers = lingers r.made (record r { made = suc r.made }) in
      reported-Started y r (report_async u key_pattern has_sink w e next) e'
        (report_async-unstopped e next, report_async-made e next) fresh

  awaited-Started :
      (y : Watched) (e : Error) (r : Watchers)
      → IsFresh r
      → Started y r (awaited u key_pattern has_sink w r.made y e (record r { made = suc r.made }))
  unfolding awaited
  awaited-Started y e r fresh =
      if_lem (Started y r) (is_nil e) _ _
        (λ h. (
          λ s x. alive-insert s x r.made y r.unstopped (fresh r.made (omega arith)),
          λ n h. ground (arith, lookup-insert r.made n y r.unstopped, fresh n (omega arith)),
        ))
        (λ h.
          given_up-Started y r (w r.made).gives_up ready_timeout
            (kv_read_error "watch_desired_config" "desired-config watch did not become ready" e)
            fresh)

  keyed-Started :
      (y : Watched) (k : Result String) (r : Watchers)
      → IsFresh r
      → Started y r (keyed u key_pattern has_sink w r.made y k (record r { made = suc r.made }))
  unfolding keyed
  keyed-Started y (err e) r fresh =
      reported-Started y r (record r { made = suc r.made }) e (refl, refl) fresh
  keyed-Started y (ok key) r fresh =
      let next : Watchers = record r { made = suc r.made } in
      let e : Error =
        kv_read_error "watch_desired_config" "failed to start desired-config watch"
          (w r.made).watch_err in
      let e' : Error = wait_for_watch_ready (w r.made).woken in
      if_lem (Started y r) (not (is_nil (w r.made).watch_err)) (next, err e)
        (awaited u key_pattern has_sink w r.made y e' next)
        (λ h. reported-Started y r next e (refl, refl) fresh) (λ h. awaited-Started y e' r fresh)

  pub watch_desired_config-Started :
      (target : String) (handler : ℕ) (r : Watchers)
      → IsFresh r
      → Started
          (target, handler)
          r
          (watch_desired_config u key_pattern has_sink w target (some handler) r)
  unfolding watch_desired_config
  watch_desired_config-Started target handler r fresh = keyed-Started (target, handler) _ r fresh

  -- What a stop function leaves as it was.
  pub call_stop-frame :
      (o : Option ℕ) (c : Watches)
      → ((call_stop u key_pattern has_sink w o c).0.active ≡ c.active)
        × ((call_stop u key_pattern has_sink w o c).0.next_id ≡ c.next_id)
  unfolding call_stop
  call_stop-frame none c = (refl, refl)
  call_stop-frame (some n) c = (refl, refl)

  stop-unstopped :
      (n : ℕ) (r : Watchers) (y : Watched)
      → lookup n r.unstopped ≡ some y
      → (stop u key_pattern has_sink w n r).0.unstopped ≡ delete n r.unstopped
  unfolding stop
  stop-unstopped n r y h =
      rw (stop, h)
        (if_lem (λ (z : Watchers × Error). z.0.unstopped ≡ delete n r.unstopped) (w n).ends _ _
          (λ k. refl) (λ k. report_async-unstopped _ _))

  stop-made : (n : ℕ) (r : Watchers) → (stop u key_pattern has_sink w n r).0.made ≡ r.made
  unfolding stop
  stop-made n r = elim (Option-cases (lookup n r.unstopped)) [
    | inl e ↦ rw (stop, e) refl
    | inr (y, e) ↦
        rw (stop, e)
          (if_lem (λ (z : Watchers × Error). z.0.made ≡ r.made) (w n).ends _ _ (λ k. refl)
            (λ k. report_async-made _ _))
  ]

  stop-IsFresh : (n : ℕ) (r : Watchers) → IsFresh r → IsFresh (stop u key_pattern has_sink w n r).0
  unfolding stop
  stop-IsFresh n r fresh = elim (Option-cases (lookup n r.unstopped)) [
    | inl e ↦ rw (stop, e) fresh
    | inr (y, e) ↦ λ k h.
        rw
          (
            stop-unstopped n r y e,
            lookup-delete n k r.unstopped,
            fresh k (subst (λ m. m ≤ k) (stop-made n r) h),
          )
          (ground arith)
  ]

  pub call_stop-IsFresh :
      (o : Option ℕ) (c : Watches)
      → IsFresh c.watchers
      → IsFresh (call_stop u key_pattern has_sink w o c).0.watchers
  unfolding call_stop
  call_stop-IsFresh none c fresh = fresh
  call_stop-IsFresh (some n) c fresh = stop-IsFresh n c.watchers fresh

  pub held_self : (n : ℕ) (y : Watched) (k : ℕ) → 0 < hold n y (some n) y + k
  held_self n y k = ground (arith, same_watched_self y, (nat_eq_iff n n).1 refl)

  -- A watch that is held once is taken out of the count.
  pub call_stop-alive :
      (o : Option ℕ) (y : Watched) (c : Watches) (rest : ℕ → Watched → ℕ)
      → ((s : ℕ) (x : Watched) → alive s x c.watchers.unstopped ≡ hold s x o y + rest s x)
      → (s : ℕ) (x : Watched)
      → alive s x (call_stop u key_pattern has_sink w o c).0.watchers.unstopped ≡ rest s x
  unfolding call_stop
  call_stop-alive none y c rest h s x = h s x ∙ omega arith
  call_stop-alive (some n) y c rest h s x =
      let found : lookup n c.watchers.unstopped ≡ some y =
        alive-found n y c.watchers.unstopped
          (subst (λ k. 0 < k) (sym (h n y)) (held_self n y (rest n y))) in
      rw (stop-unstopped n c.watchers y found)
        (omega (arith, h s x, alive-delete s x n y c.watchers.unstopped found))
