-- ===== src/Client/Enabled.antt =====
-- agentcore/client.go and agentcore/handlers_runtime.go: when callbacks reach the handlers of a client.
use tip_olg_nats_agent_core.Common.{
  ℕ, suc, ◌≡◌, refl, ap, sym, subst, ◌∙◌, String, true, false, not, Option, none, some, [], arith,
  if◌then◌else◌, if_lem, nat_key,
}
use tip_olg_nats_agent_core.Strings.{Unicode}
use tip_olg_nats_agent_core.Errors.{Error, nil, is_nil, to_public_error}
use tip_olg_nats_agent_core.Session.{Manager}
use tip_olg_nats_agent_core.Session.Lifecycle.{StartWorld, start, close}
use tip_olg_nats_agent_core.Kv.Start.{Attempt}
use tip_olg_nats_agent_core.Handlers.{Nats}
use tip_olg_nats_agent_core.Handlers.Activate.{activate_all_registered_subscriptions}
use tip_olg_nats_agent_core.Handlers.Restore.{restore_all_registered_subscriptions}
use tip_olg_nats_agent_core.Client.Watches.{Watches}
use tip_olg_nats_agent_core.Client.Rewatch.{restore_all_active_watches}
use tip_olg_nats_agent_core.Client.Lifecycle.{
  Contexts, Client, Hook, is_cancelled, no_hook, returns_hook, panics_hook, handler_context,
  ensure_handler_context, tell, tell_error, silence, deactivate, start_undone, start_ensured,
  start_enabled, start_client, closed_with, close_client, call_hook, is_hook, rewatched,
  on_session_reconnected, on_session_disconnected, on_session_closed,
}
use tip_olg_nats_agent_core.Client.Closed.{
  IsLinked, cancel_handler_context-IsLinked, ensure_handler_context-Ensured,
}

module _ (w : Nats) (u : Unicode) (key_pattern : String) (attempts : ℕ → Attempt)
    (ctx_err : ℕ → Error) where
  -- Callbacks reach the handlers only while their context is good.
  abbrev pub IsGuarded : Client → Type 0
  IsGuarded c =
      IsLinked c.contexts × (c.callbacks_enabled ≡ true → handler_context c.contexts ≡ true)

  -- What may happen to a client, one call after another: none begins while another runs. What registers handlers, publishes or watches leaves callbacks and
  -- contexts as they are.
  pub data IsRun : Client → Type 0 where
    run_new :
        (c : Client)
        → c.callbacks_enabled ≡ false
        → c.contexts
          ≡ record { handler_ctx = none; handler_cancel = none; cancelled = []; made = 0 }
        → IsRun c
    run_start :
        (sw : StartWorld) (c : Client)
        → IsRun c
        → IsRun (start_client w u key_pattern attempts ctx_err sw c).0
    run_close :
        (drain_err : Error) (c c' : Client) (e : Error)
        → IsRun c
        → close_client w u key_pattern attempts ctx_err drain_err c ≡ some (c', e)
        → IsRun c'
    run_reconnected :
        (hook : Hook) (c c' : Client)
        → IsRun c
        → on_session_reconnected w u key_pattern attempts ctx_err hook c ≡ some c'
        → IsRun c'
    run_disconnected :
        (hook : Hook) (c : Client)
        → IsRun c
        → IsRun (on_session_disconnected w u key_pattern attempts ctx_err hook c)
    run_closed :
        (c : Client) → IsRun c → IsRun (on_session_closed w u key_pattern attempts ctx_err c)
    run_elsewhere :
        (c c' : Client)
        → IsRun c
        → c'.callbacks_enabled ≡ c.callbacks_enabled
        → c'.contexts ≡ c.contexts
        → IsRun c'

  -- Neither callbacks nor contexts are touched.
  abbrev Same : Client → Client → Type 0
  Same c c' = (c'.callbacks_enabled ≡ c.callbacks_enabled) × (c'.contexts ≡ c.contexts)

  Same-IsGuarded : (c c' : Client) → Same c c' → IsGuarded c → IsGuarded c'
  Same-IsGuarded c c' (flag, ctx) (linked, good) =
      (subst IsLinked (sym ctx) linked, λ h. ap handler_context ctx ∙ good (sym flag ∙ h))

  silence-IsGuarded :
      (c : Client) → IsGuarded c → IsGuarded (silence w u key_pattern attempts ctx_err c)
  unfolding silence
  silence-IsGuarded c (linked, good) =
      (cancel_handler_context-IsLinked c.contexts linked, λ h. absurd (ground arith))

  pub tell_error-Same :
      (e : Error) (c : Client) → Same c (tell_error w u key_pattern attempts ctx_err e c)
  unfolding tell_error tell
  tell_error-Same e c =
      if_lem (Same c) (is_nil e) c (tell w u key_pattern attempts ctx_err e c) (λ h. (refl, refl))
        (λ h. (refl, refl))

  deactivate-Same :
      (op : String) (c : Client) → Same c (deactivate w u key_pattern attempts ctx_err op c).0
  unfolding deactivate
  deactivate-Same op c = (refl, refl)

  -- A client is silenced, its subscriptions are ended, and the error is told.
  shut-IsGuarded :
      (op : String) (e : Error) (c : Client)
      → IsGuarded c
      → IsGuarded (
          tell_error w u key_pattern attempts ctx_err e
            (deactivate w u key_pattern attempts ctx_err op
              (silence w u key_pattern attempts ctx_err c)).0)
  shut-IsGuarded op e c h =
      let c1 = silence w u key_pattern attempts ctx_err c in
      let c2 = (deactivate w u key_pattern attempts ctx_err op c1).0 in
      Same-IsGuarded c2 (tell_error w u key_pattern attempts ctx_err e c2) (tell_error-Same e c2)
        (Same-IsGuarded c1 c2 (deactivate-Same op c1) (silence-IsGuarded c h))

  start-IsGuarded :
      (sw : StartWorld) (c : Client)
      → IsGuarded c
      → IsGuarded (start_client w u key_pattern attempts ctx_err sw c).0
  unfolding start_client start_ensured start_enabled start_undone
  start-IsGuarded sw c (linked, good) =
      let (m, e) = start sw c.session in
      let (s, e') = activate_all_registered_subscriptions w "start" c.subscriptions in
      let active : Client = record c { session = m; subscriptions = s } in
      let run : Client = record active {
        callbacks_enabled = true;
        contexts = ensure_handler_context c.contexts;
      } in
      let undone = start_undone w u key_pattern attempts ctx_err active in
      let (linked', alive) = ensure_handler_context-Ensured c.contexts linked in
      if_lem (λ (r : Client × Error). IsGuarded r.0) (not (is_nil e))
        (record c { session = m }, to_public_error e)
        (if not (is_nil e') then (undone, e') else (run, nil)) (λ h. (linked, good))
        (λ h.
          if_lem (λ (r : Client × Error). IsGuarded r.0) (not (is_nil e')) (undone, e') (run, nil)
            (λ k.
              shut-IsGuarded "start_activation_cleanup"
                (deactivate w u key_pattern attempts ctx_err "start_activation_cleanup"
                  (silence w u key_pattern attempts ctx_err active)).1
                active (linked, good))
            (λ k. (linked', λ on. alive)))

  call_hook-Same :
      (what : String) (hook : Hook) (c : Client)
      → Same c (call_hook w u key_pattern attempts ctx_err what hook c)
  unfolding call_hook tell
  call_hook-Same what no_hook c = (refl, refl)
  call_hook-Same what returns_hook c = (refl, refl)
  call_hook-Same what (panics_hook text) c = (refl, refl)

  hooked-Same :
      (what : String) (hook : Hook) (c c' : Client)
      → Same c c'
      → Same c (call_hook w u key_pattern attempts ctx_err what hook c')
  hooked-Same what hook c c' (flag, ctx) =
      let (flag', ctx') = call_hook-Same what hook c' in (flag' ∙ flag, ctx' ∙ ctx)

  abbrev AfterClose : Option (Client × Error) → Type 0
  AfterClose none = Unit
  AfterClose (some (c', e)) = IsGuarded c'

  closed_with-AfterClose :
      (a b : Error) (c : Client) (o : Option (Manager × Error))
      → IsGuarded c
      → AfterClose (closed_with w u key_pattern attempts ctx_err a b c o)
  unfolding closed_with
  closed_with-AfterClose a b c none h = tt
  closed_with-AfterClose a b c (some (m, e)) h = h

  close-AfterClose :
      (drain_err : Error) (c : Client)
      → IsGuarded c
      → AfterClose (close_client w u key_pattern attempts ctx_err drain_err c)
  unfolding close_client deactivate silence
  close-AfterClose drain_err c h =
      closed_with-AfterClose _ _ _ (close drain_err c.session) (silence-IsGuarded c h)

  abbrev AfterReconnect : Client → Option Client → Type 0
  AfterReconnect c none = Unit
  AfterReconnect c (some c') = Same c c'

  rewatched-AfterReconnect :
      (hook : Hook) (c c' : Client) (o : Option (Watches × Error))
      → Same c c'
      → AfterReconnect c (elim o [
        | none ↦ none
        | some answer ↦ some (rewatched w u key_pattern attempts ctx_err hook c' answer)
      ])
  unfolding rewatched tell
  rewatched-AfterReconnect hook c c' none same = tt
  rewatched-AfterReconnect hook c c' (some (x, e)) same =
      let next : Client = record c' { watches = x } in
      let counted : Client =
        if is_hook w u key_pattern attempts ctx_err hook
        then record next { reconnected = suc next.reconnected }
        else next in
      if_lem (Same c) (not (is_nil e)) (tell w u key_pattern attempts ctx_err e next)
        (call_hook w u key_pattern attempts ctx_err "reconnect" hook counted) (λ h. same)
        (λ h. hooked-Same "reconnect" hook c counted (
          if_lem (Same c) (is_hook w u key_pattern attempts ctx_err hook)
            (record next { reconnected = suc next.reconnected }) next (λ k. same) (λ k. same)))

  reconnected-AfterReconnect :
      (hook : Hook) (c : Client)
      → AfterReconnect c (on_session_reconnected w u key_pattern attempts ctx_err hook c)
  unfolding on_session_reconnected tell
  reconnected-AfterReconnect hook c =
      let (s, e) = restore_all_registered_subscriptions w c.subscriptions in
      let c' : Client = record c { subscriptions = s } in
      let watched =
        restore_all_active_watches u key_pattern w.has_sink attempts ctx_err c'.watches in
      let rest : Option Client = elim watched [
        | none ↦ none
        | some answer ↦ some (rewatched w u key_pattern attempts ctx_err hook c' answer)
      ] in
      if_lem (AfterReconnect c) (not c.callbacks_enabled) (some c)
        (if not (is_nil e) then some (tell w u key_pattern attempts ctx_err e c') else rest)
        (λ h. (refl, refl))
        (λ h.
          if_lem (AfterReconnect c) (not (is_nil e))
            (some (tell w u key_pattern attempts ctx_err e c')) rest (λ k. (refl, refl))
            (λ k. rewatched-AfterReconnect hook c c' watched (refl, refl)))

  disconnected-Same :
      (hook : Hook) (c : Client)
      → Same c (on_session_disconnected w u key_pattern attempts ctx_err hook c)
  unfolding on_session_disconnected
  disconnected-Same hook c =
      let counted : Client =
        if is_hook w u key_pattern attempts ctx_err hook
        then record c { disconnected = suc c.disconnected }
        else c in
      if_lem (Same c) (not c.callbacks_enabled) c
        (call_hook w u key_pattern attempts ctx_err "disconnect" hook counted) (λ h. (refl, refl))
        (λ h. hooked-Same "disconnect" hook c counted (
          if_lem (Same c) (is_hook w u key_pattern attempts ctx_err hook)
            (record c { disconnected = suc c.disconnected }) c (λ k. (refl, refl))
            (λ k. (refl, refl))))

  new-IsLinked :
      (x : Contexts)
      → x ≡ record { handler_ctx = none; handler_cancel = none; cancelled = []; made = 0 }
      → IsLinked x
  unfolding handler_context is_cancelled
  new-IsLinked x h = subst IsLinked (sym h) (λ e. refl, λ n k. refl, λ n k. absurd (ground arith))

  -- After any run of Start, Close and what the session calls, one call after another, of which none begins
  -- while another runs, whatever these meet: callbacks reach the handlers of the client only while the
  -- context of the handlers is good.
  pub IsRun-IsGuarded : (c : Client) → IsRun c → IsGuarded c
  unfolding on_session_closed
  IsRun-IsGuarded c (run_new _ off fresh) =
      (new-IsLinked c.contexts fresh, λ h. absurd (ground arith))
  IsRun-IsGuarded _ (run_start sw c r) = start-IsGuarded sw c (IsRun-IsGuarded c r)
  IsRun-IsGuarded _ (run_close drain_err c c' e r h) =
      subst AfterClose h (close-AfterClose drain_err c (IsRun-IsGuarded c r))
  IsRun-IsGuarded _ (run_reconnected hook c c' r h) =
      Same-IsGuarded c c' (subst (AfterReconnect c) h (reconnected-AfterReconnect hook c))
        (IsRun-IsGuarded c r)
  IsRun-IsGuarded _ (run_disconnected hook c r) =
      Same-IsGuarded c (on_session_disconnected w u key_pattern attempts ctx_err hook c)
        (disconnected-Same hook c) (IsRun-IsGuarded c r)
  IsRun-IsGuarded _ (run_closed c r) =
      shut-IsGuarded "session_closed"
        (deactivate w u key_pattern attempts ctx_err "session_closed"
          (silence w u key_pattern attempts ctx_err c)).1
        c (IsRun-IsGuarded c r)
  IsRun-IsGuarded _ (run_elsewhere c c' r flag ctx) =
      Same-IsGuarded c c' (flag, ctx) (IsRun-IsGuarded c r)
