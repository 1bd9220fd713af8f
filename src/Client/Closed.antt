-- ===== src/Client/Closed.antt =====
-- agentcore/client.go: what Start and Close of a client come to.
use tip_olg_nats_agent_core.Common.{
  ℕ, ◌≤◌, ◌<◌, ◌≡◌, refl, ap, ◌⊎◌, inl, inr, String, true, false, not, ◌&&◌, ◌||◌, Option, none,
  some, List, arith, is_some, lookup, nat_key, if◌then◌else◌, if_lem, Bool-cases,
}
use tip_olg_nats_agent_core.Strings.{Unicode}
use tip_olg_nats_agent_core.Errors.{Error, nil, is_nil, joined, to_public_error}
use tip_olg_nats_agent_core.Session.{closed, connected, degraded}
use tip_olg_nats_agent_core.Session.Lifecycle.{StartWorld, start}
use tip_olg_nats_agent_core.Session.Outcome.{IsFree, start_lem, close_lem}
use tip_olg_nats_agent_core.Kv.Start.{Attempt}
use tip_olg_nats_agent_core.Handlers.{Nats, sink}
use tip_olg_nats_agent_core.Handlers.Activate.{activate_all_registered_subscriptions}
use tip_olg_nats_agent_core.Handlers.Made.{to_public_error-nil}
use tip_olg_nats_agent_core.Handlers.Owned.{IsSound}
use tip_olg_nats_agent_core.Handlers.Activated.{activate_all-IsSound}
use tip_olg_nats_agent_core.Handlers.Ended.{deactivate_all_lem}
use tip_olg_nats_agent_core.Client.Watches.{stop_all_watches}
use tip_olg_nats_agent_core.Client.Waited.{joined-is_nil, stop_all_watches-IsWaited}
use tip_olg_nats_agent_core.Client.Reached.{IsReached}
use tip_olg_nats_agent_core.Client.Kept.{stop_all_watches_lem}
use tip_olg_nats_agent_core.Client.Lifecycle.{
  Contexts, Client, is_cancelled, new_context, ensure_handler_context, cancel_handler_context,
  handler_context, tell, tell_error, silence, deactivate, start_undone, start_ensured,
  start_enabled, start_client, close_error, closed_with, close_client,
}

-- The cancel function is that of the context, where this is still good, and no context is cancelled
-- before it is made.
abbrev pub IsLinked : Contexts → Type 0
IsLinked x =
    (handler_context x ≡ true → x.handler_cancel ≡ x.handler_ctx)
    × ((n : ℕ) → x.made ≤ n → is_cancelled n x.cancelled ≡ false)
    × ((n : ℕ) → x.handler_cancel ≡ some n → n < x.made)

abbrev contexts : Option ℕ → Option ℕ → List ℕ → ℕ → Contexts
contexts ctx cancel gone made = record {
  handler_ctx = ctx;
  handler_cancel = cancel;
  cancelled = gone;
  made = made;
}

cancelled-done :
    (ctx cancel : Option ℕ) (gone : List ℕ) (made : ℕ)
    → IsLinked (contexts ctx cancel gone made)
    → handler_context (cancel_handler_context (contexts ctx cancel gone made)) ≡ false
unfolding cancel_handler_context handler_context is_cancelled
cancelled-done none none gone made h = refl
cancelled-done none (some k) gone made h = refl
cancelled-done (some n) none gone made (same, fresh, below) =
    elim (Bool-cases (is_cancelled n gone)) [
      | inl e ↦ rw e refl
      | inr e ↦ absurd (ground (arith, same (rw e refl)))
    ]
cancelled-done (some n) (some k) gone made (same, fresh, below) =
    elim (Bool-cases (is_cancelled n gone)) [
      | inl e ↦ ground arith
      | inr e ↦ ground (arith, same (rw e refl))
    ]

pub cancel_handler_context-done :
    (x : Contexts) → IsLinked x → handler_context (cancel_handler_context x) ≡ false
cancel_handler_context-done x h = cancelled-done x.handler_ctx x.handler_cancel x.cancelled x.made h

cancelled-IsLinked :
    (ctx cancel : Option ℕ) (gone : List ℕ) (made : ℕ)
    → IsLinked (contexts ctx cancel gone made)
    → IsLinked (cancel_handler_context (contexts ctx cancel gone made))
unfolding cancel_handler_context is_cancelled
cancelled-IsLinked ctx none gone made h = h
cancelled-IsLinked ctx (some k) gone made (same, fresh, below) = (
  λ e. absurd (ground (arith, e, cancelled-done ctx (some k) gone made (same, fresh, below))),
  λ n h. ground (arith, fresh n h, below k refl),
  λ n h. absurd (ground arith),
)

pub cancel_handler_context-IsLinked :
    (x : Contexts) → IsLinked x → IsLinked (cancel_handler_context x)
cancel_handler_context-IsLinked x h =
    cancelled-IsLinked x.handler_ctx x.handler_cancel x.cancelled x.made h

new_context-IsLinked : (x : Contexts) → IsLinked x → IsLinked (new_context x)
unfolding new_context
new_context-IsLinked x (same, fresh, below) =
    (λ e. refl, λ n h. fresh n (omega arith), λ n h. ground arith)

new_context-alive : (x : Contexts) → IsLinked x → handler_context (new_context x) ≡ true
unfolding new_context handler_context
new_context-alive x (same, fresh, below) = rw (fresh x.made (omega arith)) refl

-- After ensureHandlerContext the context is good, and linked again.
abbrev Ensured : Contexts → Type 0
Ensured x = IsLinked x × (handler_context x ≡ true)

contexts-Ensured :
    (ctx cancel : Option ℕ) (gone : List ℕ) (made : ℕ)
    → IsLinked (contexts ctx cancel gone made)
    → Ensured (ensure_handler_context (contexts ctx cancel gone made))
unfolding ensure_handler_context handler_context
contexts-Ensured none cancel gone made h = (
  new_context-IsLinked (contexts none cancel gone made) h,
  new_context-alive (contexts none cancel gone made) h,
)
contexts-Ensured (some n) cancel gone made h =
    let x : Contexts = contexts (some n) cancel gone made in
    if_lem Ensured (is_cancelled n gone) (new_context x) x
      (λ e. (new_context-IsLinked x h, new_context-alive x h)) (λ e. (h, ap not e))

pub ensure_handler_context-Ensured :
    (x : Contexts) → IsLinked x → Ensured (ensure_handler_context x)
ensure_handler_context-Ensured x h =
    contexts-Ensured x.handler_ctx x.handler_cancel x.cancelled x.made h

module _ (w : Nats) (u : Unicode) (key_pattern : String) (attempts : ℕ → Attempt)
    (ctx_err : ℕ → Error) where
  -- No callback reaches a handler, their context is done, and NATS has no subscription of the client.
  abbrev pub IsSilent : Client → Type 0
  IsSilent c =
      (c.callbacks_enabled ≡ false)
      × (handler_context c.contexts ≡ false)
      × ((s : ℕ) → lookup s c.subscriptions.live ≡ none)

  pub deactivate-IsSilent :
      (op : String) (c : Client)
      → IsSound c.subscriptions
      → IsLinked c.contexts
      → IsSilent
          (deactivate w u key_pattern attempts ctx_err op
            (silence w u key_pattern attempts ctx_err c)).0
  unfolding deactivate silence
  deactivate-IsSilent op c sound linked = (
    refl,
    cancel_handler_context-done c.contexts linked,
    (deactivate_all_lem w op c.subscriptions sound).1,
  )

  pub tell_error-IsSilent :
      (e : Error) (c : Client)
      → IsSilent c
      → IsSilent (tell_error w u key_pattern attempts ctx_err e c)
  unfolding tell_error tell sink
  tell_error-IsSilent e c h =
      if_lem IsSilent (is_nil e) c (tell w u key_pattern attempts ctx_err e c) (λ k. h)
        (λ k. (h.0, h.1, λ s. ground (arith, h.2 s)))

  close_error-is_nil :
      (a b d : Error)
      → is_nil b ≡ false
      → is_nil (close_error w u key_pattern attempts ctx_err a b d) ≡ false
  unfolding close_error
  close_error-is_nil a b d h =
      let sum : is_nil (joined (joined a b) d) ≡ false =
        joined-is_nil (joined a b) d (inl (joined-is_nil a b (inr h))) in
      rw sum refl

  -- What Start leaves: the client runs; or the session could not be started, and nothing else was
  -- touched; or a subscription could not be made, and the client is silent.
  abbrev pub StartOutcome : Client → Client × Error → Type 0
  StartOutcome c r =
      (r.1 ≡ nil)
        × (r.0.callbacks_enabled ≡ true)
        × (handler_context r.0.contexts ≡ true)
        × (r.0.session.health.state ≡ connected)
      ⊎ (is_nil r.1 ≡ false)
        × ((r.0 ≡ record c { session = r.0.session }) × (r.0.session.health.state ≡ degraded)
            ⊎ IsSilent r.0)

  -- A call of Start of a client whose session is free: if it returns nil, the session is connected,
  -- callbacks reach the handlers, and their context is good; if it returns an error, either only the
  -- session has changed, which reports degraded, or callbacks reach no handler, their context is
  -- done, and NATS has no subscription of the client. The conditions are those of the session's
  -- Start: a context that is not done, no retry_on_failed_connect, and no connection but one that is
  -- closed.
  pub start_client_lem :
      (sw : StartWorld) (c : Client)
      → IsFree c.session
      → sw.ctx_err ≡ nil
      → sw.retry_on_failed_connect ≡ false
      → is_some c.session.nc && not sw.nc_closed ≡ false
      → IsSound c.subscriptions
      → IsLinked c.contexts
      → StartOutcome c (start_client w u key_pattern attempts ctx_err sw c)
  unfolding start_client start_ensured start_enabled start_undone
  start_client_lem sw c free ctx retry absent sound linked =
      let (m, e) = start sw c.session in
      let (s, e') = activate_all_registered_subscriptions w "start" c.subscriptions in
      let active : Client = record c { session = m; subscriptions = s } in
      let run : Client = record active {
        callbacks_enabled = true;
        contexts = ensure_handler_context c.contexts;
      } in
      let undone = start_undone w u key_pattern attempts ctx_err active in
      let (done, outcome) = start_lem sw c.session free ctx retry absent in
      let sound' = activate_all-IsSound w "start" c.subscriptions sound in
      if_lem (StartOutcome c) (not (is_nil e)) (record c { session = m }, to_public_error e)
        (if not (is_nil e') then (undone, e') else (run, nil))
        (λ h. elim outcome [
          | inl (e0, some_nc, up) ↦ absurd (ground (arith, e0, h))
          | inr (e0, same, down) ↦ inr (to_public_error-nil e e0, inl (refl, down))
        ])
        (λ h.
          if_lem (StartOutcome c) (not (is_nil e')) (undone, e') (run, nil)
            (λ k. inr (
              ground arith,
              inr (
                  tell_error-IsSilent
                    (deactivate w u key_pattern attempts ctx_err "start_activation_cleanup"
                      (silence w u key_pattern attempts ctx_err active)).1
                    _ (deactivate-IsSilent "start_activation_cleanup" active sound' linked)),
            ))
            (λ k. inl (
              refl,
              refl,
              (ensure_handler_context-Ensured c.contexts linked).1,
              elim outcome [
                | inl (e0, some_nc, up) ↦ up
                | inr (e0, same, down) ↦ absurd (ground (arith, e0, h))
              ],
            )))

  -- Close of a client on whose session no other call runs, which has all three handles or none, and whose
  -- subscriptions, contexts and watches are as any calls, one after another, leave them: it does not wait
  -- for a start; afterwards callbacks reach no handler, their context is done, Unsubscribe was called
  -- for each subscription of the client and the stop function of each of its watches, and the session
  -- has no handle and reports closed, whatever NATS, the watches and the drain answer; and Close returns
  -- an error, or the goroutine of each watch that it stopped had ended when its stop function returned.
  pub close_client_lem :
      (drain_err : Error) (c : Client)
      → IsFree c.session
      → is_some c.session.js ≡ is_some c.session.nc
      → is_some c.session.kv ≡ is_some c.session.nc
      → IsSound c.subscriptions
      → IsLinked c.contexts
      → IsReached u key_pattern w.has_sink attempts ctx_err c.watches
      → (c' : Client) × (e : Error) × (close_client w u key_pattern attempts ctx_err drain_err c
          ≡ some (c', e))
        × IsSilent c'
        × ((n : ℕ) → lookup n c'.watches.watchers.unstopped ≡ none)
        × (is_some c'.session.nc || is_some c'.session.js || is_some c'.session.kv ≡ false)
        × (c'.session.health.state ≡ closed)
        × ((is_nil e ≡ false) ⊎ (c'.watches.watchers.lingering ≡ c.watches.watchers.lingering))
  unfolding close_client closed_with deactivate silence
  close_client_lem drain_err c free js kv sound linked reached =
      let ((m, e), shut, free', gone, state, answer) = close_lem drain_err c.session free js kv in
      let (c1, sub_err) =
        deactivate w u key_pattern attempts ctx_err "close"
          (silence w u key_pattern attempts ctx_err c) in
      let (x, watch_err) = stop_all_watches u key_pattern w.has_sink attempts c.watches in
      (
        record c1 { watches = x; session = m },
        close_error w u key_pattern attempts ctx_err sub_err watch_err (to_public_error e),
        rw shut refl,
        deactivate-IsSilent "close" c sound linked,
        (stop_all_watches_lem u key_pattern w.has_sink attempts ctx_err c.watches reached).1,
        gone,
        state,
        elim (stop_all_watches-IsWaited u key_pattern w.has_sink attempts c.watches) [
          | inl h ↦ inl (close_error-is_nil sub_err watch_err (to_public_error e) h)
          | inr same ↦ inr same
        ],
      )
