-- ===== src/Client/Raced.antt =====
-- agentcore/client.go and agentcore/handlers_runtime.go: what the closing of the session does between the
-- last two statements of Start.
use tip_olg_nats_agent_core.Common.{ℕ, ◌≡◌, refl, ap, ◌∙◌, String, true, false}
use tip_olg_nats_agent_core.Strings.{Unicode}
use tip_olg_nats_agent_core.Errors.{Error}
use tip_olg_nats_agent_core.Kv.Start.{Attempt}
use tip_olg_nats_agent_core.Handlers.{Nats}
use tip_olg_nats_agent_core.Client.Lifecycle.{
  Client, handler_context, silence, deactivate, start_ensured, start_enabled, on_session_closed,
}
use tip_olg_nats_agent_core.Client.Closed.{
  IsLinked, cancel_handler_context-done, ensure_handler_context-Ensured,
}
use tip_olg_nats_agent_core.Client.Enabled.{tell_error-Same}

module _ (w : Nats) (u : Unicode) (key_pattern : String) (attempts : ℕ → Attempt)
    (ctx_err : ℕ → Error) where
  on_session_closed-done :
      (c : Client)
      → IsLinked c.contexts
      → handler_context (on_session_closed w u key_pattern attempts ctx_err c).contexts ≡ false
  unfolding on_session_closed deactivate silence
  on_session_closed-done c linked =
      let c' = silence w u key_pattern attempts ctx_err c in
      let (c2, e) = deactivate w u key_pattern attempts ctx_err "session_closed" c' in
      ap handler_context (tell_error-Same w u key_pattern attempts ctx_err e c2).1
      ∙ cancel_handler_context-done c.contexts linked

  -- Where the session calls onSessionClosed after Start has ensured the context of the handlers and before
  -- it enables callbacks, these are enabled afterwards, and the context is done.
  pub start_enabled-on_session_closed :
      (c : Client)
      → IsLinked c.contexts
      → let c' = start_enabled w u key_pattern attempts ctx_err (
          on_session_closed w u key_pattern attempts ctx_err
            (start_ensured w u key_pattern attempts ctx_err c)) in
        (c'.callbacks_enabled ≡ true) × (handler_context c'.contexts ≡ false)
  unfolding start_enabled start_ensured
  start_enabled-on_session_closed c linked = (
    refl,
    on_session_closed-done (start_ensured w u key_pattern attempts ctx_err c)
        (ensure_handler_context-Ensured c.contexts linked).0,
  )
