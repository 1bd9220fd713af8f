-- ===== src/Client/Lifecycle.antt =====
-- agentcore/client.go: Start and Close of a client, and agentcore/handlers_runtime.go: what its session
-- calls when the connection is lost, comes back or is closed. A context is known by a number.
use Prim.Native.String.{◌++◌}
use tip_olg_nats_agent_core.Common.{
  ℕ, suc, String, Bool, true, false, not, Option, none, some, List, [], ◌∷◌, nat_eq, if◌then◌else◌,
}
use tip_olg_nats_agent_core.Strings.{Unicode}
use tip_olg_nats_agent_core.Errors.{
  Error, nil, is_nil, external, other, facade, fault, shutdown, joined, to_public_error,
}
use tip_olg_nats_agent_core.Session.{Manager, HealthSnapshot}
use tip_olg_nats_agent_core.Session.Lifecycle.{StartWorld, start, close}
use tip_olg_nats_agent_core.Kv.Start.{Attempt}
use tip_olg_nats_agent_core.Handlers.{Nats, Subscriptions, sink}
use tip_olg_nats_agent_core.Handlers.Activate.{
  activate_all_registered_subscriptions, deactivate_all_subscriptions,
}
use tip_olg_nats_agent_core.Handlers.Restore.{restore_all_registered_subscriptions}
use tip_olg_nats_agent_core.Client.Watches.{Watches, stop_all_watches}
use tip_olg_nats_agent_core.Client.Rewatch.{restore_all_active_watches}

-- handlerCtx and handlerCancel, with the contexts that were cancelled and the number of those made.
pub record Contexts : Type 0 where
  pub handler_ctx : Option ℕ
  pub handler_cancel : Option ℕ
  pub cancelled : List ℕ
  pub made : ℕ

-- Client
pub record Client : Type 0 where
  pub session : Manager
  pub subscriptions : Subscriptions
  pub watches : Watches
  pub callbacks_enabled : Bool
  pub contexts : Contexts
  pub reconnected : ℕ
  pub disconnected : ℕ

-- reconnectHandler and disconnectHandler: absent, one that returns, or one that panics with a text.
pub data Hook : Type 0 where
  no_hook returns_hook : Hook
  panics_hook : String → Hook

unfoldable pub is_cancelled : ℕ → List ℕ → Bool
is_cancelled n [] = false
is_cancelled n (k ∷ rest) = let later = is_cancelled n rest in if nat_eq k n then true else later

unfoldable pub new_context : Contexts → Contexts
new_context x = record x {
  handler_ctx = some x.made;
  handler_cancel = some x.made;
  made = suc x.made;
}

-- ensureHandlerContext
unfoldable pub ensure_handler_context : Contexts → Contexts
ensure_handler_context x = elim x.handler_ctx [
  | none ↦ new_context x
  | some n ↦ if is_cancelled n x.cancelled then new_context x else x
]

-- cancelHandlerContext
unfoldable pub cancel_handler_context : Contexts → Contexts
cancel_handler_context x = elim x.handler_cancel [
  | none ↦ x
  | some n ↦ record x { handler_cancel = none; cancelled = n ∷ x.cancelled }
]

-- Whether the context that handlerContext gives is still good; canceledCtx is not.
unfoldable pub handler_context : Contexts → Bool
handler_context x = elim x.handler_ctx [ none ↦ false | some n ↦ not (is_cancelled n x.cancelled) ]

module _ (w : Nats) (u : Unicode) (key_pattern : String) (attempts : ℕ → Attempt)
    (ctx_err : ℕ → Error) where
  -- The error sink of the client, where it is told.
  unfoldable pub tell : Error → Client → Client
  tell e c = record c { subscriptions = sink w e c.subscriptions }

  -- `if err := …; err != nil { … errorSink(err) }`
  unfoldable pub tell_error : Error → Client → Client
  tell_error e c = if is_nil e then c else tell e c

  -- No callback reaches a handler, and the context of the handlers is done.
  unfoldable pub silence : Client → Client
  silence c = record c { callbacks_enabled = false; contexts = cancel_handler_context c.contexts }

  -- deactivateAllSubscriptionsWithOp
  unfoldable pub deactivate : String → Client → Client × Error
  deactivate op c =
      let (s, e) = deactivate_all_subscriptions w op c.subscriptions in
      (record c { subscriptions = s }, e)

  -- Start where the subscriptions could not all be made
  unfoldable pub start_undone : Client → Client
  start_undone c =
      let (c', e) = deactivate "start_activation_cleanup" (silence c) in tell_error e c'

  -- The last two statements of Start.
  unfoldable pub start_ensured : Client → Client
  start_ensured c = record c { contexts = ensure_handler_context c.contexts }

  unfoldable pub start_enabled : Client → Client
  start_enabled c = record c { callbacks_enabled = true }

  -- Start
  unfoldable pub start_client : StartWorld → Client → Client × Error
  start_client sw c =
      let (m, e) = start sw c.session in
      let started : Client = record c { session = m } in
      let (s, e') = activate_all_registered_subscriptions w "start" c.subscriptions in
      let active : Client = record started { subscriptions = s } in
      if not (is_nil e)
      then (started, to_public_error e)
      else if not (is_nil e')
      then (start_undone active, e')
      else (start_enabled (start_ensured active), nil)

  unfoldable pub close_error : Error → Error → Error → Error
  close_error sub_err watch_err session_err =
      let sum = joined (joined sub_err watch_err) session_err in
      if is_nil sum
      then nil
      else facade (fault shutdown "close" "client close operation encountered errors" false) sum

  -- Close behind closeSession; no answer is that the session waits for a start that runs
  unfoldable pub closed_with :
      Error → Error → Client → Option (Manager × Error) → Option (Client × Error)
  closed_with sub_err watch_err c none = none
  closed_with sub_err watch_err c (some (m, e)) =
      some (record c { session = m }, close_error sub_err watch_err (to_public_error e))

  -- Close, of what draining the connection answers
  unfoldable pub close_client : Error → Client → Option (Client × Error)
  close_client drain_err c =
      let (c1, sub_err) = deactivate "close" (silence c) in
      let (x, watch_err) = stop_all_watches u key_pattern w.has_sink attempts c1.watches in
      closed_with sub_err watch_err (record c1 { watches = x }) (close drain_err c1.session)

  -- A hook is called, and a panic of it is caught.
  unfoldable pub call_hook : String → Hook → Client → Client
  call_hook what no_hook c = c
  call_hook what returns_hook c = c
  call_hook what (panics_hook text) c =
      tell (external other (what ++ (" handler panicked: " ++ text))) c

  unfoldable pub is_hook : Hook → Bool
  is_hook no_hook = false
  is_hook _ = true

  -- onSessionReconnected behind restoreAllActiveWatches
  unfoldable pub rewatched : Hook → Client → Watches × Error → Client
  rewatched hook c (x, e) =
      let c' : Client = record c { watches = x } in
      if not (is_nil e)
      then tell e c'
      else call_hook "reconnect" hook
          (if is_hook hook then record c' { reconnected = suc c'.reconnected } else c')

  -- onSessionReconnected; no answer is that it panics
  unfoldable pub on_session_reconnected : Hook → Client → Option Client
  on_session_reconnected hook c =
      let (s, e) = restore_all_registered_subscriptions w c.subscriptions in
      let c' : Client = record c { subscriptions = s } in
      let watched =
        restore_all_active_watches u key_pattern w.has_sink attempts ctx_err c'.watches in
      if not c.callbacks_enabled
      then some c
      else if not (is_nil e)
      then some (tell e c')
      else elim watched [ none ↦ none | some answer ↦ some (rewatched hook c' answer) ]

  -- onSessionDisconnected
  unfoldable pub on_session_disconnected : Hook → Client → Client
  on_session_disconnected hook c =
      if not c.callbacks_enabled
      then c
      else call_hook "disconnect" hook
          (if is_hook hook then record c { disconnected = suc c.disconnected } else c)

  -- onSessionClosed
  unfoldable pub on_session_closed : Client → Client
  on_session_closed c = let (c', e) = deactivate "session_closed" (silence c) in tell_error e c'

-- fromSessionHealth
unfoldable pub from_session_health : HealthSnapshot → HealthSnapshot
from_session_health snapshot = record {
  state = snapshot.state;
  connected_url = snapshot.connected_url;
  jet_stream_ready = snapshot.jet_stream_ready;
  kv_ready = snapshot.kv_ready;
  registered_subscriptions = snapshot.registered_subscriptions;
  active_subscriptions = snapshot.active_subscriptions;
  last_error = snapshot.last_error;
}
