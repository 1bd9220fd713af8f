-- ===== src/Client/Lives.antt =====
-- The theorems on Start and Close of a client at concrete clients.
use tip_olg_nats_agent_core.Common.{
  ◌⊎◌, ℕ, ◌≡◌, refl, true, false, ◌||◌, none, some, [], arith, is_some, lookup, nat_key,
}
use tip_olg_nats_agent_core.Errors.{Error, nil, is_nil, external, other}
use tip_olg_nats_agent_core.Results.{ok}
use tip_olg_nats_agent_core.Session.{closed}
use tip_olg_nats_agent_core.Session.Lifecycle.{StartWorld, new_manager}
use tip_olg_nats_agent_core.Session.Outcome.{IsFree}
use tip_olg_nats_agent_core.Handlers.{Nats}
use tip_olg_nats_agent_core.Handlers.Steps.{no_subscriptions, none-IsSound}
use tip_olg_nats_agent_core.Client.Lifecycle.{
  Contexts, Client, start_client, close_client, is_cancelled, handler_context,
  on_session_disconnected, on_session_closed, start_ensured, start_enabled, panics_hook,
}
use tip_olg_nats_agent_core.Client.Closed.{
  IsLinked, IsSilent, StartOutcome, start_client_lem, close_client_lem,
}
use tip_olg_nats_agent_core.Client.Enabled.{
  IsGuarded, run_new, run_start, run_disconnected, IsRun-IsGuarded,
}
use tip_olg_nats_agent_core.Client.Raced.{start_enabled-on_session_closed}
use tip_olg_nats_agent_core.Client.Examples.{ascii}
use tip_olg_nats_agent_core.Client.Runs.{attempts, not_done, pattern, again, watched_again}

abbrev nats : Nats
nats = record { has_sink = true; answer = λ i. nil }

abbrev first_start : StartWorld
first_start = record {
  retry_on_failed_connect = false;
  nc_closed = false;
  done = 0;
  ctx_err = nil;
  connect = ok 1;
  ctx_err_connected = nil;
  jet_stream = ok 2;
  key_value = ok 3;
  url = "nats://a";
}

abbrev no_context : Contexts
no_context = record { handler_ctx = none; handler_cancel = none; cancelled = []; made = 0 }

abbrev still : Client
still = record {
  session = new_manager;
  subscriptions = no_subscriptions;
  watches = again;
  callbacks_enabled = false;
  contexts = no_context;
  reconnected = 0;
  disconnected = 0;
}

new_manager-IsFree : IsFree new_manager
unfolding new_manager
new_manager-IsFree = record {
  not_starting = refl;
  no_channel = refl;
  not_closing = refl;
  not_requested = refl;
}

no_context-IsLinked : IsLinked no_context
unfolding handler_context is_cancelled
no_context-IsLinked = (λ e. refl, λ n k. refl, λ n k. absurd (ground arith))

start_client_lem_example :
    StartOutcome nats ascii pattern attempts not_done still
      (start_client nats ascii pattern attempts not_done first_start still)
unfolding new_manager
start_client_lem_example =
    start_client_lem nats ascii pattern attempts not_done first_start still new_manager-IsFree refl
      refl refl none-IsSound no_context-IsLinked

close_client_lem_example :
    (c' : Client) × (e : Error) × (close_client nats ascii pattern attempts not_done
        (external other "drain")
        still
      ≡ some (c', e))
    × IsSilent nats ascii pattern attempts not_done c'
    × ((n : ℕ) → lookup n c'.watches.watchers.unstopped ≡ none)
    × (is_some c'.session.nc || is_some c'.session.js || is_some c'.session.kv ≡ false)
    × (c'.session.health.state ≡ closed)
    × ((is_nil e ≡ false) ⊎ (c'.watches.watchers.lingering ≡ still.watches.watchers.lingering))
unfolding new_manager
close_client_lem_example =
    close_client_lem nats ascii pattern attempts not_done (external other "drain") still
      new_manager-IsFree refl refl none-IsSound no_context-IsLinked watched_again

abbrev started : Client
started =
    on_session_disconnected nats ascii pattern attempts not_done (panics_hook "no")
      (start_client nats ascii pattern attempts not_done first_start still).0

IsRun-IsGuarded_example : IsGuarded nats ascii pattern attempts not_done started
IsRun-IsGuarded_example = IsRun-IsGuarded nats ascii pattern attempts not_done started (
    run_disconnected (panics_hook "no")
      (start_client nats ascii pattern attempts not_done first_start still).0
      (run_start first_start still (run_new still refl refl)))

start_enabled-on_session_closed_example :
    let c' = start_enabled nats ascii pattern attempts not_done (
      on_session_closed nats ascii pattern attempts not_done
        (start_ensured nats ascii pattern attempts not_done still)) in
    (c'.callbacks_enabled ≡ true) × (handler_context c'.contexts ≡ false)
start_enabled-on_session_closed_example =
    start_enabled-on_session_closed nats ascii pattern attempts not_done still no_context-IsLinked
