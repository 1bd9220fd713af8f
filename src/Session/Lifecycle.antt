-- ===== src/Session/Lifecycle.antt =====
-- internal/session/session.go (NewManager, Start, Close, Connection, KeyValue) and callbacks.go. What a
-- method does under one hold of the lock is one function on the manager; `start` and `close` compose
-- them as the methods do when nothing comes between. Steps.antt lets anything come between.
use tip_olg_nats_agent_core.Common.{
  ℕ, String, Bool, true, false, not, ◌&&◌, ◌||◌, Option, none, some, nat_eq, is_some, if◌then◌else◌,
}
use tip_olg_nats_agent_core.Errors.{
  Error, nil, is_nil, runtime, fault, connection_failed, validation, shutdown, jetstream_failed,
  disconnected,
}
use tip_olg_nats_agent_core.Results.{Result, ok, err}
use tip_olg_nats_agent_core.Session.{Manager, fresh, connecting, draining}
use tip_olg_nats_agent_core.Session.Health.{
  set_state, set_connected, set_reconnecting, set_degraded, set_closed,
}

-- NewManager, with a configuration that normalizeConfig accepts
unfoldable pub new_manager : Manager
new_manager = record {
  nc = none;
  js = none;
  kv = none;
  health = record {
    state = fresh;
    connected_url = "";
    jet_stream_ready = false;
    kv_ready = false;
    registered_subscriptions = 0;
    active_subscriptions = 0;
    last_error = "";
  };
  starting = false;
  start_done = none;
  closing = false;
  close_requested = false;
}

-- What the first hold of the lock in Start decides.
pub data Begun : Type 0 where
  returns : Error → Begun
  proceeds : Begun

-- Start up to the first unlock: of the configuration's RetryOnFailedConnect, of whether the present
-- connection has the status CLOSED, and with the channel that it makes.
unfoldable pub start_begin : Bool → Bool → ℕ → Manager → Manager × Begun
start_begin retry_on_failed_connect nc_closed done m =
    if m.starting
    then (m, returns (runtime (fault validation "start" "start already in progress" false) nil))
    else if m.closing
    then (m, returns (runtime (fault shutdown "start" "close already in progress" true) nil))
    else if retry_on_failed_connect
    then (
      m,
      returns (
          runtime
            (fault validation "start"
              "nats.retry_on_failed_connect is not supported by synchronous start" false)
            nil),
    )
    else if is_some m.nc && not nc_closed
    then (m, returns nil)
    else (set_state (record m { starting = true; start_done = some done }) connecting, proceeds)

-- The clearing of a close that was asked for, which Start makes in two places.
abbrev pub abandon : Manager → Manager
abandon m = set_closed (record m { close_requested = false; closing = false }) nil

-- The last hold of the lock in the body of Start; true if the start is aborted.
unfoldable pub start_commit : ℕ → ℕ → ℕ → String → Manager → Manager × Bool
start_commit nc js kv url m = if m.close_requested || m.closing then (abandon m, true) else (
  set_connected (record m { nc = some nc; js = some js; kv = some kv }) url true true,
  false,
)

-- The same channel.
abbrev pub is_chan : ℕ → Option ℕ → Bool
is_chan d none = false
is_chan d (some c) = nat_eq c d

-- The deferred function of Start.
unfoldable pub start_finish : ℕ → Manager → Manager
start_finish done m =
    let m' = record m {
      start_done = if is_chan done m.start_done then none else m.start_done;
      starting = false;
    } in
    if m.close_requested || m.closing then abandon m' else m'

-- What Start asks of its context and of the NATS packages.
pub record StartWorld : Type 0 where
  pub retry_on_failed_connect : Bool
  pub nc_closed : Bool
  pub done : ℕ
  pub ctx_err : Error
  pub connect : Result ℕ
  pub ctx_err_connected : Error
  pub jet_stream : Result ℕ
  pub key_value : Result ℕ
  pub url : String

-- The body of Start behind its first unlock, with the error that it returns.
unfoldable pub start_body : StartWorld → Manager → Manager × Error
start_body w m = elim w.connect [
  | err e ↦ (
    set_degraded m e,
    runtime (fault connection_failed "start_connect" "failed to connect to NATS" true) e,
  )
  | ok nc ↦
      if not (is_nil w.ctx_err_connected)
      then (
        set_degraded m w.ctx_err_connected,
        runtime
            (fault connection_failed "start_connect"
              "start context canceled during connection setup" true)
            w.ctx_err_connected,
      )
      else elim w.jet_stream [
        | err e ↦ (
          set_degraded m e,
          runtime (fault jetstream_failed "start_jetstream" "failed to initialize JetStream" true)
              e,
        )
        | ok js ↦ elim w.key_value [
          | err e ↦ (
            set_degraded m e,
            runtime
                (fault jetstream_failed "start_kv"
                  "failed to bind or create desired-config KV bucket" true)
                e,
          )
          | ok kv ↦
              let (m', aborted) = start_commit nc js kv w.url m in
              (
                m',
                if aborted
                    then runtime
                        (fault shutdown "start" "start aborted because close was requested" true)
                        nil
                    else nil,
              )
        ]
      ]
]

-- Start
unfoldable pub start : StartWorld → Manager → Manager × Error
start w m =
    if not (is_nil w.ctx_err)
    then (m, runtime (fault connection_failed "start" "start context is not usable" true) w.ctx_err)
    else let (begun, outcome) = start_begin w.retry_on_failed_connect w.nc_closed w.done m in
      elim outcome [
        | returns e ↦ (begun, e)
        | proceeds ↦ let (m', e) = start_body w begun in (start_finish w.done m', e)
      ]

-- What the first hold of the lock in Close decides: the method is done, it waits for the start that
-- owns the channel, or it drains the connection.
pub data CloseBegun : Type 0 where
  done_already : CloseBegun
  waits : ℕ → CloseBegun
  drains : CloseBegun

-- The choice in Close on the channel of a start, once the close is marked.
unfoldable pub close_choice : Manager → Option ℕ → Manager × CloseBegun
close_choice marked (some d) = (set_state marked draining, waits d)
close_choice marked none =
    if is_some marked.nc
    then (set_state marked draining, drains)
    else (record (set_closed marked nil) { close_requested = false; closing = false }, done_already)

-- Close up to its first unlock
unfoldable pub close_begin : Manager → Manager × CloseBegun
close_begin m =
    if m.closing
    then (m, done_already)
    else close_choice (record m { closing = true; close_requested = true }) m.start_done

-- The context is done while Close waits for the start.
unfoldable pub close_cancelled : Error → Manager → Manager
close_cancelled e m = set_degraded m e

-- The last hold of the lock in Close, after the drain.
unfoldable pub close_finish : Error → Manager → Manager
close_finish drain_err m =
    set_closed
      (record m { nc = none; js = none; kv = none; close_requested = false; closing = false })
      drain_err

-- Close when nothing comes between, of the answer of drainConnection for the connection that is
-- there; none where it waits for a start that runs.
unfoldable pub close : Error → Manager → Option (Manager × Error)
close drain_err m =
    let (m', outcome) = close_begin m in
    elim outcome [
      | done_already ↦ some (m', nil)
      | waits d ↦ none
      | drains ↦ some (
        close_finish drain_err m',
        if is_nil drain_err
            then nil
            else runtime (fault shutdown "close" "failed to drain NATS connection cleanly" true)
                drain_err,
      )
    ]

-- onDisconnect
unfoldable pub on_disconnect : Error → Manager → Manager
on_disconnect e m = if m.closing then m else set_reconnecting m e

-- onClosed
unfoldable pub on_closed : Manager → Manager
on_closed m = set_closed m nil

-- rebindAfterReconnect where the JetStream context or the bucket cannot be had
unfoldable pub rebind_failed : Error → Manager → Manager
rebind_failed e m = set_degraded m e

-- rebindAfterReconnect where both are there, for the connection that was handed to it
unfoldable pub rebind_commit : ℕ → ℕ → ℕ → String → Manager → Manager
rebind_commit nc js kv url m =
    if m.closing
    then m
    else if is_chan nc m.nc
    then set_connected (record m { js = some js; kv = some kv }) url true true
    else m

-- Connection, of whether the connection has the status CONNECTED
unfoldable pub connection : Bool → Manager → Result ℕ
connection is_connected m = elim m.nc [
  | none ↦
      err (runtime (fault disconnected "connection" "client runtime is not connected" true) nil)
  | some nc ↦
      if is_connected
      then ok nc
      else err
          (runtime (fault disconnected "connection" "client runtime is not connected" true) nil)
]

-- KeyValue
unfoldable pub key_value : Bool → Manager → Result ℕ
key_value is_connected m = elim m.kv [
  | none ↦ err (runtime (fault disconnected "key_value" "client runtime is not connected" true) nil)
  | some kv ↦
      if is_some m.nc && is_connected
      then ok kv
      else err (runtime (fault disconnected "key_value" "client runtime is not connected" true) nil)
]
