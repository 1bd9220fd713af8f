-- ===== src/Session/Steps.antt =====
-- Start and Close of internal/session/session.go and the callbacks of callbacks.go, run by any number of
-- goroutines: a step is what one of them does under one hold of the lock, and the steps of different
-- goroutines come in any order.
use tip_olg_nats_agent_core.Common.{ℕ, suc, String, Bool, false, List, [], ◌∷◌, ◌++◌, ◌≡◌}
use tip_olg_nats_agent_core.Errors.{Error}
use tip_olg_nats_agent_core.Session.{Manager}
use tip_olg_nats_agent_core.Session.Health.{set_degraded, set_subscription_counts}
use tip_olg_nats_agent_core.Session.Lifecycle.{
  new_manager, proceeds, start_begin, start_commit, start_finish, is_chan, done_already, waits,
  drains, close_begin, close_cancelled, close_finish, on_disconnect, on_closed, rebind_failed,
  rebind_commit,
}

-- Where the one Start stands that was let through, by its channel: it has not reached its last hold of
-- the lock, or only its deferred function is left.
pub data StartAt : Type 0 where
  idle : StartAt
  busy : ℕ → StartAt
  ending : ℕ → StartAt

-- The manager with the goroutines that are inside Start and Close: `waiting` has the channels that
-- calls of Close wait for, `draining` counts the calls of Close that drain a connection, and `made`
-- the channels made so far.
pub record System : Type 0 where
  pub m : Manager
  pub at : StartAt
  pub waiting : List ℕ
  pub draining : ℕ
  pub made : ℕ

-- The system after a step that changes the manager only.
abbrev pub with_m : System → Manager → System
with_m s m' = record s { m = m' }

pub data Step (s : System) : System → Type 0 where
  -- Start is let through; the channel is a new one
  starts :
      (nc_closed : Bool) (m' : Manager)
      → s.at ≡ idle
      → start_begin false nc_closed s.made s.m ≡ (m', proceeds)
      → Step s (record s { m = m'; at = busy s.made; made = suc s.made })
  -- Start fails to connect, or to make a handle
  fails :
      (d : ℕ) (e : Error)
      → s.at ≡ busy d
      → Step s (record s { m = set_degraded s.m e; at = ending d })
  -- Start has its handles and is at its last hold of the lock
  commits :
      (d nc js kv : ℕ) (url : String)
      → s.at ≡ busy d
      → Step s (record s { m = (start_commit nc js kv url s.m).0; at = ending d })
  -- the deferred function of Start
  finishes : (d : ℕ) → s.at ≡ ending d → Step s (record s { m = start_finish d s.m; at = idle })
  -- Close has nothing to do
  close_returns : (m' : Manager) → close_begin s.m ≡ (m', done_already) → Step s (with_m s m')
  -- Close waits for the start
  close_waits :
      (m' : Manager) (d : ℕ)
      → close_begin s.m ≡ (m', waits d)
      → Step s (record s { m = m'; waiting = d ∷ s.waiting })
  -- Close drains at once
  close_drains :
      (m' : Manager)
      → close_begin s.m ≡ (m', drains)
      → Step s (record s { m = m'; draining = suc s.draining })
  -- the channel is closed, and a Close that waits for it goes on to drain
  resumes :
      (before after : List ℕ) (d : ℕ)
      → s.waiting ≡ before ++ d ∷ after
      → is_chan d s.m.start_done ≡ false
      → Step s (record s { waiting = before ++ after; draining = suc s.draining })
  -- the context of a Close that waits is done
  cancels :
      (before after : List ℕ) (d : ℕ) (e : Error)
      → s.waiting ≡ before ++ d ∷ after
      → Step s (record s { m = close_cancelled e s.m; waiting = before ++ after })
  -- Close has drained the connection
  closes :
      (n : ℕ) (e : Error)
      → s.draining ≡ suc n
      → Step s (record s { m = close_finish e s.m; draining = n })
  -- the NATS client calls back
  disconnects : (e : Error) → Step s (with_m s (on_disconnect e s.m))
  is_closed : Step s (with_m s (on_closed s.m))
  -- rebindAfterReconnect is at its last hold of the lock
  rebind_fails : (e : Error) → Step s (with_m s (rebind_failed e s.m))
  rebinds : (nc js kv : ℕ) (url : String) → Step s (with_m s (rebind_commit nc js kv url s.m))
  -- the client reports its subscriptions
  counts :
      (registered active : ℕ) → Step s (with_m s (set_subscription_counts s.m registered active))

-- A manager with no call under way.
abbrev pub quiet : Manager → System
quiet m = record { m = m; at = idle; waiting = []; draining = 0; made = 0 }

-- The systems that a new manager can come to.
pub data Reach : System → Type 0 where
  initial : Reach (quiet new_manager)
  next : (s s' : System) → Reach s → Step s s' → Reach s'
