-- ===== src/Session/Outcome.antt =====
-- Start and Close of internal/session/session.go with nothing between their holds of the lock.
use tip_olg_nats_agent_core.Common.{
  ℕ, true, false, not, ◌&&◌, ◌||◌, Option, none, some, ◌≡◌, refl, sym, subst, ◌⊎◌, inl, inr, ap,
  ◌∙◌, is_some, arith, nat_eq_iff,
}
use tip_olg_nats_agent_core.Errors.{Error, nil, is_nil}
use tip_olg_nats_agent_core.Session.{Manager, connected, connecting, closed, degraded}
use tip_olg_nats_agent_core.Session.Health.{set_state}
use tip_olg_nats_agent_core.Session.Lifecycle.{
  StartWorld, start, start_begin, start_body, start_commit, start_finish, close, close_begin,
  close_choice, close_finish,
}

-- A manager with no mark of a start or a close.
pub record IsFree (m : Manager) : Type 0 where
  pub not_starting : m.starting ≡ false
  pub no_channel : m.start_done ≡ none
  pub not_closing : m.closing ≡ false
  pub not_requested : m.close_requested ≡ false

-- What is left of a start that was let through.
record HasOutcome (m m' : Manager) (e : Error) : Type 0 where
  closing : m'.closing ≡ false
  requested : m'.close_requested ≡ false
  channel : m'.start_done ≡ m.start_done
  outcome :
      (e ≡ nil) × (is_some m'.nc ≡ true) × (m'.health.state ≡ connected)
      ⊎ (is_nil e ≡ false) × (m'.nc ≡ m.nc) × (m'.health.state ≡ degraded)

body_lem :
    (w : StartWorld) (m : Manager)
    → m.closing ≡ false
    → m.close_requested ≡ false
    → HasOutcome m (start_body w m).0 (start_body w m).1
unfolding start_body start_commit
body_lem w m c q = record {
  closing = ground arith;
  requested = ground arith;
  channel = ground arith;
  outcome = ground arith;
}

finish_lem :
    (m : Manager) (d : ℕ)
    → m.closing ≡ false
    → m.close_requested ≡ false
    → m.start_done ≡ some d
    → (IsFree (start_finish d m))
      × ((start_finish d m).nc ≡ m.nc)
      × ((start_finish d m).health ≡ m.health)
unfolding start_finish
finish_lem m d c q h = (
  record {
    not_starting = ground arith;
    no_channel = ground (arith, (nat_eq_iff d d).1);
    not_closing = ground arith;
    not_requested = ground arith;
  },
  ground arith,
  ground arith,
)

abbrev begun : ℕ → Manager → Manager
begun d m = set_state (record m { starting = true; start_done = some d }) connecting

module _ (w : StartWorld) (m : Manager) (free : IsFree m) (ctx : w.ctx_err ≡ nil)
    (retry : w.retry_on_failed_connect ≡ false)
    (absent : is_some m.nc && not w.nc_closed ≡ false) where
  start_runs_lem :
      start w m
      ≡ (start_finish w.done (start_body w (begun w.done m)).0, (start_body w (begun w.done m)).1)
  unfolding start start_begin
  start_runs_lem = ground (arith, ctx, retry, absent, free.not_starting, free.not_closing)

  -- A call of Start that no other call interferes with ends with no mark left on the manager,
  -- whatever the NATS packages answer. If it returns nil, the manager has a connection and reports
  -- connected; if it returns an error, the manager has the connection that it had and reports
  -- degraded. The conditions: no mark of a start or a close, a context that is not done, no
  -- retry_on_failed_connect, and no connection but one that is closed.
  pub start_lem :
      (IsFree (start w m).0)
      × (((start w m).1 ≡ nil)
            × (is_some (start w m).0.nc ≡ true)
            × ((start w m).0.health.state ≡ connected)
          ⊎ (is_nil (start w m).1 ≡ false)
            × ((start w m).0.nc ≡ m.nc)
            × ((start w m).0.health.state ≡ degraded))
  start_lem =
      let body = body_lem w (begun w.done m) free.not_closing free.not_requested in
      let (fin, same_nc, same_health) =
        finish_lem (start_body w (begun w.done m)).0 w.done body.closing body.requested
          body.channel in
      let state = ap (λ h. h.state) same_health in
      subst
        (λ r.
          (IsFree r.0)
          × ((r.1 ≡ nil) × (is_some r.0.nc ≡ true) × (r.0.health.state ≡ connected)
              ⊎ (is_nil r.1 ≡ false) × (r.0.nc ≡ m.nc) × (r.0.health.state ≡ degraded)))
        (sym start_runs_lem)
        (
          fin,
          elim body.outcome [
            | inl (e, c, k) ↦ inl (e, ap is_some same_nc ∙ c, state ∙ k)
            | inr (e, c, k) ↦ inr (e, same_nc ∙ c, state ∙ k)
          ],
        )

-- A call of Close that no other call interferes with does not wait, and leaves no handle and no mark on
-- the manager, which reports closed, whatever the drain answers. It returns nil exactly if there was
-- no connection or the drain returned nil.
pub close_lem :
    (drain_err : Error) (m : Manager)
    → IsFree m
    → (is_some m.js ≡ is_some m.nc)
    → (is_some m.kv ≡ is_some m.nc)
    → (r : Manager × Error) × (close drain_err m ≡ some r)
      × (IsFree r.0)
      × (is_some r.0.nc || is_some r.0.js || is_some r.0.kv ≡ false)
      × (r.0.health.state ≡ closed)
      × (is_nil r.1 ≡ not (is_some m.nc) || is_nil drain_err)
unfolding close close_begin close_choice close_finish
close_lem e m free js kv = go (close e m) refl
  where
    go :
        (o : Option (Manager × Error))
        → close e m ≡ o
        → (r : Manager × Error) × (close e m ≡ some r)
          × (IsFree r.0)
          × (is_some r.0.nc || is_some r.0.js || is_some r.0.kv ≡ false)
          × (r.0.health.state ≡ closed)
          × (is_nil r.1 ≡ not (is_some m.nc) || is_nil e)
    go none h = absurd (ground arith)
    go (some r) h = (
      r,
      h,
      record {
        not_starting = ground arith;
        no_channel = ground arith;
        not_closing = ground arith;
        not_requested = ground arith;
      },
      ground arith,
      ground arith,
      ground arith,
    )
