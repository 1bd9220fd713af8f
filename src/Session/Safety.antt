-- ===== src/Session/Safety.antt =====
-- What holds of the manager whatever the order in which Start, Close and the callbacks come.
use tip_olg_nats_agent_core.Common.{
  ℕ, ◌<◌, String, Bool, true, false, Option, none, some, ◌≡◌, refl, sym, subst, ap, ◌∙◌, ◌⊎◌, inl,
  inr, arith, is_some, nat_eq_iff,
}
use tip_olg_nats_agent_core.Errors.{Error}
use tip_olg_nats_agent_core.Session.{Manager}
use tip_olg_nats_agent_core.Session.Coherent.{
  IsCoherent, agrees, new-IsCoherent, start_begin-IsCoherent, start_commit-IsCoherent,
  start_finish-IsCoherent, close_begin-IsCoherent, close_finish-IsCoherent, degraded-IsCoherent,
  on_closed-IsCoherent, on_disconnect-IsCoherent, rebind_commit-IsCoherent, counts-IsCoherent,
}
use tip_olg_nats_agent_core.Session.Steps.{
  System, StartAt, idle, busy, ending, Step, starts, fails, commits, finishes, close_returns,
  close_waits, close_drains, resumes, cancels, closes, disconnects, is_closed, rebind_fails,
  rebinds, counts, Reach, initial, next,
}
use tip_olg_nats_agent_core.Session.Lifecycle.{
  new_manager, proceeds, start_begin, start_commit, start_finish, done_already, waits, drains,
  close_choice, close_begin, close_cancelled, close_finish, on_disconnect, on_closed, rebind_failed,
  rebind_commit,
}

-- The marks that the manager has of a start.
unfoldable pub runs : StartAt → Bool
runs idle = false
runs (busy d) = true
runs (ending d) = true

unfoldable pub chan_of : StartAt → Option ℕ
chan_of idle = none
chan_of (busy d) = some d
chan_of (ending d) = some d

-- What each outcome of close_begin says.
close_waits_lem :
    (m m' : Manager) (d : ℕ)
    → close_begin m ≡ (m', waits d)
    → (m'.starting ≡ m.starting) × (m'.start_done ≡ m.start_done) × (m.start_done ≡ some d)
unfolding close_begin close_choice
close_waits_lem m m' d h = ground arith

close_drains_lem :
    (m m' : Manager)
    → close_begin m ≡ (m', drains)
    → (m'.starting ≡ m.starting) × (m'.start_done ≡ m.start_done)
unfolding close_begin close_choice
close_drains_lem m m' h = ground arith

close_returns_lem :
    (m m' : Manager)
    → close_begin m ≡ (m', done_already)
    → (m'.starting ≡ m.starting)
      × (m'.start_done ≡ m.start_done)
      × ((m'.closing ≡ true) → m.closing ≡ true)
unfolding close_begin close_choice
close_returns_lem m m' h = ground arith

starts_lem :
    (m m' : Manager) (r b : Bool) (d : ℕ)
    → start_begin r b d m ≡ (m', proceeds)
    → (m'.starting ≡ true) × (m'.start_done ≡ some d)
unfolding start_begin
starts_lem m m' r b d h = ground arith

-- What the goroutines inside Start and Close have to do with the manager's marks of them: the start
-- that runs owns the channel, and a close that is marked has a start or a drain to clear it.
pub record IsAccounted (s : System) : Type 0 where
  pub coherent : IsCoherent s.m
  pub start_mark : s.m.starting ≡ runs s.at
  pub start_chan : s.m.start_done ≡ chan_of s.at
  pub close_mark : s.m.closing ≡ true → (runs s.at ≡ true) ⊎ (0 < s.draining)

commit_marks_lem :
    (m : Manager) (nc js kv : ℕ) (url : String)
    → let m' = (start_commit nc js kv url m).0 in
      (m'.starting ≡ m.starting)
      × (m'.start_done ≡ m.start_done)
      × (m'.closing ≡ true → m.closing ≡ true)
unfolding start_commit
commit_marks_lem m nc js kv url = ground arith

finish_marks_lem :
    (m : Manager) (d : ℕ)
    → m.start_done ≡ some d
    → let m' = start_finish d m in
      (m'.starting ≡ false) × (m'.start_done ≡ none) × (m'.closing ≡ false)
unfolding start_finish
finish_marks_lem m d h = ground (arith, h, (nat_eq_iff d d).0)

disconnect_marks_lem :
    (m : Manager) (e : Error)
    → let m' = on_disconnect e m in
      (m'.starting ≡ m.starting) × (m'.start_done ≡ m.start_done) × (m'.closing ≡ m.closing)
unfolding on_disconnect
disconnect_marks_lem m e = ground arith

rebind_marks_lem :
    (m : Manager) (nc js kv : ℕ) (url : String)
    → let m' = rebind_commit nc js kv url m in
      (m'.starting ≡ m.starting) × (m'.start_done ≡ m.start_done) × (m'.closing ≡ m.closing)
unfolding rebind_commit
rebind_marks_lem m nc js kv url = ground arith

chan-runs : (a : StartAt) (d : ℕ) → chan_of a ≡ some d → runs a ≡ true
unfolding chan_of runs
chan-runs idle d h = absurd (ground arith)
chan-runs (busy c) d h = refl
chan-runs (ending c) d h = refl

-- A step keeps the accounts.
pub step-IsAccounted : (s s' : System) → IsAccounted s → Step s s' → IsAccounted s'
unfolding runs chan_of close_cancelled close_finish on_closed rebind_failed
step-IsAccounted s _ a (starts b m' at h) =
    let marks = starts_lem s.m m' false b s.made h in
    record {
      coherent =
          subst IsCoherent (ap (λ p. p.0) h) (start_begin-IsCoherent s.m a.coherent false b s.made);
      start_mark = marks.0;
      start_chan = marks.1;
      close_mark = λ k. inl refl;
    }
step-IsAccounted s _ a (fails d e at) = record {
  coherent = degraded-IsCoherent s.m a.coherent e;
  start_mark = a.start_mark ∙ ap runs at;
  start_chan = a.start_chan ∙ ap chan_of at;
  close_mark = λ k. inl refl;
}
step-IsAccounted s _ a (commits d nc js kv url at) =
    let marks = commit_marks_lem s.m nc js kv url in
    record {
      coherent = start_commit-IsCoherent s.m a.coherent nc js kv url;
      start_mark = marks.0 ∙ a.start_mark ∙ ap runs at;
      start_chan = marks.1 ∙ a.start_chan ∙ ap chan_of at;
      close_mark = λ k. inl refl;
    }
step-IsAccounted s _ a (finishes d at) =
    let marks = finish_marks_lem s.m d (a.start_chan ∙ ap chan_of at) in
    record {
      coherent = start_finish-IsCoherent s.m a.coherent d;
      start_mark = marks.0;
      start_chan = marks.1;
      close_mark = λ k. let off = marks.2 in absurd (grind arith);
    }
step-IsAccounted s _ a (close_returns m' h) =
    let marks = close_returns_lem s.m m' h in
    record {
      coherent = subst IsCoherent (ap (λ p. p.0) h) (close_begin-IsCoherent s.m a.coherent);
      start_mark = marks.0 ∙ a.start_mark;
      start_chan = marks.1 ∙ a.start_chan;
      close_mark = λ k. a.close_mark (marks.2 k);
    }
step-IsAccounted s _ a (close_waits m' d h) =
    let marks = close_waits_lem s.m m' d h in
    record {
      coherent = subst IsCoherent (ap (λ p. p.0) h) (close_begin-IsCoherent s.m a.coherent);
      start_mark = marks.0 ∙ a.start_mark;
      start_chan = marks.1 ∙ a.start_chan;
      close_mark = λ k. inl (chan-runs s.at d (sym a.start_chan ∙ marks.2));
    }
step-IsAccounted s _ a (close_drains m' h) =
    let marks = close_drains_lem s.m m' h in
    record {
      coherent = subst IsCoherent (ap (λ p. p.0) h) (close_begin-IsCoherent s.m a.coherent);
      start_mark = marks.0 ∙ a.start_mark;
      start_chan = marks.1 ∙ a.start_chan;
      close_mark = λ k. inr (omega arith);
    }
step-IsAccounted s _ a (resumes before after d w off) = record {
  coherent = a.coherent;
  start_mark = a.start_mark;
  start_chan = a.start_chan;
  close_mark = λ k. inr (omega arith);
}
step-IsAccounted s _ a (cancels before after d e w) = record {
  coherent = degraded-IsCoherent s.m a.coherent e;
  start_mark = a.start_mark;
  start_chan = a.start_chan;
  close_mark = a.close_mark;
}
step-IsAccounted s _ a (closes n e at) = record {
  coherent = close_finish-IsCoherent s.m a.coherent e;
  start_mark = a.start_mark;
  start_chan = a.start_chan;
  close_mark = λ k. absurd (ground arith);
}
step-IsAccounted s _ a (disconnects e) =
    let marks = disconnect_marks_lem s.m e in
    record {
      coherent = on_disconnect-IsCoherent s.m a.coherent e;
      start_mark = marks.0 ∙ a.start_mark;
      start_chan = marks.1 ∙ a.start_chan;
      close_mark = λ k. a.close_mark (sym marks.2 ∙ k);
    }
step-IsAccounted s _ a is_closed = record {
  coherent = on_closed-IsCoherent s.m a.coherent;
  start_mark = a.start_mark;
  start_chan = a.start_chan;
  close_mark = a.close_mark;
}
step-IsAccounted s _ a (rebind_fails e) = record {
  coherent = degraded-IsCoherent s.m a.coherent e;
  start_mark = a.start_mark;
  start_chan = a.start_chan;
  close_mark = a.close_mark;
}
step-IsAccounted s _ a (rebinds nc js kv url) =
    let marks = rebind_marks_lem s.m nc js kv url in
    record {
      coherent = rebind_commit-IsCoherent s.m a.coherent nc js kv url;
      start_mark = marks.0 ∙ a.start_mark;
      start_chan = marks.1 ∙ a.start_chan;
      close_mark = λ k. a.close_mark (sym marks.2 ∙ k);
    }
step-IsAccounted s _ a (counts r n) = record {
  coherent = counts-IsCoherent s.m a.coherent r n;
  start_mark = a.start_mark;
  start_chan = a.start_chan;
  close_mark = a.close_mark;
}

-- Every system that a new manager can come to is accounted for.
pub Reach-IsAccounted : (s : System) → Reach s → IsAccounted s
unfolding runs chan_of new_manager
Reach-IsAccounted _ initial = record {
  coherent = new-IsCoherent;
  start_mark = refl;
  start_chan = refl;
  close_mark = λ k. absurd (ground arith);
}
Reach-IsAccounted s' (next s _ before step) =
    step-IsAccounted s s' (Reach-IsAccounted s before) step

-- In whatever order the calls of Start and Close and the callbacks come, a manager that reports
-- connected has a connection and reports JetStream and the bucket ready; one that reports fresh,
-- reconnecting, closed or degraded reports neither ready; and the connection, the JetStream context and
-- the bucket are there together or not at all.
pub Reach-handles :
    (s : System)
    → Reach s
    → (agrees s.m.health.state s.m.health.jet_stream_ready s.m.health.kv_ready (is_some s.m.nc)
        ≡ true)
      × (is_some s.m.js ≡ is_some s.m.nc)
      × (is_some s.m.kv ≡ is_some s.m.nc)
Reach-handles s r = let c = (Reach-IsAccounted s r).coherent in (c.healthy, c.has_js, c.has_kv)

-- In whatever order the calls of Start and Close and the callbacks have come: once no Start is under way
-- and no Close is draining, the manager's marks of a start and of a close (starting, startDone, closing
-- and closeRequested) are all clear.
pub Reach-quiet :
    (s : System)
    → Reach s
    → s.at ≡ idle
    → s.draining ≡ 0
    → (s.m.starting ≡ false)
      × (s.m.closing ≡ false)
      × (s.m.close_requested ≡ false)
      × (s.m.start_done ≡ none)
unfolding runs chan_of
Reach-quiet s r at d =
    let a = Reach-IsAccounted s r in
    let c = a.coherent in ground (arith, a.start_mark, a.start_chan, a.close_mark, c.flags)
