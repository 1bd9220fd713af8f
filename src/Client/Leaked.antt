-- ===== src/Client/Leaked.antt =====
-- agentcore/client.go: two runs that go wrong. A watch without a context, and a reconnect between the two
-- critical sections of WatchDesiredConfig.
use Prim.Native.Nat.{◌^◌}
use tip_olg_nats_agent_core.Common.{
  ℕ, ◌+◌, ◌<◌, ◌≡◌, refl, ap, sym, subst, ◌∙◌, String, Bool, true, false, Option, none, some, List,
  [], ◌∷◌, ◌++◌, arith, lookup, nat_key, if_lem, modify,
}
use tip_olg_nats_agent_core.Strings.{Unicode}
use tip_olg_nats_agent_core.Errors.{Error}
use tip_olg_nats_agent_core.Results.{ok}
use tip_olg_nats_agent_core.Kv.Start.{Watched, Attempt}
use tip_olg_nats_agent_core.Client.Watches.{
  ActiveWatch, Watches, set_stop, register_watch, build_watch, set_watch, stop_all_watches,
}
use tip_olg_nats_agent_core.Client.Rewatch.{
  WatchCopy, copy_one, copy_each, restore_all_active_watches,
}
use tip_olg_nats_agent_core.Client.Balance.{hold, of_result, watched_by, alive-found}
use tip_olg_nats_agent_core.Client.Stopped.{held_self}
use tip_olg_nats_agent_core.Client.Tidy.{
  nothing, same-IsTidy, register_watch-IsTidy, build_watch-IsTidy, modified-IsTidy,
  stop_all_watches-IsTidy,
}
use tip_olg_nats_agent_core.Client.Rewatched.{Restored, restore_all_active_watches-Restored}
use tip_olg_nats_agent_core.Client.Reached.{IsReached, IsReached-IsTidy}

module _ (u : Unicode) (key_pattern : String) (has_sink : Bool) (w : ℕ → Attempt)
    (ctx_err : ℕ → Error) where
  copy_each-panics :
      (m : List (ℕ × ActiveWatch)) (c : Watches) (j : ℕ) (i : ActiveWatch)
      → lookup j m ≡ some i
      → i.has_ctx ≡ false
      → copy_each u key_pattern has_sink w ctx_err m c ≡ none
  unfolding copy_each lookup
  copy_each-panics [] c j i found h = absurd (ground arith)
  copy_each-panics ((k, i') ∷ m) c j i found h =
      let step = copy_one u key_pattern has_sink w ctx_err k i' c in
      let later = copy_each u key_pattern has_sink w ctx_err m step.0 in
      if_lem (λ (o : Option (Watches × List WatchCopy)). o ≡ none) i'.has_ctx
        (elim later [ none ↦ none | some (c2, copies) ↦ some (c2, step.1 ++ copies) ]) none
        (λ e. rw (copy_each-panics m step.0 j i (ground arith) h) refl) (λ e. refl)

  -- Where an active watch was started with no context, which WatchDesiredConfig takes, the next
  -- restoreAllActiveWatches panics, whatever the other watches are.
  pub restore_all_active_watches-panics :
      (c : Watches) (j : ℕ) (i : ActiveWatch)
      → lookup j c.active ≡ some i
      → i.has_ctx ≡ false
      → restore_all_active_watches u key_pattern has_sink w ctx_err c ≡ none
  unfolding restore_all_active_watches
  restore_all_active_watches-panics c j i found h =
      rw (restore_all_active_watches, copy_each-panics c.active c j i found h) refl

  -- A client where WatchDesiredConfig has entered its id, and restoreAllActiveWatches, which runs
  -- before WatchDesiredConfig has made its watch, makes the watch k for that id: when
  -- WatchDesiredConfig then makes its own watch n and writes it down, k is not stopped, and not even
  -- stopAllWatches stops it.
  pub stop_all_watches-leaks :
      (c c' : Watches) (e : Error) (target : String) (handler k n : ℕ) (i : ActiveWatch)
      → IsReached u key_pattern has_sink w ctx_err c
      → c.next_id + 1 < 2 ^ 64
      → let (c1, id) = register_watch u key_pattern has_sink w true target handler c in
        restore_all_active_watches u key_pattern has_sink w ctx_err c1 ≡ some (c', e)
        → lookup id c'.active ≡ some i
        → watched_by i ≡ (target, handler)
        → i.stop_fn ≡ some k
        → let (c2, answer) = build_watch u key_pattern has_sink w target handler c' in
          answer ≡ ok n
          → let c3 = (set_watch u key_pattern has_sink w id answer c2).0 in
            lookup k (stop_all_watches u key_pattern has_sink w c3).0.watchers.unstopped
            ≡ some (target, handler)
  unfolding set_watch
  stop_all_watches-leaks c c' e target handler k n i r room restored found same held made =
      let (tidy, set) = IsReached-IsTidy u key_pattern has_sink w ctx_err c r in
      let (c1, id) = register_watch u key_pattern has_sink w true target handler c in
      let (tidy', f) = subst (Restored u key_pattern has_sink w ctx_err c1) restored (
        restore_all_active_watches-Restored u key_pattern has_sink w ctx_err c1 (
          register_watch-IsTidy u key_pattern has_sink w nothing true target handler c room
            tidy)) in
      let (same', kept, more) =
        build_watch-IsTidy u key_pattern has_sink w nothing target handler c' tidy' in
      let c2 = (build_watch u key_pattern has_sink w target handler c').0 in
      let given =
        modified-IsTidy u key_pattern has_sink w nothing id n i c2 (ap (lookup id) same' ∙ found) (
          same-IsTidy u key_pattern has_sink w
            (λ s x.
              of_result s x (build_watch u key_pattern has_sink w target handler c').1
                (target, handler)
              + 0)
            (λ s x. hold s x (some n) (watched_by i) + 0) c2
            (λ s x.
              ap (λ a. of_result s x a (target, handler) + 0) made
              ∙ ap (λ y. hold s x (some n) y + 0) (sym same))
            more) in
      let c3 : Watches = record c2 { active = modify id (set_stop n) c2.active } in
      let x : Watched = (target, handler) in
      let holds : 0 < hold k x i.stop_fn (watched_by i) + 0 =
        subst (λ o. 0 < hold k x o (watched_by i) + 0) (sym held)
          (subst (λ y. 0 < hold k x (some k) y + 0) (sym same)
            (held_self u key_pattern has_sink w k x 0)) in
      let (unique, bound, fresh, even) =
        stop_all_watches-IsTidy u key_pattern has_sink w
          (λ s y. hold s y i.stop_fn (watched_by i) + 0) c3 given in
      subst
        (λ a.
          lookup k
            (stop_all_watches u key_pattern has_sink w
              (set_watch u key_pattern has_sink w id a c2).0).0.watchers.unstopped
          ≡ some x)
        (sym made)
        (alive-found k x (stop_all_watches u key_pattern has_sink w c3).0.watchers.unstopped
          (omega (arith, even k x, holds)))
