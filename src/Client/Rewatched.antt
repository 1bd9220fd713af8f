-- ===== src/Client/Rewatched.antt =====
-- agentcore/client.go: the last loop of restoreAllActiveWatches, and any run of the operations on
-- watches, one after another.
use tip_olg_nats_agent_core.Common.{
  ℕ, suc, ◌+◌, ◌≡◌, refl, ap, sym, subst, ◌∙◌, inl, inr, String, Bool, Option, none, some, List, [],
  ◌∷◌, All, map, arith, lookup, delete, modify, nat_key, lookup-modify, Option-cases, if_lem,
}
use tip_olg_nats_agent_core.Strings.{Unicode}
use tip_olg_nats_agent_core.Errors.{Error, nil, is_nil, joined}
use tip_olg_nats_agent_core.Results.{Result, ok, err}
use tip_olg_nats_agent_core.Kv.Start.{Watched, Attempt}
use tip_olg_nats_agent_core.Client.Watches.{ActiveWatch, Watches, set_stop, call_stop}
use tip_olg_nats_agent_core.Client.Rewatch.{
  WatchCopy, RestoreResult, ask, discard, sink_error, take_over_watch, failure, take_over_watches,
  restore_copies, rebuild_each, copy_each, restore_all_active_watches,
}
use tip_olg_nats_agent_core.Client.Balance.{hold, of_result, pending, watched_by}
use tip_olg_nats_agent_core.Client.Stopped.{call_stop-frame}
use tip_olg_nats_agent_core.Client.Tidy.{
  IsTidy, nothing, same-IsTidy, call_stop-IsTidy, modified-IsTidy,
}
use tip_olg_nats_agent_core.Client.Copied.{
  Narrows, IsMatched, Narrows-refl, Narrows-trans, delete-Narrows, All-Narrows, discard-IsTidy,
  discard-active, AllCopied, copy_each-AllCopied, rebuild_each-IsTidy,
}

-- An active watch that is given another stop function is what it was otherwise.
modify-Narrows : (id n : ℕ) (m : List (ℕ × ActiveWatch)) → Narrows (modify id (set_stop n) m) m
unfolding set_stop
modify-Narrows id n m j i' h = elim (Option-cases (lookup j m)) [
  | inl e ↦ absurd (ground (arith, lookup-modify id j (set_stop n) m))
  | inr (i, e) ↦
      let same = lookup-modify id j (set_stop n) m in
      (i, e, ground (arith, same), ground (arith, same), λ k. ground (arith, same))
]

module _ (u : Unicode) (key_pattern : String) (has_sink : Bool) (w : ℕ → Attempt)
    (ctx_err : ℕ → Error) where
  abbrev TakenOver : (ℕ → Watched → ℕ) → Watches → Watches → Type 0
  TakenOver extra c c' = IsTidy extra c' × Narrows c'.active c.active

  -- The new stop function is put in the map and the old one is called, or the other way round.
  take_over_lem :
      (id n : ℕ) (o : Option ℕ) (c : Watches)
      → (record (call_stop u key_pattern has_sink w o c).0 {
        active = modify id (set_stop n) ((call_stop u key_pattern has_sink w o c).0.active);
      })
        ≡ (call_stop u key_pattern has_sink w o
            (record c { active = modify id (set_stop n) c.active })).0
  unfolding call_stop
  take_over_lem id n none c = refl
  take_over_lem id n (some k) c = refl

  sink_error-IsTidy :
      (extra : ℕ → Watched → ℕ) (e : Error) (c : Watches)
      → IsTidy extra c
      → let c' = sink_error u key_pattern has_sink w ctx_err e c in
        (c'.active ≡ c.active) × IsTidy extra c'
  unfolding sink_error
  sink_error-IsTidy extra e c h =
      if_lem (λ (c' : Watches). (c'.active ≡ c.active) × IsTidy extra c') has_sink _ c
        (λ k. (refl, h)) (λ k. (refl, h))

  take_over_watch-TakenOver :
      (extra : ℕ → Watched → ℕ) (id : ℕ) (copy : ActiveWatch) (o : Option ActiveWatch)
      (answer : Result ℕ) (c : Watches)
      → lookup id c.active ≡ o
      → IsMatched c.active (id, copy)
      → IsTidy (λ s x. of_result s x answer (watched_by copy) + extra s x) c
      → TakenOver extra c (take_over_watch u key_pattern has_sink w ctx_err id o answer c)
  unfolding take_over_watch ask
  take_over_watch-TakenOver extra id copy none (err e) c found match h = (
    same-IsTidy u key_pattern has_sink w (λ s x. 0 + extra s x) extra c (λ s x. omega arith) h,
    Narrows-refl c.active,
  )
  take_over_watch-TakenOver extra id copy none (ok n) c found match h = (
    call_stop-IsTidy u key_pattern has_sink w extra (some n) (watched_by copy) c h,
    subst (λ m. Narrows m c.active) (sym (call_stop-frame u key_pattern has_sink w (some n) c).0)
        (Narrows-refl c.active),
  )
  take_over_watch-TakenOver extra id copy (some i) (err e) c found match h =
      let c1 : Watches = sink_error u key_pattern has_sink w ctx_err e c in
      let c2 : Watches = record c1 { asked = suc c1.asked } in
      let (same, tidy) = sink_error-IsTidy extra e c (
        same-IsTidy u key_pattern has_sink w (λ s x. 0 + extra s x) extra c (λ s x. omega arith)
          h) in
      if_lem (TakenOver extra c) (is_nil (ctx_err c1.asked)) c2
        (discard u key_pattern has_sink w ctx_err id i c2)
        (λ k. (tidy, subst (λ m. Narrows m c.active) (sym same) (Narrows-refl c.active)))
        (λ k. (
          discard-IsTidy u key_pattern has_sink w ctx_err extra id i c2
              (ap (lookup id) same ∙ found) tidy,
          subst (λ m. Narrows m c.active)
              (sym (discard-active u key_pattern has_sink w ctx_err id i c2 ∙ ap (delete id) same))
              (delete-Narrows id c.active),
        ))
  take_over_watch-TakenOver extra id copy (some i) (ok n) c found match h = (
    subst (IsTidy extra) (sym (take_over_lem id n i.stop_fn c)) (
        call_stop-IsTidy u key_pattern has_sink w extra i.stop_fn (watched_by i)
          (record c { active = modify id (set_stop n) c.active })
          (modified-IsTidy u key_pattern has_sink w extra id n i c found (
            same-IsTidy u key_pattern has_sink w
              (λ s x. hold s x (some n) (watched_by copy) + extra s x)
              (λ s x. hold s x (some n) (watched_by i) + extra s x) c
              (λ s x. ap (λ y. hold s x (some n) y + extra s x) (sym (match i found))) h))),
    subst (λ m. Narrows m c.active)
        (sym (ap (modify id (set_stop n)) (call_stop-frame u key_pattern has_sink w i.stop_fn c).0))
        (modify-Narrows id n c.active),
  )

  -- The last loop.
  take_over_watches-TakenOver :
      (results : List RestoreResult) (sum : Error) (c : Watches)
      → All (IsMatched c.active) (map (λ r. r.0) results)
      → IsTidy (λ s x. pending s x results + 0) c
      → TakenOver nothing c (take_over_watches u key_pattern has_sink w ctx_err results sum c).0
  unfolding take_over_watches
  take_over_watches-TakenOver [] sum c m h = (
    same-IsTidy u key_pattern has_sink w (λ s x. 0 + 0) nothing c (λ s x. omega arith) h,
    Narrows-refl c.active,
  )
  take_over_watches-TakenOver (((id, copy), answer) ∷ rest) sum c (m, ms) h =
      let c' : Watches =
        take_over_watch u key_pattern has_sink w ctx_err id (lookup id c.active) answer c in
      let (tidy, f) =
        take_over_watch-TakenOver (λ s x. pending s x rest + 0) id copy (lookup id c.active) answer
          c refl m
          (same-IsTidy u key_pattern has_sink w
            (λ s x. of_result s x answer (watched_by copy) + pending s x rest + 0)
            (λ s x. of_result s x answer (watched_by copy) + (pending s x rest + 0)) c
            (λ s x. omega arith) h) in
      let (tidy', g) =
        take_over_watches-TakenOver rest
          (joined sum (failure u key_pattern has_sink w ctx_err (lookup id c.active) answer)) c'
          (All-Narrows c'.active c.active _ f ms) tidy in
      (tidy', Narrows-trans _ c'.active c.active g f)

  -- The answer of restoreAllActiveWatches, where it has one.
  abbrev pub Restored : Watches → Option (Watches × Error) → Type 0
  Restored c none = Unit
  Restored c (some (c', e)) = TakenOver nothing c c'

  copies-Restored :
      (c : Watches) (o : Option (Watches × List WatchCopy))
      → AllCopied u key_pattern has_sink w ctx_err c.active o
      → Restored c (elim o [
        | none ↦ none
        | some done ↦ some (restore_copies u key_pattern has_sink w ctx_err done)
      ])
  unfolding restore_copies
  copies-Restored c none h = tt
  copies-Restored c (some (c1, copies)) (tidy, f, m) =
      let r = rebuild_each u key_pattern has_sink w ctx_err copies c1 in
      let (same, more, names) =
        rebuild_each-IsTidy u key_pattern has_sink w ctx_err copies nothing c1 tidy in
      let (tidy', g) =
        take_over_watches-TakenOver r.1 nil r.0
          (subst (All (IsMatched r.0.active)) (sym names)
            (subst (λ a. All (IsMatched a) copies) (sym same) m))
          more in
      (tidy', Narrows-trans _ c1.active c.active (subst (Narrows _) same g) f)

  pub restore_all_active_watches-Restored :
      (c : Watches)
      → IsTidy nothing c
      → Restored c (restore_all_active_watches u key_pattern has_sink w ctx_err c)
  unfolding restore_all_active_watches
  restore_all_active_watches-Restored c h =
      copies-Restored c (copy_each u key_pattern has_sink w ctx_err c.active c)
        (copy_each-AllCopied u key_pattern has_sink w ctx_err c.active c h.0 (λ j i k. k) h)
