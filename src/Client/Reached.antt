-- ===== src/Client/Reached.antt =====
-- agentcore/client.go: what may happen to the watches of a client, one call after another, and what each
-- call keeps.
use Prim.Native.Nat.{◌%◌, ◌^◌}
use tip_olg_nats_agent_core.Common.{
  ℕ, ◌+◌, ◌<◌, ◌≡◌, refl, ap, sym, subst, ◌∙◌, inl, inr, String, Bool, true, Option, none, some,
  List, [], ◌∷◌, ◌++◌, arith, lookup, insert, delete, nat_key, nat_eq, nat_eq_iff, lookup-insert,
  lookup-delete, lookup-modify, Bool-cases, Option-cases, if_lem, is_some, Unique,
}
use tip_olg_nats_agent_core.Strings.{Unicode}
use tip_olg_nats_agent_core.Errors.{Error, nil}
use tip_olg_nats_agent_core.Results.{Result, ok, err}
use tip_olg_nats_agent_core.Kv.Start.{Attempt}
use tip_olg_nats_agent_core.Client.Watches.{
  ActiveWatch, Watches, set_stop, register_watch, build_watch, set_watch, watch, stop_watch,
  stop_each, stop_all_watches,
}
use tip_olg_nats_agent_core.Client.Rewatch.{
  WatchCopy, copy_one, copy_each, restore_all_active_watches,
}
use tip_olg_nats_agent_core.Client.Stopped.{call_stop-frame}
use tip_olg_nats_agent_core.Client.Tidy.{
  IsTidy, nothing, watch-IsTidy, stop_watch-IsTidy, stop_all_watches-IsTidy,
}
use tip_olg_nats_agent_core.Client.Copied.{Narrows, delete-Narrows, apart}
use tip_olg_nats_agent_core.Client.Rewatched.{Restored, restore_all_active_watches-Restored}

-- Every active watch has its stop function and a context.
abbrev pub IsStarted : List (ℕ × ActiveWatch) → Type 0
IsStarted active =
    (j : ℕ) (i : ActiveWatch)
    → lookup j active ≡ some i
    → (is_some i.stop_fn ≡ true) × (i.has_ctx ≡ true)

pub IsStarted-Narrows :
    (new old : List (ℕ × ActiveWatch)) → Narrows new old → IsStarted old → IsStarted new
IsStarted-Narrows new old f h j i found =
    let (i', found', same, ctx, set) = f j i found in
    let (here, there) = h j i' found' in (set here, ctx ∙ there)

module _ (u : Unicode) (key_pattern : String) (has_sink : Bool) (w : ℕ → Attempt)
    (ctx_err : ℕ → Error) where
  set_watch-IsStarted :
      (id : ℕ) (i : ActiveWatch) (answer : Result ℕ) (old : List (ℕ × ActiveWatch)) (c : Watches)
      → i.has_ctx ≡ true
      → c.active ≡ insert id i old
      → IsStarted old
      → IsStarted (set_watch u key_pattern has_sink w id answer c).0.active
  unfolding set_watch set_stop
  set_watch-IsStarted id i (err e) old c ctx same h j k found = h j k (
      ground
        (arith, lookup-delete id j c.active, lookup-insert id j i old, ap (lookup j) same, found))
  set_watch-IsStarted id i (ok n) old c ctx same h j k found = elim (Bool-cases (nat_eq id j)) [
    | inl e ↦ ground (
      arith,
      lookup-modify id j (set_stop n) c.active,
      lookup-insert id j i old,
      ap (lookup j) same,
      found,
    )
    | inr e ↦ h j k (
        ground (
          arith,
          lookup-modify id j (set_stop n) c.active,
          lookup-insert id j i old,
          ap (lookup j) same,
          found,
        ))
  ]

  watch-IsStarted :
      (target : String) (handler : Option ℕ) (c : Watches)
      → IsStarted c.active
      → IsStarted (watch u key_pattern has_sink w true target handler c).0.active
  unfolding watch register_watch build_watch
  watch-IsStarted target none c h = h
  watch-IsStarted target (some handler) c h =
      set_watch-IsStarted ((c.next_id + 1) % 2 ^ 64)
        (record { target = target; handler = handler; has_ctx = true; stop_fn = none }) _ c.active _
        refl refl h

  delete-IsStarted : (id : ℕ) (m : List (ℕ × ActiveWatch)) → IsStarted m → IsStarted (delete id m)
  delete-IsStarted id m h = IsStarted-Narrows (delete id m) m (delete-Narrows id m) h

  stop_watch-IsStarted :
      (id : ℕ) (c : Watches)
      → IsStarted c.active
      → IsStarted (stop_watch u key_pattern has_sink w id c).0.active
  unfolding stop_watch
  stop_watch-IsStarted id c h = elim (Option-cases (lookup id c.active)) [
    | inl e ↦ rw (stop_watch, e) h
    | inr (i, e) ↦
        rw (stop_watch, e)
          (subst IsStarted
            (sym
              (call_stop-frame u key_pattern has_sink w i.stop_fn
                (record c { active = delete id c.active })).0)
            (delete-IsStarted id c.active h))
  ]

  stop_each-active :
      (m : List (ℕ × ActiveWatch)) (sum : Error) (c : Watches)
      → (stop_each u key_pattern has_sink w m sum c).0.active ≡ c.active
  unfolding stop_each
  stop_each-active [] sum c = refl
  stop_each-active ((id, i) ∷ m) sum c =
      stop_each-active m _ _ ∙ (call_stop-frame u key_pattern has_sink w i.stop_fn c).0

  pub stop_all_watches-active :
      (c : Watches) → (stop_all_watches u key_pattern has_sink w c).0.active ≡ []
  unfolding stop_all_watches
  stop_all_watches-active c = stop_each-active c.active nil (record c { active = [] })

  consed :
      (here : List WatchCopy) (o : Option (Watches × List WatchCopy))
      → is_some o ≡ true
      → is_some {A = Watches × List WatchCopy}
          (elim o [ none ↦ none | some (c2, copies) ↦ some (c2, here ++ copies) ])
        ≡ true
  consed here none h = absurd (ground arith)
  consed here (some (c2, copies)) h = refl

  pub copy_each-some :
      (m : List (ℕ × ActiveWatch)) (c : Watches)
      → Unique m
      → IsStarted m
      → is_some (copy_each u key_pattern has_sink w ctx_err m c) ≡ true
  unfolding copy_each lookup
  copy_each-some [] c unique h = refl
  copy_each-some ((id, i) ∷ m) c (fresh, unique) h =
      let present = (h id i (ground (arith, (nat_eq_iff id id).1 refl))).1 in
      let step = copy_one u key_pattern has_sink w ctx_err id i c in
      let here = step.1 in
      let rest = copy_each-some m step.0 unique (λ j k found.
        h j k (rw (apart u key_pattern has_sink w ctx_err id j k m fresh found) found)) in
      let later = copy_each u key_pattern has_sink w ctx_err m step.0 in
      if_lem (λ (o : Option (Watches × List WatchCopy)). is_some o ≡ true) i.has_ctx
        (elim later [ none ↦ none | some (c2, copies) ↦ some (c2, here ++ copies) ]) none
        (λ k. consed here later rest) (λ k. absurd (ground (arith, present, k)))

  -- What may happen to the watches of a client, one after another. Fewer than 2 ^ 64 - 1 ids are given.
  pub data IsReached : Watches → Type 0 where
    created : IsReached (record {
      next_id = 0;
      active = [];
      watchers = record { unstopped = []; made = 0; lingering = []; sunk = [] };
      asked = 0;
      sunk = [];
    })
    watched :
        (target : String) (handler : Option ℕ) (c : Watches)
        → c.next_id + 1 < 2 ^ 64
        → IsReached c
        → IsReached (watch u key_pattern has_sink w true target handler c).0
    stopped :
        (id : ℕ) (c : Watches)
        → IsReached c
        → IsReached (stop_watch u key_pattern has_sink w id c).0
    stopped_all :
        (c : Watches) → IsReached c → IsReached (stop_all_watches u key_pattern has_sink w c).0
    restored :
        (c c' : Watches) (e : Error)
        → IsReached c
        → restore_all_active_watches u key_pattern has_sink w ctx_err c ≡ some (c', e)
        → IsReached c'

  pub IsReached-IsTidy : (c : Watches) → IsReached c → IsTidy nothing c × IsStarted c.active
  unfolding lookup
  IsReached-IsTidy _ created =
      ((tt, λ j h. refl, λ n h. refl, λ s x. refl), λ j i h. absurd (ground arith))
  IsReached-IsTidy _ (watched target handler c room r) =
      let (tidy, set) = IsReached-IsTidy c r in
      (
        watch-IsTidy u key_pattern has_sink w true target handler c room tidy,
        watch-IsStarted target handler c set,
      )
  IsReached-IsTidy _ (stopped id c r) =
      let (tidy, set) = IsReached-IsTidy c r in
      (stop_watch-IsTidy u key_pattern has_sink w id c tidy, stop_watch-IsStarted id c set)
  IsReached-IsTidy _ (stopped_all c r) =
      let (tidy, set) = IsReached-IsTidy c r in
      (
        stop_all_watches-IsTidy u key_pattern has_sink w nothing c tidy,
        subst IsStarted (sym (stop_all_watches-active c)) (λ j i h. absurd (ground arith)),
      )
  IsReached-IsTidy _ (restored c c' e r h) =
      let (tidy, set) = IsReached-IsTidy c r in
      let (tidy', f) =
        subst (Restored u key_pattern has_sink w ctx_err c) h
          (restore_all_active_watches-Restored u key_pattern has_sink w ctx_err c tidy) in
      (tidy', IsStarted-Narrows c'.active c.active f set)
