-- ===== src/Client/Tidy.antt =====
-- agentcore/client.go: that every watch that was not stopped has one active watch, through each step of
-- WatchDesiredConfig, of its stop function and of stopAllWatches.
use Prim.Native.Nat.{◌%◌, ◌^◌}
use tip_olg_nats_agent_core.Common.{
  ℕ, ◌+◌, ◌<◌, ◌≡◌, refl, ap, sym, subst, ◌∙◌, inl, inr, String, Bool, true, Option, none, some,
  List, [], ◌∷◌, arith, lookup, delete, modify, nat_key, nat_eq_iff, lookup-insert, lookup-delete,
  lookup-modify, Option-cases, is_some, Unique, insert-Unique, delete-Unique, modify-Unique,
}
use tip_olg_nats_agent_core.Strings.{Unicode}
use tip_olg_nats_agent_core.Errors.{Error, nil}
use tip_olg_nats_agent_core.Results.{Result, ok, err}
use tip_olg_nats_agent_core.Kv.Start.{Watched, Attempt}
use tip_olg_nats_agent_core.Client.Watches.{
  ActiveWatch, Watches, set_stop, call_stop, register_watch, build_watch, set_watch, watch,
  stop_watch, stop_each, stop_all_watches,
}
use tip_olg_nats_agent_core.Client.Balance.{
  alive, hold, owners, of_result, watched_by, owners-delete, owners-insert, owners-modify,
}
use tip_olg_nats_agent_core.Client.Stopped.{
  IsFresh, call_stop-frame, call_stop-IsFresh, call_stop-alive, watch_desired_config-Started,
}

-- Each id is given once, and the watch s was made for x and not stopped as often as it is held: by the active watches, and
-- by those who are still to stop it.
abbrev pub IsTidy : (ℕ → Watched → ℕ) → Watches → Type 0
IsTidy extra c =
    Unique c.active
    × ((j : ℕ) → c.next_id < j → lookup j c.active ≡ none)
    × IsFresh c.watchers
    × ((s : ℕ) (x : Watched) → alive s x c.watchers.unstopped ≡ owners s x c.active + extra s x)

abbrev pub nothing : ℕ → Watched → ℕ
nothing s x = 0

-- Every active watch has its stop function.
abbrev pub IsComplete : List (ℕ × ActiveWatch) → Type 0
IsComplete active = (j : ℕ) (i : ActiveWatch) → lookup j active ≡ some i → is_some i.stop_fn ≡ true

pub lookup-delete-some :
    (id j : ℕ) (i : ActiveWatch) (active : List (ℕ × ActiveWatch))
    → lookup j (delete id active) ≡ some i
    → lookup j active ≡ some i
lookup-delete-some id j i active h = ground (arith, lookup-delete id j active)

pub lookup-delete-none :
    (id j : ℕ) (active : List (ℕ × ActiveWatch))
    → lookup j active ≡ none
    → lookup j (delete id active) ≡ none
lookup-delete-none id j active h = ground (arith, lookup-delete id j active)

module _ (u : Unicode) (key_pattern : String) (has_sink : Bool) (w : ℕ → Attempt) where
  -- A held watch is stopped: what the other holders have is left.
  pub call_stop-IsTidy :
      (extra : ℕ → Watched → ℕ) (o : Option ℕ) (y : Watched) (c : Watches)
      → IsTidy (λ s x. hold s x o y + extra s x) c
      → IsTidy extra (call_stop u key_pattern has_sink w o c).0
  call_stop-IsTidy extra o y c (unique, bound, fresh, even) =
      let (same, kept) = call_stop-frame u key_pattern has_sink w o c in
      (
        subst Unique (sym same) unique,
        λ j h. rw same (bound j (subst (λ k. k < j) kept h)),
        call_stop-IsFresh u key_pattern has_sink w o c fresh,
        λ s x. rw same (
            call_stop-alive u key_pattern has_sink w o y c (λ s x. owners s x c.active + extra s x)
              (λ s x. even s x ∙ omega arith) s x),
      )

  -- An active watch is left out of the map: who has it holds its stop function.
  pub deleted-IsTidy :
      (extra : ℕ → Watched → ℕ) (id : ℕ) (i : ActiveWatch) (c : Watches)
      → lookup id c.active ≡ some i
      → IsTidy extra c
      → IsTidy
          (λ s x. hold s x i.stop_fn (watched_by i) + extra s x)
          (record c { active = delete id c.active })
  deleted-IsTidy extra id i c found (unique, bound, fresh, even) = (
    delete-Unique id c.active unique,
    λ j h. lookup-delete-none id j c.active (bound j h),
    fresh,
    λ s x. even s x ∙ omega (arith, owners-delete s x id c.active i unique found),
  )

  -- An active watch is given the watch n in place of its own.
  pub modified-IsTidy :
      (extra : ℕ → Watched → ℕ) (id n : ℕ) (i : ActiveWatch) (c : Watches)
      → lookup id c.active ≡ some i
      → IsTidy (λ s x. hold s x (some n) (watched_by i) + extra s x) c
      → IsTidy
          (λ s x. hold s x i.stop_fn (watched_by i) + extra s x)
          (record c { active = modify id (set_stop n) c.active })
  unfolding set_stop
  modified-IsTidy extra id n i c found (unique, bound, fresh, even) = (
    modify-Unique id (set_stop n) c.active unique,
    λ j h. ground (arith, lookup-modify id j (set_stop n) c.active, bound j h),
    fresh,
    λ s x. even s x ∙ omega (arith, owners-modify s x id (set_stop n) c.active i unique found),
  )

  -- A watch is made, and its answer says whether it is there to be stopped.
  pub build_watch-IsTidy :
      (extra : ℕ → Watched → ℕ) (target : String) (handler : ℕ) (c : Watches)
      → IsTidy extra c
      → let (c', answer) = build_watch u key_pattern has_sink w target handler c in
        (c'.active ≡ c.active)
        × (c'.next_id ≡ c.next_id)
        × IsTidy (λ s x. of_result s x answer (target, handler) + extra s x) c'
  unfolding build_watch
  build_watch-IsTidy extra target handler c (unique, bound, fresh, even) =
      let (more, fresh') =
        watch_desired_config-Started u key_pattern has_sink w target handler c.watchers fresh in
      (refl, refl, (unique, bound, fresh', λ s x. more s x ∙ omega (arith, even s x)))

  -- An id that is new is entered, with no stop function.
  pub register_watch-IsTidy :
      (extra : ℕ → Watched → ℕ) (has_ctx : Bool) (target : String) (handler : ℕ) (c : Watches)
      → c.next_id + 1 < 2 ^ 64
      → IsTidy extra c
      → IsTidy extra (register_watch u key_pattern has_sink w has_ctx target handler c).0
  unfolding register_watch
  register_watch-IsTidy extra has_ctx target handler c room (unique, bound, fresh, even) =
      let next : (c.next_id + 1) % 2 ^ 64 ≡ c.next_id + 1 = omega arith in
      (
        insert-Unique _ _ c.active unique,
        λ j h. ground (
          arith,
          lookup-insert ((c.next_id + 1) % 2 ^ 64) j
              (record { target = target; handler = handler; has_ctx = has_ctx; stop_fn = none })
              c.active,
          bound j (omega arith),
          next,
        ),
        fresh,
        λ s x.
            even s x
            ∙ omega (
              arith,
              owners-insert s x ((c.next_id + 1) % 2 ^ 64)
                  (record { target = target; handler = handler; has_ctx = has_ctx; stop_fn = none })
                  c.active (bound _ (omega arith)),
            ),
      )

  -- The id is found with what was entered.
  pub entered :
      (has_ctx : Bool) (target : String) (handler : ℕ) (c : Watches)
      → let (c', id) = register_watch u key_pattern has_sink w has_ctx target handler c in
        lookup id c'.active
        ≡ some (record { target = target; handler = handler; has_ctx = has_ctx; stop_fn = none })
  unfolding register_watch
  entered has_ctx target handler c =
      let id : ℕ = (c.next_id + 1) % 2 ^ 64 in
      lookup-insert id id _ c.active ∙ ground (arith, (nat_eq_iff id id).1 refl)

  pub same-IsTidy :
      (extra extra' : ℕ → Watched → ℕ) (c : Watches)
      → ((s : ℕ) (x : Watched) → extra s x ≡ extra' s x)
      → IsTidy extra c
      → IsTidy extra' c
  same-IsTidy extra extra' c same (unique, bound, fresh, even) =
      (unique, bound, fresh, λ s x. even s x ∙ omega (arith, same s x))

  set_watch-IsTidy :
      (extra : ℕ → Watched → ℕ) (id : ℕ) (i : ActiveWatch) (answer : Result ℕ) (c : Watches)
      → i.stop_fn ≡ none
      → lookup id c.active ≡ some i
      → IsTidy (λ s x. of_result s x answer (watched_by i) + extra s x) c
      → IsTidy extra (set_watch u key_pattern has_sink w id answer c).0
  unfolding set_watch
  set_watch-IsTidy extra id i (err e) c unset found h =
      same-IsTidy (λ s x. hold s x i.stop_fn (watched_by i) + (0 + extra s x)) extra
        (record c { active = delete id c.active }) (λ s x. rw unset (omega arith))
        (deleted-IsTidy (λ s x. 0 + extra s x) id i c found h)
  set_watch-IsTidy extra id i (ok n) c unset found h =
      same-IsTidy (λ s x. hold s x i.stop_fn (watched_by i) + extra s x) extra
        (record c { active = modify id (set_stop n) c.active }) (λ s x. rw unset (omega arith))
        (modified-IsTidy extra id n i c found h)

  -- WatchDesiredConfig, called at an id that is below the last.
  pub watch-IsTidy :
      (has_ctx : Bool) (target : String) (handler : Option ℕ) (c : Watches)
      → c.next_id + 1 < 2 ^ 64
      → IsTidy nothing c
      → IsTidy nothing (watch u key_pattern has_sink w has_ctx target handler c).0
  unfolding watch
  watch-IsTidy has_ctx target none c room h = h
  watch-IsTidy has_ctx target (some handler) c room h =
      let (c1, id) = register_watch u key_pattern has_sink w has_ctx target handler c in
      let (same, kept, made) =
        build_watch-IsTidy nothing target handler c1
          (register_watch-IsTidy nothing has_ctx target handler c room h) in
      set_watch-IsTidy nothing id
        (record { target = target; handler = handler; has_ctx = has_ctx; stop_fn = none })
        (build_watch u key_pattern has_sink w target handler c1).1
        (build_watch u key_pattern has_sink w target handler c1).0 refl
        (ap (lookup id) same ∙ entered has_ctx target handler c) made

  -- The stop function of WatchDesiredConfig.
  pub stop_watch-IsTidy :
      (id : ℕ) (c : Watches)
      → IsTidy nothing c
      → IsTidy nothing (stop_watch u key_pattern has_sink w id c).0
  unfolding stop_watch
  stop_watch-IsTidy id c h = elim (Option-cases (lookup id c.active)) [
    | inl e ↦ rw (stop_watch, e) h
    | inr (i, e) ↦
        rw (stop_watch, e)
          (call_stop-IsTidy nothing i.stop_fn (watched_by i) _ (deleted-IsTidy nothing id i c e h))
  ]

  stop_each-IsTidy :
      (extra : ℕ → Watched → ℕ) (m : List (ℕ × ActiveWatch)) (sum : Error) (c : Watches)
      → IsTidy (λ s x. owners s x m + extra s x) c
      → IsTidy extra (stop_each u key_pattern has_sink w m sum c).0
  unfolding stop_each
  stop_each-IsTidy extra [] sum c h =
      same-IsTidy (λ s x. 0 + extra s x) extra c (λ s x. omega arith) h
  stop_each-IsTidy extra ((id, i) ∷ m) sum c h = stop_each-IsTidy extra m _ _ (
      call_stop-IsTidy (λ s x. owners s x m + extra s x) i.stop_fn (watched_by i) c
        (same-IsTidy (λ s x. hold s x i.stop_fn (watched_by i) + owners s x m + extra s x)
          (λ s x. hold s x i.stop_fn (watched_by i) + (owners s x m + extra s x)) c
          (λ s x. omega arith) h))

  -- stopAllWatches
  pub stop_all_watches-IsTidy :
      (extra : ℕ → Watched → ℕ) (c : Watches)
      → IsTidy extra c
      → IsTidy extra (stop_all_watches u key_pattern has_sink w c).0
  unfolding stop_all_watches lookup
  stop_all_watches-IsTidy extra c (unique, bound, fresh, even) =
      stop_each-IsTidy extra c.active nil (record c { active = [] })
        (tt, λ j h. refl, fresh, λ s x. even s x ∙ omega arith)
