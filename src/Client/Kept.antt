-- ===== src/Client/Kept.antt =====
-- agentcore/client.go: any run of the operations on watches, one after another.

use tip_olg_nats_agent_core.Common.{
  ℕ, ◌<◌, ◌≤◌, ◌≡◌, refl, ap, sym, subst, ◌⊎◌, inl, inr, String, Bool, true, false, Option, none,
  some, List, [], ◌∷◌, arith, lookup, delete, nat_key, nat_eq, nat_eq_iff, ltb, lookup-delete,
  Bool-cases, Option-cases, is_some, Unique, delete-Unique,
}
use tip_olg_nats_agent_core.Strings.{Unicode}
use tip_olg_nats_agent_core.Errors.{Error, is_nil}
use tip_olg_nats_agent_core.Kv.Start.{Watched, Attempt}
use tip_olg_nats_agent_core.Client.Watches.{ActiveWatch, Watches, stop_all_watches}
use tip_olg_nats_agent_core.Client.Rewatch.{
  WatchCopy, copy_each, restore_copies, restore_all_active_watches,
}
use tip_olg_nats_agent_core.Client.Balance.{
  alive, hold, owners, watched_by, owners-delete, alive-found, same_watched, same_watched_self,
  same_watched_iff,
}
use tip_olg_nats_agent_core.Client.Copied.{apart}
use tip_olg_nats_agent_core.Client.Waited.{stop_all_watches-IsWaited}
use tip_olg_nats_agent_core.Client.Reached.{
  IsReached, stopped_all, stop_all_watches-active, copy_each-some, IsReached-IsTidy,
}

-- Each active watch has the stop function of a watch that was made for its target and its handler and
-- that was not stopped, each watch that was made and not stopped is that of an active watch, and no two
-- active watches have one.
abbrev pub IsKept : Watches → Type 0
IsKept c =
    ((j : ℕ) (i : ActiveWatch)
      → lookup j c.active ≡ some i
      → (n : ℕ) × (i.stop_fn ≡ some n) × (lookup n c.watchers.unstopped ≡ some (watched_by i)))
    × ((n : ℕ) (x : Watched)
        → lookup n c.watchers.unstopped ≡ some x
        → (j : ℕ) × (i : ActiveWatch) × (lookup j c.active ≡ some i)
          × (i.stop_fn ≡ some n)
          × (watched_by i ≡ x))
    × ((j k : ℕ) (i i' : ActiveWatch)
        → lookup j c.active ≡ some i
        → lookup k c.active ≡ some i'
        → i.stop_fn ≡ i'.stop_fn
        → j ≡ k)

module _ (u : Unicode) (key_pattern : String) (has_sink : Bool) (w : ℕ → Attempt)
    (ctx_err : ℕ → Error) where
  hold-found :
      (s : ℕ) (x : Watched) (o : Option ℕ) (y : Watched) → 0 < hold s x o y → (o ≡ some s) × (y ≡ x)
  hold-found s x none y h = absurd (omega arith)
  hold-found s x (some n) y h = elim (Bool-cases (nat_eq n s)) [
    | inl e ↦ elim (Bool-cases (same_watched x y)) [
      | inl k ↦ (ap some ((nat_eq_iff n s).0 e), sym (same_watched_iff x y k))
      | inr k ↦ absurd (ground arith)
    ]
    | inr e ↦ absurd (ground arith)
  ]

  held_somewhere :
      (s : ℕ) (x : Watched) (m : List (ℕ × ActiveWatch))
      → Unique m
      → 0 < owners s x m
      → (j : ℕ) × (i : ActiveWatch) × (lookup j m ≡ some i)
        × (i.stop_fn ≡ some s)
        × (watched_by i ≡ x)
  unfolding lookup
  held_somewhere s x [] unique h = absurd (omega arith)
  held_somewhere s x ((id, i) ∷ m) (fresh, unique) h =
      elim (Bool-cases (ltb 0 (hold s x i.stop_fn (watched_by i)))) [
        | inl e ↦
            let (here, same) = hold-found s x i.stop_fn (watched_by i) (ground arith) in
            (id, i, ground (arith, (nat_eq_iff id id).1 refl), here, same)
        | inr e ↦
            let (j, k, found, here, same) = held_somewhere s x m unique (ground arith) in
            (
              j,
              k,
              rw (apart u key_pattern has_sink w ctx_err id j k m fresh found) found,
              here,
              same,
            )
      ]

  alive-found_one :
      (s : ℕ) (x : Watched) (m : List (ℕ × Watched)) → lookup s m ≡ some x → alive s x m ≡ 1
  alive-found_one s x m h = rw h (rw (same_watched_self x) refl)

  alive_at_most : (s : ℕ) (x : Watched) (m : List (ℕ × Watched)) → alive s x m ≤ 1
  alive_at_most s x m = ground arith

  held_once :
      (n : ℕ) (i : ActiveWatch)
      → i.stop_fn ≡ some n
      → hold n (watched_by i) i.stop_fn (watched_by i) ≡ 1
  held_once n i e = rw e (rw ((nat_eq_iff n n).1 refl, same_watched_self (watched_by i)) refl)

  -- The stop function of an active watch names one that was not stopped, for its target and its handler.
  IsReached-runs :
      (c : Watches)
      → IsReached u key_pattern has_sink w ctx_err c
      → (j : ℕ) (i : ActiveWatch) → lookup j c.active ≡ some i
      → (n : ℕ) × (i.stop_fn ≡ some n) × (lookup n c.watchers.unstopped ≡ some (watched_by i))
  IsReached-runs c r j i found =
      let ((unique, bound, fresh, even), set) =
        IsReached-IsTidy u key_pattern has_sink w ctx_err c r in
      elim (Option-cases i.stop_fn) [
        | inl e ↦ absurd (ground (arith, (set j i found).0))
        | inr (n, e) ↦ (
          n,
          e,
          alive-found n (watched_by i) c.watchers.unstopped (
              omega (
                arith,
                even n (watched_by i),
                owners-delete n (watched_by i) j c.active i unique found,
                held_once n i e,
              )),
        )
      ]

  -- A watch that was not stopped is that of an active watch, which looks for what it watches.
  IsReached-owned :
      (c : Watches)
      → IsReached u key_pattern has_sink w ctx_err c
      → (n : ℕ) (x : Watched) → lookup n c.watchers.unstopped ≡ some x
      → (j : ℕ) × (i : ActiveWatch) × (lookup j c.active ≡ some i)
        × (i.stop_fn ≡ some n)
        × (watched_by i ≡ x)
  IsReached-owned c r n x found =
      let ((unique, bound, fresh, even), set) =
        IsReached-IsTidy u key_pattern has_sink w ctx_err c r in
      held_somewhere n x c.active unique
        (omega (arith, even n x, alive-found_one n x c.watchers.unstopped found))

  -- No two active watches have one stop function.
  IsReached-apart :
      (c : Watches)
      → IsReached u key_pattern has_sink w ctx_err c
      → (j k : ℕ) (i i' : ActiveWatch) → lookup j c.active ≡ some i
      → lookup k c.active ≡ some i'
      → i.stop_fn ≡ i'.stop_fn
      → j ≡ k
  IsReached-apart c r j k i i' found found' same = elim (Bool-cases (nat_eq j k)) [
    | inl e ↦ (nat_eq_iff j k).0 e
    | inr e ↦
        let ((unique, bound, fresh, even), set) =
          IsReached-IsTidy u key_pattern has_sink w ctx_err c r in
        let (n, stop, live) = IsReached-runs c r j i found in
        let (n', stop', live') = IsReached-runs c r k i' found' in
        let x = watched_by i in
        let at : n ≡ n' = ground (arith, stop, stop', same) in
        let both : watched_by i' ≡ x = ground (arith, live, live', at) in
        let there : lookup k (delete j c.active) ≡ some i' =
          rw (lookup-delete j k c.active, e) found' in
        absurd (
          omega (
            arith,
            even n x,
            alive_at_most n x c.watchers.unstopped,
            owners-delete n x j c.active i unique found,
            owners-delete n x k (delete j c.active) i' (delete-Unique j c.active unique) there,
            held_once n i stop,
            ap (λ y. hold n x i'.stop_fn y) both,
            ap (λ o. hold n x o x) (sym same),
          ))
  ]

  answered :
      (o : Option (Watches × List WatchCopy))
      → is_some o ≡ true
      → is_some {A = Watches × Error} (elim o [
        | none ↦ none
        | some done ↦ some (restore_copies u key_pattern has_sink w ctx_err done)
      ])
        ≡ true
  answered none h = absurd (ground arith)
  answered (some done) h = refl

  -- After any run of calls of WatchDesiredConfig with a context, of stop functions, of stopAllWatches and
  -- of restoreAllActiveWatches, one after another, of which fewer than 2 ^ 64 - 1 gave an id and each of
  -- which met any errors of the bucket, of the watchers and of the contexts: each active watch has the
  -- stop function of a watch that was made for its target and its handler and whose stop function was not
  -- called; each watch that was made and whose stop function was not called is that of an active watch;
  -- no two active watches have one; and the next restoreAllActiveWatches does not panic. A watch that was
  -- not stopped may have ended by itself, where its context is done or its channel is closed.
  pub IsReached-IsKept :
      (c : Watches)
      → IsReached u key_pattern has_sink w ctx_err c
      → IsKept c × (is_some (restore_all_active_watches u key_pattern has_sink w ctx_err c) ≡ true)
  unfolding restore_all_active_watches
  IsReached-IsKept c r =
      let (tidy, set) = IsReached-IsTidy u key_pattern has_sink w ctx_err c r in
      (
        (IsReached-runs c r, IsReached-owned c r, IsReached-apart c r),
        answered (copy_each u key_pattern has_sink w ctx_err c.active c)
            (copy_each-some u key_pattern has_sink w ctx_err c.active c tidy.0 set),
      )

  -- After any such run, stopAllWatches leaves no active watch, and the stop function of each watch that was
  -- made was called; and it returns an error, or the goroutine of each watch that it stopped had ended
  -- when its stop function returned.
  pub stop_all_watches_lem :
      (c : Watches)
      → IsReached u key_pattern has_sink w ctx_err c
      → ((stop_all_watches u key_pattern has_sink w c).0.active ≡ [])
        × ((n : ℕ)
            → lookup n (stop_all_watches u key_pattern has_sink w c).0.watchers.unstopped ≡ none)
        × ((is_nil (stop_all_watches u key_pattern has_sink w c).1 ≡ false)
            ⊎ ((stop_all_watches u key_pattern has_sink w c).0.watchers.lingering
                ≡ c.watchers.lingering))
  unfolding lookup
  stop_all_watches_lem c r =
      let c' = (stop_all_watches u key_pattern has_sink w c).0 in
      (
        stop_all_watches-active u key_pattern has_sink w ctx_err c,
        λ n. elim (Option-cases (lookup n c'.watchers.unstopped)) [
          | inl e ↦ e
          | inr (x, e) ↦
              let (j, i, found, stop, same) = IsReached-owned c' (stopped_all c r) n x e in
              let empty : lookup j [] ≡ some i =
                subst (λ m. lookup j m ≡ some i)
                  (stop_all_watches-active u key_pattern has_sink w ctx_err c) found in
              absurd (ground arith)
        ],
        stop_all_watches-IsWaited u key_pattern has_sink w c,
      )
