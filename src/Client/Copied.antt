-- ===== src/Client/Copied.antt =====
-- agentcore/client.go: the first two loops of restoreAllActiveWatches, which drop the watches whose
-- context is done and make the others anew, beside the former ones.
use tip_olg_nats_agent_core.Common.{
  ℕ, suc, ◌+◌, ◌≡◌, refl, ap, sym, subst, ◌∙◌, inl, inr, String, Bool, true, false, Option, none,
  some, List, [], ◌∷◌, ◌++◌, map, All, arith, lookup, delete, nat_key, nat_eq, nat_eq_iff,
  lookup-delete, Bool-cases, if_lem, is_some, Unique,
}
use tip_olg_nats_agent_core.Strings.{Unicode}
use tip_olg_nats_agent_core.Errors.{Error, is_nil}
use tip_olg_nats_agent_core.Results.{Result, err}
use tip_olg_nats_agent_core.Kv.Start.{Watched, Attempt}
use tip_olg_nats_agent_core.Client.Watches.{ActiveWatch, Watches, call_stop, build_watch}
use tip_olg_nats_agent_core.Client.Rewatch.{
  WatchCopy, ask, discard, copy_one, copy_each, rebuild_one, rebuild_each,
}
use tip_olg_nats_agent_core.Client.Balance.{of_result, pending, watched_by}
use tip_olg_nats_agent_core.Client.Stopped.{call_stop-frame}
use tip_olg_nats_agent_core.Client.Tidy.{
  IsTidy, nothing, same-IsTidy, call_stop-IsTidy, deleted-IsTidy, build_watch-IsTidy,
  lookup-delete-some,
}

-- Each watch of the first map is one of the second, with a stop function if that has one.
abbrev pub Narrows : List (ℕ × ActiveWatch) → List (ℕ × ActiveWatch) → Type 0
Narrows new old =
    (j : ℕ) (i' : ActiveWatch)
    → lookup j new ≡ some i'
    → (i : ActiveWatch) × (lookup j old ≡ some i)
      × (watched_by i' ≡ watched_by i)
      × (i'.has_ctx ≡ i.has_ctx)
      × (is_some i.stop_fn ≡ true → is_some i'.stop_fn ≡ true)

-- A copy has the target and the handler of the watch that its id finds.
abbrev pub IsMatched : List (ℕ × ActiveWatch) → WatchCopy → Type 0
IsMatched active (id, i) =
    (i' : ActiveWatch) → lookup id active ≡ some i' → watched_by i' ≡ watched_by i

pub Narrows-refl : (m : List (ℕ × ActiveWatch)) → Narrows m m
Narrows-refl m j i h = (i, h, refl, refl, λ k. k)

pub Narrows-trans : (a b c : List (ℕ × ActiveWatch)) → Narrows a b → Narrows b c → Narrows a c
Narrows-trans a b c f g j i h =
    let (i1, found, same, ctx, set) = f j i h in
    let (i2, found2, same2, ctx2, set2) = g j i1 found in
    (i2, found2, same ∙ same2, ctx ∙ ctx2, λ k. set (set2 k))

pub delete-Narrows : (id : ℕ) (m : List (ℕ × ActiveWatch)) → Narrows (delete id m) m
delete-Narrows id m j i h = (i, lookup-delete-some id j i m h, refl, refl, λ k. k)

pub IsMatched-Narrows :
    (new old : List (ℕ × ActiveWatch)) (copy : WatchCopy)
    → Narrows new old
    → IsMatched old copy
    → IsMatched new copy
IsMatched-Narrows new old (id, i) f h i' found =
    let (i1, found1, same, ctx, set) = f id i' found in same ∙ h i1 found1

All-both :
    (P : WatchCopy → Type 0) (xs ys : List WatchCopy) → All P xs → All P ys → All P (xs ++ ys)
All-both P [] ys h k = k
All-both P (x ∷ xs) ys (p, h) k = (p, All-both P xs ys h k)

found-IsMatched :
    (id : ℕ) (i : ActiveWatch) (m : List (ℕ × ActiveWatch))
    → lookup id m ≡ some i
    → IsMatched m (id, i)
found-IsMatched id i m found i' h = ground arith

pub All-Narrows :
    (new old : List (ℕ × ActiveWatch)) (copies : List WatchCopy)
    → Narrows new old
    → All (IsMatched old) copies
    → All (IsMatched new) copies
All-Narrows new old [] f h = tt
All-Narrows new old (copy ∷ copies) f (h, hs) =
    (IsMatched-Narrows new old copy f h, All-Narrows new old copies f hs)

module _ (u : Unicode) (key_pattern : String) (has_sink : Bool) (w : ℕ → Attempt)
    (ctx_err : ℕ → Error) where
  -- A watch is stopped and then left out, or left out and then stopped.
  discard_lem :
      (id : ℕ) (i : ActiveWatch) (o : Option ℕ) (c : Watches)
      → i.stop_fn ≡ o
      → discard u key_pattern has_sink w ctx_err id i c
        ≡ (call_stop u key_pattern has_sink w o (record c { active = delete id c.active })).0
  unfolding discard call_stop
  discard_lem id i none c e = rw e refl
  discard_lem id i (some n) c e = rw e refl

  pub discard-IsTidy :
      (extra : ℕ → Watched → ℕ) (id : ℕ) (i : ActiveWatch) (c : Watches)
      → lookup id c.active ≡ some i
      → IsTidy extra c
      → IsTidy extra (discard u key_pattern has_sink w ctx_err id i c)
  discard-IsTidy extra id i c found h =
      subst (IsTidy extra) (sym (discard_lem id i i.stop_fn c refl)) (
        call_stop-IsTidy u key_pattern has_sink w extra i.stop_fn (watched_by i)
          (record c { active = delete id c.active })
          (deleted-IsTidy u key_pattern has_sink w extra id i c found h))

  pub discard-active :
      (id : ℕ) (i : ActiveWatch) (c : Watches)
      → (discard u key_pattern has_sink w ctx_err id i c).active ≡ delete id c.active
  unfolding discard
  discard-active id i c = ap (delete id) (call_stop-frame u key_pattern has_sink w i.stop_fn c).0

  -- One round of the first loop.
  abbrev Copied : ℕ → Watches → Watches × List WatchCopy → Type 0
  Copied id c (c', here) =
      IsTidy nothing c'
      × Narrows c'.active c.active
      × ((j : ℕ) (i' : ActiveWatch)
          → nat_eq id j ≡ false
          → lookup j c.active ≡ some i'
          → lookup j c'.active ≡ some i')
      × All (IsMatched c'.active) here

  copy_one-Copied :
      (id : ℕ) (i : ActiveWatch) (c : Watches)
      → lookup id c.active ≡ some i
      → IsTidy nothing c
      → Copied id c (copy_one u key_pattern has_sink w ctx_err id i c)
  unfolding copy_one ask
  copy_one-Copied id i c found h =
      let c1 : Watches = record c { asked = suc c.asked } in
      let gone : Watches = discard u key_pattern has_sink w ctx_err id i c1 in
      if_lem (Copied id c) (is_nil (ctx_err c.asked)) (c1, (id, i) ∷ []) (gone, [])
        (λ e. (h, Narrows-refl c.active, λ j i' k f. f, (found-IsMatched id i c.active found, tt)))
        (λ e. (
          discard-IsTidy nothing id i c1 found h,
          subst (λ m. Narrows m c.active) (sym (discard-active id i c1))
              (delete-Narrows id c.active),
          λ j i' k f. rw (discard-active id i c1, lookup-delete id j c.active, k) f,
          tt,
        ))

  -- The first loop: what is left is a part of what was, and the copies are of it.
  abbrev pub AllCopied : List (ℕ × ActiveWatch) → Option (Watches × List WatchCopy) → Type 0
  AllCopied active none = Unit
  AllCopied active (some (c', copies)) =
      IsTidy nothing c' × Narrows c'.active active × All (IsMatched c'.active) copies

  more-AllCopied :
      (c c1 : Watches) (here : List WatchCopy) (later : Option (Watches × List WatchCopy))
      → Narrows c1.active c.active
      → All (IsMatched c1.active) here
      → AllCopied c1.active later
      → AllCopied c.active
          (elim later [ none ↦ none | some (c2, copies) ↦ some (c2, here ++ copies) ])
  more-AllCopied c c1 here none f m h = tt
  more-AllCopied c c1 here (some (c2, copies)) f m (tidy, g, ms) = (
    tidy,
    Narrows-trans c2.active c1.active c.active g f,
    All-both (IsMatched c2.active) here copies (All-Narrows c2.active c1.active here g m) ms,
  )

  pub apart :
      (id j : ℕ) (i : ActiveWatch) (m : List (ℕ × ActiveWatch))
      → lookup id m ≡ none
      → lookup j m ≡ some i
      → nat_eq id j ≡ false
  apart id j i m fresh found = elim (Bool-cases (nat_eq id j)) [
    | inl e ↦ absurd (ground (arith, (nat_eq_iff id j).0 e))
    | inr e ↦ e
  ]

  pub copy_each-AllCopied :
      (m : List (ℕ × ActiveWatch)) (c : Watches)
      → Unique m
      → ((j : ℕ) (i : ActiveWatch) → lookup j m ≡ some i → lookup j c.active ≡ some i)
      → IsTidy nothing c
      → AllCopied c.active (copy_each u key_pattern has_sink w ctx_err m c)
  unfolding copy_each lookup
  copy_each-AllCopied [] c unique within h = (h, Narrows-refl c.active, tt)
  copy_each-AllCopied ((id, i) ∷ m) c (fresh, unique) within h =
      let step = copy_one u key_pattern has_sink w ctx_err id i c in
      let (tidy, f, others, matched) =
        copy_one-Copied id i c (within id i (ground (arith, (nat_eq_iff id id).1 refl))) h in
      let later =
        copy_each-AllCopied m step.0 unique
          (λ j i' k.
            others j i' (apart id j i' m fresh k) (within j i' (rw (apart id j i' m fresh k) k)))
          tidy in
      if_lem (AllCopied c.active) i.has_ctx
        (elim (copy_each u key_pattern has_sink w ctx_err m step.0) [
          | none ↦ none
          | some (c2, copies) ↦ some (c2, step.1 ++ copies)
        ])
        none
        (λ e.
          more-AllCopied c step.0 step.1 (copy_each u key_pattern has_sink w ctx_err m step.0) f
            matched later)
        (λ e. tt)

  -- One round of the second loop.
  abbrev Rebuilt : Watched → (ℕ → Watched → ℕ) → Watches → Watches × Result ℕ → Type 0
  Rebuilt y extra c (c', answer) =
      (c'.active ≡ c.active) × IsTidy (λ s x. of_result s x answer y + extra s x) c'

  rebuild_one-Rebuilt :
      (copy : WatchCopy) (extra : ℕ → Watched → ℕ) (c : Watches)
      → IsTidy extra c
      → Rebuilt (watched_by copy.1) extra c (rebuild_one u key_pattern has_sink w ctx_err copy c)
  unfolding rebuild_one ask
  rebuild_one-Rebuilt (id, i) extra c h =
      let c1 : Watches = record c { asked = suc c.asked } in
      let (same, kept, made) =
        build_watch-IsTidy u key_pattern has_sink w extra i.target i.handler c1 h in
      if_lem (Rebuilt (watched_by i) extra c) (is_nil (ctx_err c.asked))
        (build_watch u key_pattern has_sink w i.target i.handler c1) (c1, err (ctx_err c.asked))
        (λ e. (same, made))
        (λ e. (
          refl,
          same-IsTidy u key_pattern has_sink w extra (λ s x. 0 + extra s x) c1 (λ s x. omega arith)
              h,
        ))

  -- The second loop.
  pub rebuild_each-IsTidy :
      (copies : List WatchCopy) (extra : ℕ → Watched → ℕ) (c : Watches)
      → IsTidy extra c
      → let (c', results) = rebuild_each u key_pattern has_sink w ctx_err copies c in
        (c'.active ≡ c.active)
        × IsTidy (λ s x. pending s x results + extra s x) c'
        × (map (λ r. r.0) results ≡ copies)
  unfolding rebuild_each
  rebuild_each-IsTidy [] extra c h = (
    refl,
    same-IsTidy u key_pattern has_sink w extra (λ s x. 0 + extra s x) c (λ s x. omega arith) h,
    refl,
  )
  rebuild_each-IsTidy (copy ∷ rest) extra c h =
      let (same, one) = rebuild_one-Rebuilt copy extra c h in
      let r = rebuild_one u key_pattern has_sink w ctx_err copy c in
      let later = rebuild_each u key_pattern has_sink w ctx_err rest r.0 in
      let (same', more, names) =
        rebuild_each-IsTidy rest (λ s x. of_result s x r.1 (watched_by copy.1) + extra s x) r.0
          one in
      (
        same' ∙ same,
        same-IsTidy u key_pattern has_sink w
            (λ s x. pending s x later.1 + (of_result s x r.1 (watched_by copy.1) + extra s x))
            (λ s x. of_result s x r.1 (watched_by copy.1) + pending s x later.1 + extra s x) later.0
            (λ s x. omega arith) more,
        ap (λ l. copy ∷ l) names,
      )
