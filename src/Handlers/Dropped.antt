-- ===== src/Handlers/Dropped.antt =====
-- restoreAllRegisteredSubscriptions (agentcore/handlers_runtime.go): the list of what was made so far, and
-- what the drop of an old subscription and the making of a new one leave.
use tip_olg_nats_agent_core.Common.{
  ℕ, ◌<◌, ◌≡◌, refl, ap, inl, inr, ◌&&◌, Option, none, some, List, [], ◌∷◌, ◌++◌, arith, nat_eq,
  nat_eq_iff, is_some, lookup, insert, nat_key, Unique, lookup-insert, lookup-delete, if_lem,
  if◌then◌else◌,
}
use tip_olg_nats_agent_core.Results.{Result, ok, err}
use tip_olg_nats_agent_core.Registry.{Entry, activation_from_entry}
use tip_olg_nats_agent_core.Handlers.{Topic, Nats, Subscriptions}
use tip_olg_nats_agent_core.Handlers.Views.{View, IsOwned, set_view, same-IsOwned, drop-IsOwned}
use tip_olg_nats_agent_core.Handlers.Made.{Made}
use tip_olg_nats_agent_core.Handlers.Ended.{without, cleanup_fields}
use tip_olg_nats_agent_core.Handlers.Restore.{Created, drop_stale}

pub lookup-last :
    (i s : ℕ) (made : Created) (j : ℕ)
    → lookup j (made ++ (i, s) ∷ []) ≡ elim (lookup j made) as (λ x. Option ℕ) [
      | some x ↦ some x
      | none ↦ if nat_eq i j then some s else none
    ]
unfolding lookup
lookup-last i s [] j = refl
lookup-last i s ((k, x) ∷ made) j = ground (arith, lookup-last i s made j)

pub Unique-last :
    (i s : ℕ) (made : Created) → lookup i made ≡ none → Unique made → Unique (made ++ (i, s) ∷ [])
unfolding lookup
Unique-last i s [] h u = (refl, tt)
Unique-last i s ((k, x) ∷ made) h (f, u) = (
  ground (arith, lookup-last i s made k, nat_eq_iff i k, nat_eq_iff k i),
  Unique-last i s made (ground arith) u,
)

-- Where the old subscription is gone.
pub idle-view :
    (v : View) (live : List (ℕ × Topic)) (made i : ℕ) (t : Topic) (sub : Option ℕ)
    → IsOwned v live made
    → v i ≡ some (t, sub)
    → IsOwned (set_view i (some (t, none)) v) (without sub live) made
idle-view v live made i t none o h =
    same-IsOwned v live made o _ (λ j. ground (arith, nat_eq_iff i j))
idle-view v live made i t (some s) o h = drop-IsOwned v live made o i s t h

pub drop_stale_lem :
    (w : Nats) (e : Entry) (c : Subscriptions)
    → e.active ≡ is_some e.active_sub
    → let c' = drop_stale w (activation_from_entry e) c in
      (c'.registry ≡ c.registry) × (c'.made ≡ c.made) × (c'.live ≡ without e.active_sub c.live)
unfolding drop_stale activation_from_entry
drop_stale_lem w e c live =
    if_lem
      (λ (z : Subscriptions).
        (z.registry ≡ c.registry) × (z.made ≡ c.made) × (z.live ≡ without e.active_sub c.live))
      (e.active && is_some e.active_sub) _ _ (λ on. cleanup_fields w e.active_sub c)
      (λ off.
        let idle : none ≡ e.active_sub = ground arith in
        (refl, refl, ap (λ o. without o c.live) idle))

-- What is dead stays so while others are unsubscribed, and made.
pub dropped-dead :
    (sub : Option ℕ) (live : List (ℕ × Topic)) (x : ℕ)
    → lookup x live ≡ none
    → lookup x (without sub live) ≡ none
dropped-dead none live x h = h
dropped-dead (some s) live x h = ground (arith, lookup-delete s x live)

pub made-dead :
    (c c' : Subscriptions) (t : Topic) (r : Result ℕ) (x : ℕ)
    → Made c t (c', r)
    → lookup x c.live ≡ none
    → x < c.made
    → (lookup x c'.live ≡ none) × (x < c'.made)
made-dead c c' t (err e) x (_, _, inl (l, m)) h b = rw (l, m) (h, b)
made-dead c c' t (err e) x (_, _, inr (l, m)) h b =
    rw (l, m)
      (
        ground (
          arith,
          lookup-delete c.made x (insert c.made t c.live),
          lookup-insert c.made x t c.live,
        ),
        omega arith,
      )
made-dead c c' t (ok s) x (_, _, l, m) h b =
    rw (l, m) (ground (arith, lookup-insert c.made x t c.live, nat_eq_iff c.made x), omega arith)
