-- ===== src/Client/Balance.antt =====
-- agentcore/client.go and internal/kv/watch.go: the watches that run and the active watches that own
-- them, counted.
use tip_olg_nats_agent_core.Common.{
  ℕ, ◌+◌, ◌<◌, ◌≡◌, refl, ap, sym, subst, ◌∙◌, inl, inr, ◌==◌, eq_iff, Bool, true, ◌&&◌, Option,
  none, some, List, [], ◌∷◌, arith, lookup, insert, delete, modify, nat_key, nat_eq, nat_eq_iff,
  lookup-insert, lookup-delete, Unique, Bool-cases, Option-cases, if◌then◌else◌,
}
use tip_olg_nats_agent_core.Results.{Result, ok, err}
use tip_olg_nats_agent_core.Kv.Start.{Watched}
use tip_olg_nats_agent_core.Client.Watches.{ActiveWatch}
use tip_olg_nats_agent_core.Client.Rewatch.{RestoreResult}

abbrev pub same_watched : Watched → Watched → Bool
same_watched (t, h) (t', h') = t == t' && nat_eq h h'

pub same_watched_iff : (x y : Watched) → same_watched x y ≡ true → x ≡ y
same_watched_iff (t, h) (t', h') e = ground (arith, eq_iff t t', nat_eq_iff h h')

pub same_watched_self : (x : Watched) → same_watched x x ≡ true
same_watched_self (t, h) = ground (arith, eq_iff t t, nat_eq_iff h h)

-- What an active watch looks for.
abbrev pub watched_by : ActiveWatch → Watched
watched_by i = (i.target, i.handler)

-- Counts of the watch s with the target and the handler x.
module _ (s : ℕ) (x : Watched) where
  abbrev pub one_if : Option Watched → ℕ
  one_if none = 0
  one_if (some y) = if same_watched x y then 1 else 0

  -- in what was not stopped
  abbrev pub alive : List (ℕ × Watched) → ℕ
  alive live = one_if (lookup s live)

  -- by a stop function of a watch of y
  abbrev pub hold : Option ℕ → Watched → ℕ
  hold none y = 0
  hold (some n) y = if nat_eq n s then one_if (some y) else 0

  -- among the active watches
  abbrev pub owners : List (ℕ × ActiveWatch) → ℕ
  owners [] = 0
  owners ((id, i) ∷ active) = hold i.stop_fn (watched_by i) + owners active

  abbrev pub of_result : Result ℕ → Watched → ℕ
  of_result (err e) y = 0
  of_result (ok n) y = hold (some n) y

  -- among the watches that a restoration has made and not yet given to their owners
  abbrev pub pending : List RestoreResult → ℕ
  pending [] = 0
  pending (((id, i), answer) ∷ results) = of_result answer (watched_by i) + pending results

  found_here :
      (id j : ℕ) (i' i : ActiveWatch) (active : List (ℕ × ActiveWatch))
      → nat_eq j id ≡ true
      → lookup j active ≡ none
      → lookup id ((j, i') ∷ active) ≡ some i
      → (i' ≡ i) × (lookup id active ≡ none)
  unfolding lookup
  found_here id j i' i active e fresh h =
      (ground arith, subst (λ k. lookup k active ≡ none) ((nat_eq_iff j id).0 e) fresh)

  delete-absent :
      (id : ℕ) (active : List (ℕ × ActiveWatch))
      → lookup id active ≡ none
      → owners (delete id active) ≡ owners active
  unfolding lookup delete
  delete-absent id [] h = refl
  delete-absent id ((j, i) ∷ active) h = elim (Bool-cases (nat_eq j id)) [
    | inl e ↦ absurd (ground arith)
    | inr e ↦
        rw e (ap (λ k. hold i.stop_fn (watched_by i) + k) (delete-absent id active (ground arith)))
  ]

  pub owners-delete :
      (id : ℕ) (active : List (ℕ × ActiveWatch)) (i : ActiveWatch)
      → Unique active
      → lookup id active ≡ some i
      → owners active ≡ hold i.stop_fn (watched_by i) + owners (delete id active)
  unfolding lookup delete
  owners-delete id [] i u h = absurd (ground arith)
  owners-delete id ((j, i') ∷ active) i (fresh, u) h = elim (Bool-cases (nat_eq j id)) [
    | inl e ↦
        rw (e, delete-absent id active (found_here id j i' i active e fresh h).1)
          (ap (λ (k : ActiveWatch). hold k.stop_fn (watched_by k) + owners active)
            (found_here id j i' i active e fresh h).0)
    | inr e ↦ rw e (omega (arith, owners-delete id active i u (ground arith)))
  ]

  pub owners-insert :
      (id : ℕ) (i : ActiveWatch) (active : List (ℕ × ActiveWatch))
      → lookup id active ≡ none
      → owners (insert id i active) ≡ hold i.stop_fn (watched_by i) + owners active
  unfolding lookup insert
  owners-insert id i [] h = refl
  owners-insert id i ((j, i') ∷ active) h = elim (Bool-cases (nat_eq j id)) [
    | inl e ↦ absurd (ground arith)
    | inr e ↦ rw e (omega (arith, owners-insert id i active (ground arith)))
  ]

  modify-absent :
      (id : ℕ) (f : ActiveWatch → ActiveWatch) (active : List (ℕ × ActiveWatch))
      → lookup id active ≡ none
      → owners (modify id f active) ≡ owners active
  unfolding lookup modify
  modify-absent id f [] h = refl
  modify-absent id f ((j, i) ∷ active) h = elim (Bool-cases (nat_eq j id)) [
    | inl e ↦ absurd (ground arith)
    | inr e ↦
        rw e
          (ap (λ k. hold i.stop_fn (watched_by i) + k) (modify-absent id f active (ground arith)))
  ]

  pub owners-modify :
      (id : ℕ) (f : ActiveWatch → ActiveWatch) (active : List (ℕ × ActiveWatch)) (i : ActiveWatch)
      → Unique active
      → lookup id active ≡ some i
      → owners (modify id f active) + hold i.stop_fn (watched_by i)
        ≡ owners active + hold ((f i).stop_fn) (watched_by (f i))
  unfolding lookup modify
  owners-modify id f [] i u h = absurd (ground arith)
  owners-modify id f ((j, i') ∷ active) i (fresh, u) h = elim (Bool-cases (nat_eq j id)) [
    | inl e ↦
        rw
          (
            e,
            modify-absent id f active (found_here id j i' i active e fresh h).1,
            (found_here id j i' i active e fresh h).0,
          )
          (omega arith)
    | inr e ↦ rw e (omega (arith, owners-modify id f active i u (ground arith)))
  ]

  -- A watch that is held is alive where the count says so.
  pub alive-found : (live : List (ℕ × Watched)) → 0 < alive live → lookup s live ≡ some x
  alive-found live h = elim (Option-cases (lookup s live)) [
    | inl e ↦ absurd (ground arith)
    | inr (y, e) ↦ elim (Bool-cases (same_watched x y)) [
      | inl k ↦ e ∙ ap some (sym (same_watched_iff x y k))
      | inr k ↦ absurd (ground arith)
    ]
  ]

  pub alive-insert :
      (n : ℕ) (y : Watched) (live : List (ℕ × Watched))
      → lookup n live ≡ none
      → alive (insert n y live) ≡ hold (some n) y + alive live
  alive-insert n y live h = elim (Bool-cases (nat_eq n s)) [
    | inl e ↦ rw (lookup-insert n s y live, e) (rw (sym ((nat_eq_iff n s).0 e), h) (omega arith))
    | inr e ↦ rw (lookup-insert n s y live, e) (omega arith)
  ]

  pub alive-delete :
      (n : ℕ) (y : Watched) (live : List (ℕ × Watched))
      → lookup n live ≡ some y
      → alive live ≡ hold (some n) y + alive (delete n live)
  alive-delete n y live h = elim (Bool-cases (nat_eq n s)) [
    | inl e ↦ rw (lookup-delete n s live, e) (rw (sym ((nat_eq_iff n s).0 e), h) (omega arith))
    | inr e ↦ rw (lookup-delete n s live, e) (omega arith)
  ]
