-- ===== src/Handlers/Views.antt =====
-- The abstract view of the handlers' subscriptions: for each registration its topic and the
-- subscription that it owns. What NATS has live is then exactly what is owned, and each change of it
-- is one of a few moves.
use tip_olg_nats_agent_core.Common.{
  ℕ, suc, ◌<◌, ◌≡◌, ◌≢◌, sym, ◌∙◌, inl, inr, Option, none, some, List, arith, nat_eq, nat_eq_iff,
  lookup, insert, delete, nat_key, lookup-insert, lookup-delete, Bool-cases, if◌then◌else◌,
}
use tip_olg_nats_agent_core.Handlers.{Topic}

-- Of an id: its topic and its subscription, if it is registered.
abbrev pub View : Type 0
View = ℕ → Option (Topic × Option ℕ)

-- Each subscription that is owned is live with its owner's topic, each that is live is owned, by one
-- registration, and none has a number that is yet to be given.
pub record IsOwned (v : View) (live : List (ℕ × Topic)) (made : ℕ) : Type 0 where
  pub held : (i s : ℕ) (t : Topic) → v i ≡ some (t, some s) → lookup s live ≡ some t
  pub owned : (s : ℕ) (t : Topic) → lookup s live ≡ some t → (i : ℕ) × (v i ≡ some (t, some s))
  pub one_owner :
      (i j s : ℕ) (t t' : Topic) → v i ≡ some (t, some s) → v j ≡ some (t', some s) → i ≡ j
  pub bounded : (s : ℕ) (t : Topic) → lookup s live ≡ some t → s < made

-- The view after a change of one id.
abbrev pub set_view : ℕ → Option (Topic × Option ℕ) → View → View
set_view i x v j = if nat_eq i j then x else v j

module _ (v : View) (live : List (ℕ × Topic)) (made : ℕ) (o : IsOwned v live made) where
  pub same-IsOwned : (v' : View) → ((i : ℕ) → v' i ≡ v i) → IsOwned v' live made
  same-IsOwned v' same = record {
    held = λ i s t h. o.held i s t (sym (same i) ∙ h);
    owned = λ s t h. let (i, e) = o.owned s t h in (i, same i ∙ e);
    one_owner = λ i j s t t' h k. o.one_owner i j s t t' (sym (same i) ∙ h) (sym (same j) ∙ k);
    bounded = o.bounded;
  }

  -- A subscription is unsubscribed and its owner has none.
  pub drop-IsOwned :
      (i s : ℕ) (t : Topic)
      → v i ≡ some (t, some s)
      → IsOwned (set_view i (some (t, none)) v) (delete s live) made
  drop-IsOwned i s t h = record {
    held = λ j x t' k. ground (
      arith,
      lookup-delete s x live,
      nat_eq_iff i j,
      nat_eq_iff s x,
      o.held j x t',
      o.one_owner i j s t t' h,
    );
    owned = λ x t' k.
        let (j, e) = o.owned x t' (ground (arith, lookup-delete s x live)) in
        (j, ground (arith, lookup-delete s x live, nat_eq_iff i j, nat_eq_iff s x));
    one_owner = λ j k x t' t'' a b. ground (arith, o.one_owner j k x t' t'');
    bounded = λ x t' k. ground (arith, lookup-delete s x live, o.bounded x t');
  }

  -- A new subscription is made, for a registration that has none.
  pub take-IsOwned :
      (i : ℕ) (t : Topic)
      → v i ≡ some (t, none)
      → IsOwned (set_view i (some (t, some made)) v) (insert made t live) (suc made)
  take-IsOwned i t h = record {
    held = λ j x t' k. ground (
      arith,
      lookup-insert made x t live,
      nat_eq_iff i j,
      nat_eq_iff made x,
      o.held j x t',
      o.bounded x t',
    );
    owned = λ x t' k. elim (Bool-cases (nat_eq made x)) [
      | inl e ↦ (i, ground (arith, lookup-insert made x t live, nat_eq_iff i i, nat_eq_iff made x))
      | inr e ↦
          let (j, f) = o.owned x t' (ground (arith, lookup-insert made x t live)) in
          (j, ground (arith, nat_eq_iff i j))
    ];
    one_owner = λ j k x t' t'' a b. ground (
      arith,
      nat_eq_iff i j,
      nat_eq_iff i k,
      o.one_owner j k x t' t'',
      o.held j x t',
      o.bounded x t',
      o.held k x t'',
      o.bounded x t'',
    );
    bounded =
        λ x t' k. ground (arith, lookup-insert made x t live, nat_eq_iff made x, o.bounded x t');
  }

  -- Unsubscribe is called on what is not live.
  pub dead-IsOwned : (s : ℕ) → lookup s live ≡ none → IsOwned v (delete s live) made
  dead-IsOwned s dead = record {
    held = λ i x t h. ground (arith, lookup-delete s x live, nat_eq_iff s x, o.held i x t h);
    owned = λ x t h. o.owned x t (ground (arith, lookup-delete s x live));
    one_owner = o.one_owner;
    bounded = λ x t h. o.bounded x t (ground (arith, lookup-delete s x live));
  }

  -- A new subscription is made and given up at once.
  pub undo-IsOwned : (t : Topic) → IsOwned v (delete made (insert made t live)) (suc made)
  undo-IsOwned t = record {
    held = λ i x t' h. ground (
      arith,
      lookup-delete made x (insert made t live),
      lookup-insert made x t live,
      nat_eq_iff made x,
      o.held i x t' h,
      o.bounded x t',
    );
    owned = λ x t' h.
        o.owned x t'
          (ground (arith, lookup-delete made x (insert made t live), lookup-insert made x t live));
    one_owner = o.one_owner;
    bounded = λ x t' h. ground (
      arith,
      lookup-delete made x (insert made t live),
      lookup-insert made x t live,
      o.bounded x t',
    );
  }

  -- An id that owns nothing comes or goes.
  pub idle-IsOwned :
      (i : ℕ) (x : Option (Topic × Option ℕ))
      → ((t : Topic) (s : ℕ) → v i ≢ some (t, some s))
      → ((t : Topic) (s : ℕ) → x ≢ some (t, some s))
      → IsOwned (set_view i x v) live made
  idle-IsOwned i x before after = record {
    held = λ j s t h. ground (arith, o.held j s t, after t s);
    owned = λ s t h. let (j, e) = o.owned s t h in (j, ground (arith, nat_eq_iff i j, before t s));
    one_owner = λ j k s t t' a b. ground (arith, o.one_owner j k s t t', after t s, after t' s);
    bounded = o.bounded;
  }
