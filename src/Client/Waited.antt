-- ===== src/Client/Waited.antt =====
-- agentcore/client.go and internal/kv/watch.go: which stop functions returned before the goroutine of
-- their watch had ended.
use tip_olg_nats_agent_core.Common.{
  ℕ, ◌≡◌, refl, ◌∙◌, ◌⊎◌, inl, inr, String, Bool, false, Option, none, some, List, [], ◌∷◌, arith,
  lookup, nat_key, Option-cases, if_lem,
}
use tip_olg_nats_agent_core.Strings.{Unicode}
use tip_olg_nats_agent_core.Errors.{Error, nil, is_nil, joined, external, runtime, facade, join}
use tip_olg_nats_agent_core.Kv.Start.{Attempt, Watchers, stop}
use tip_olg_nats_agent_core.Client.Watches.{
  ActiveWatch, Watches, call_stop, stop_each, stop_all_watches,
}

-- No error tells of a goroutine that had not ended, or there is none more than before.
abbrev pub IsWaited : List ℕ → List ℕ → Error → Type 0
IsWaited before after e = (is_nil e ≡ false) ⊎ (after ≡ before)

pub joined-is_nil :
    (a b : Error) → (is_nil a ≡ false) ⊎ (is_nil b ≡ false) → is_nil (joined a b) ≡ false
unfolding joined
joined-is_nil nil b (inl k) = absurd (ground arith)
joined-is_nil nil b (inr k) = k
joined-is_nil (external s t) b h = elim b as (λ k. is_nil (joined (external s t) k) ≡ false) [
  | nil ↦ refl
  | _ ↦ refl
]
joined-is_nil (runtime f c) b h = elim b as (λ k. is_nil (joined (runtime f c) k) ≡ false) [
  | nil ↦ refl
  | _ ↦ refl
]
joined-is_nil (facade f c) b h = elim b as (λ k. is_nil (joined (facade f c) k) ≡ false) [
  | nil ↦ refl
  | _ ↦ refl
]
joined-is_nil (join x y) b h = elim b as (λ k. is_nil (joined (join x y) k) ≡ false) [
  | nil ↦ refl
  | _ ↦ refl
]

module _ (u : Unicode) (key_pattern : String) (has_sink : Bool) (w : ℕ → Attempt) where
  stop-IsWaited :
      (n : ℕ) (r : Watchers)
      → IsWaited r.lingering
          (stop u key_pattern has_sink w n r).0.lingering
          (stop u key_pattern has_sink w n r).1
  unfolding stop
  stop-IsWaited n r = elim (Option-cases (lookup n r.unstopped)) [
    | inl e ↦ rw (stop, e) (inr refl)
    | inr (y, e) ↦
        rw (stop, e)
          (if_lem (λ (z : Watchers × Error). IsWaited r.lingering z.0.lingering z.1) (w n).ends _ _
            (λ k. inr refl) (λ k. inl refl))
  ]

  call_stop-IsWaited :
      (o : Option ℕ) (c : Watches)
      → IsWaited c.watchers.lingering
          (call_stop u key_pattern has_sink w o c).0.watchers.lingering
          (call_stop u key_pattern has_sink w o c).1
  unfolding call_stop
  call_stop-IsWaited none c = inr refl
  call_stop-IsWaited (some n) c = stop-IsWaited n c.watchers

  stop_each-IsWaited :
      (m : List (ℕ × ActiveWatch)) (sum : Error) (c : Watches) (before : List ℕ)
      → IsWaited before c.watchers.lingering sum
      → IsWaited before
          (stop_each u key_pattern has_sink w m sum c).0.watchers.lingering
          (stop_each u key_pattern has_sink w m sum c).1
  unfolding stop_each
  stop_each-IsWaited [] sum c before h = h
  stop_each-IsWaited ((id, i) ∷ rest) sum c before h =
      let (c', e) = call_stop u key_pattern has_sink w i.stop_fn c in
      stop_each-IsWaited rest (joined sum e) c' before (elim h [
        | inl k ↦ inl (joined-is_nil sum e (inl k))
        | inr same ↦ elim (call_stop-IsWaited i.stop_fn c) [
          | inl k ↦ inl (joined-is_nil sum e (inr k))
          | inr again ↦ inr (again ∙ same)
        ]
      ])

  pub stop_all_watches-IsWaited :
      (c : Watches)
      → IsWaited c.watchers.lingering
          (stop_all_watches u key_pattern has_sink w c).0.watchers.lingering
          (stop_all_watches u key_pattern has_sink w c).1
  unfolding stop_all_watches
  stop_all_watches-IsWaited c =
      stop_each-IsWaited c.active nil (record c { active = [] }) c.watchers.lingering (inr refl)
