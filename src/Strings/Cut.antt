-- ===== src/Strings/Cut.antt =====
-- Cutting a text at the first occurrence of a code point.
use Prim.Native.String.{String, [], ◌∷◌, ◌++◌}
use text.Mathlib.TextLemmas.{
  nil-append, cons-append, append_assoc, head-eq_of_cons-eq, tail-eq_of_cons-eq, append_cancel_left,
  append_cancel_right,
}
use tip_olg_nats_agent_core.Common.{
  ◌≡◌, refl, sym, ◌∙◌, ap, ℕ, Char, true, false, arith, Bool-cases, inl, inr,
}
use tip_olg_nats_agent_core.Strings.{is_code, any_char, contains_char}
use tip_olg_nats_agent_core.Strings.Laws.{any_char-append}

module _ (n : ℕ) where
  -- The first occurrence.
  pub cut :
      (s : String)
      → contains_char n s ≡ true
      → (a : String) × (d : Char) × (b : String) × (s ≡ a ++ (d ∷ b))
        × (contains_char n a ≡ false)
        × (is_code n d ≡ true)
  unfolding any_char
  cut [] h = absurd (ground arith)
  cut (c ∷ s) h = elim (Bool-cases (is_code n c)) [
    | inl e ↦ ("", c, s, sym (nil-append (c ∷ s)), refl, e)
    | inr e ↦
        let (a, d, b, shape, before, here) = cut s (ground arith) in
        (
          c ∷ a,
          d,
          b,
          ap (λ (t : String). c ∷ t) shape ∙ sym (cons-append c a (d ∷ b)),
          ground arith,
          here,
        )
  ]

  -- Two texts that agree have it at the same place.
  pub cut_unique :
      (s t : String) (d : Char) (x y : String)
      → is_code n d ≡ true
      → contains_char n s ≡ false
      → contains_char n t ≡ false
      → s ++ (d ∷ x) ≡ t ++ (d ∷ y)
      → (s ≡ t) × (x ≡ y)
  unfolding any_char
  cut_unique [] [] d x y h k l e =
      (refl, tail-eq_of_cons-eq (sym (nil-append (d ∷ x)) ∙ e ∙ nil-append (d ∷ y)))
  cut_unique [] (c ∷ t) d x y h k l e =
      let same = head-eq_of_cons-eq (sym (nil-append (d ∷ x)) ∙ e ∙ cons-append c t (d ∷ y)) in
      absurd (ground arith)
  cut_unique (c ∷ s) [] d x y h k l e =
      let same = head-eq_of_cons-eq (sym (cons-append c s (d ∷ x)) ∙ e ∙ nil-append (d ∷ y)) in
      absurd (ground arith)
  cut_unique (c ∷ s) (b ∷ t) d x y h k l e =
      let both = sym (cons-append c s (d ∷ x)) ∙ e ∙ cons-append b t (d ∷ y) in
      let (same, rest) =
        cut_unique s t d x y h (ground arith) (ground arith) (tail-eq_of_cons-eq both) in
      (cc (head-eq_of_cons-eq both, same), rest)

  regroup : (t a b z : String) (d : Char) → t ++ ((a ++ (d ∷ b)) ++ z) ≡ (t ++ a) ++ (d ∷ (b ++ z))
  regroup t a b z d = simp (append_assoc, cons-append)

  -- Around a separator that has the code point, texts without it are determined by the whole.
  pub separated_inj :
      (sep t t' x x' : String)
      → contains_char n sep ≡ true
      → contains_char n t ≡ false
      → contains_char n t' ≡ false
      → t ++ (sep ++ x) ≡ t' ++ (sep ++ x')
      → (t ≡ t') × (x ≡ x')
  separated_inj sep t t' x x' h k k' e =
      let (a, d, b, shape, before, here) = cut sep h in
      let whole = rw shape at e in
      let (front, back) =
        cut_unique (t ++ a) (t' ++ a) d (b ++ x) (b ++ x') here
          (any_char-append (is_code n) t a ∙ ground arith)
          (any_char-append (is_code n) t' a ∙ ground arith)
          (sym (regroup t a b x d) ∙ whole ∙ regroup t' a b x' d) in
      (append_cancel_right t t' a front, append_cancel_left b x x' back)
