-- ===== src/Strings/Format.antt =====
-- Laws of fmt.Sprintf at formats whose only directives are %s.
use Prim.Native.String.{String, [], ◌∷◌, ◌++◌}
use text.Mathlib.TextLemmas.{append_cancel_left, append_cancel_right}
use mathlib.Core.List.{List, [], ◌∷◌}
use tip_olg_nats_agent_core.Common.{
  ◌≡◌, refl, sym, ◌∙◌, Char, Bool, false, arith, length, All, Bool-cases, inl, inr,
}
use tip_olg_nats_agent_core.Strings.{is_verb, any_char, split_verbs, count_verbs, fill, sprintf}
use tip_olg_nats_agent_core.Strings.Laws.{any_char-append}

-- The two ends of a format with one %s: the argument stands between them.
pub sprintf_one :
    (format : String)
    → count_verbs format ≡ 1
    → (a : String) × (b : String) × ((t : String) → sprintf format (t ∷ []) ≡ a ++ (t ++ b))
unfolding count_verbs sprintf
sprintf_one format h = go (split_verbs format).1 h
  where
    head : String
    head = (split_verbs format).0

    go :
        (parts : List String)
        → length parts ≡ 1
        → (a : String) × (b : String) × ((t : String) → head ++ fill parts (t ∷ []) ≡ a ++ (t ++ b))
    go [] h = absurd (omega arith)
    go (b ∷ []) h = (head, b ++ "", λ t. refl)
    go (b ∷ c ∷ parts) h = absurd (omega arith)

abbrev first : List String → String
first [] = ""
first (s ∷ rest) = s

-- What stands between the first two %s of a format.
unfoldable pub separator : String → String
unfolding split_verbs
separator format = first (split_verbs format).1

pub sprintf_two :
    (format : String)
    → count_verbs format ≡ 2
    → (a : String) × (c : String) × ((t s : String)
        → sprintf format (t ∷ s ∷ []) ≡ a ++ (t ++ (separator format ++ (s ++ c))))
unfolding count_verbs sprintf separator
sprintf_two format h = go (split_verbs format).1 h
  where
    head : String
    head = (split_verbs format).0

    go :
        (parts : List String)
        → length parts ≡ 2
        → (a : String) × (c : String) × ((t s : String)
            → head ++ fill parts (t ∷ s ∷ []) ≡ a ++ (t ++ (first parts ++ (s ++ c))))
    go [] h = absurd (omega arith)
    go (b ∷ []) h = absurd (omega arith)
    go (b ∷ c ∷ []) h = (head, c ++ "", λ t s. refl)
    go (b ∷ c ∷ d ∷ parts) h = absurd (omega arith)

-- With one %s the text determines the argument.
pub sprintf_inj :
    (format t s : String)
    → count_verbs format ≡ 1
    → sprintf format (t ∷ []) ≡ sprintf format (s ∷ [])
    → t ≡ s
sprintf_inj format t s h e =
    let (a, b, shape) = sprintf_one format h in
    append_cancel_right t s b (append_cancel_left a (t ++ b) (s ++ b) (sym (shape t) ∙ e ∙ shape s))

module _ (p : Char → Bool) where
  -- No code point of the text passes the test.
  abbrev pub Free : String → Type 0
  Free s = any_char p s ≡ false

  pub Free-append : (s t : String) → Free s → Free t → Free (s ++ t)
  Free-append s t h k = any_char-append p s t ∙ ground arith

  split_verbs-Free : (s : String) → Free s → Free (split_verbs s).0 × All Free (split_verbs s).1
  unfolding split_verbs any_char
  split_verbs-Free [] h = (refl, tt)
  split_verbs-Free (c ∷ []) h = (h, tt)
  split_verbs-Free (c ∷ d ∷ s) h =
      let cut = split_verbs-Free s (ground arith) in
      let kept = split_verbs-Free (d ∷ s) (ground arith) in
      elim (Bool-cases (is_verb c d)) [
        | inl e ↦ rw e (refl, cut)
        | inr e ↦ rw e (ground arith, kept.1)
      ]

  fill-Free :
      (parts args : List String)
      → length parts ≡ length args
      → All Free parts
      → All Free args
      → Free (fill parts args)
  unfolding any_char
  fill-Free [] [] h ps as' = refl
  fill-Free [] (a ∷ args) h ps as' = absurd (omega arith)
  fill-Free (q ∷ parts) [] h ps as' = absurd (omega arith)
  fill-Free (q ∷ parts) (a ∷ args) h (hq, ps) (ha, as') =
      Free-append a _ ha (Free-append q _ hq (fill-Free parts args (omega arith) ps as'))

  -- What stands neither in the format nor in the arguments does not stand in the text.
  pub sprintf-Free :
      (format : String) (args : List String)
      → count_verbs format ≡ length args
      → Free format
      → All Free args
      → Free (sprintf format args)
  unfolding sprintf count_verbs
  sprintf-Free format args h k as' =
      let (head, parts) = split_verbs-Free format k in
      Free-append _ _ head (fill-Free (split_verbs format).1 args h parts as')
