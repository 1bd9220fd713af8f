-- ===== src/Subjects/Ambiguous.antt =====
-- Action patterns without a '.' between their two %s are accepted, and their subjects are ambiguous.
use Prim.Native.String.{◌++◌}
use text.Mathlib.TextLemmas.{append_assoc, append-nil, append_cancel_left, append-eq-nil_iff}
use tip_olg_nats_agent_core.Common.{String, ◌≡◌, ◌≢◌, sym, ◌∙◌, ap, not, false, [], ◌∷◌, arith}
use tip_olg_nats_agent_core.Strings.{Unicode, any_char, sprintf, is_letter}
use tip_olg_nats_agent_core.Strings.Format.{sprintf_two, separator, Free-append}
use tip_olg_nats_agent_core.Results.{ok}
use tip_olg_nats_agent_core.Subjects.Validate.{token_char}
use tip_olg_nats_agent_core.Subjects.Tokens.{
  IsUnicode, IsToken, validate_target-IsToken, validate_action-IsToken,
}
use tip_olg_nats_agent_core.Subjects.Builders.{new_builder-IsPatterns}
use tip_olg_nats_agent_core.Subjects.{Patterns, Builder, new_builder, action_subject}

module _ (u : Unicode) (law : IsUnicode u) (p : Patterns) (b : Builder)
    (made : new_builder p ≡ ok b) where
  action_subject-ok :
      (t a : String)
      → IsToken u t
      → IsToken u a
      → action_subject u b t a ≡ ok (sprintf b.patterns.action_pattern (t ∷ a ∷ []))
  unfolding action_subject
  action_subject-ok t a ht ha =
      ground (arith, (validate_target-IsToken u law t).1 ht, (validate_action-IsToken u law a).1 ha)

  IsToken-join :
      (x sep y : String)
      → IsToken u x
      → any_char (λ c. not (token_char u c)) sep ≡ false
      → IsToken u y
      → IsToken u (x ++ (sep ++ y))
  unfolding token_char is_letter
  IsToken-join x sep y (nx, fx) fs (ny, fy) =
      (λ e. nx (append-eq-nil_iff.0 e).0, Free-append _ x _ fx (Free-append _ sep y fs fy))

  swap_sep :
      (x sep y z a c : String)
      → a ++ (x ++ (sep ++ ((y ++ (sep ++ z)) ++ c)))
        ≡ a ++ ((x ++ (sep ++ y)) ++ (sep ++ (z ++ c)))
  swap_sep x sep y z a c = simp append_assoc

  -- Whatever letters, digits, '_' and '-' stand between the two %s of an accepted action pattern
  -- (nothing at all included), any three names x, y, z give two different pairs of a target and an
  -- action with one subject: x with y·z, and x·y with z.
  pub action_subject_ambiguous :
      (x y z : String)
      → any_char (λ c. not (token_char u c)) (separator b.patterns.action_pattern) ≡ false
      → IsToken u x
      → IsToken u y
      → IsToken u z
      → (s : String) × (action_subject u b x (y ++ (separator b.patterns.action_pattern ++ z))
          ≡ ok s)
        × (action_subject u b (x ++ (separator b.patterns.action_pattern ++ y)) z ≡ ok s)
        × (x ≢ x ++ (separator b.patterns.action_pattern ++ y))
  action_subject_ambiguous x y z free hx hy hz =
      let pattern = b.patterns.action_pattern in
      let sep = separator pattern in
      let valid = new_builder-IsPatterns p b made in
      let (a, c, shape) = sprintf_two pattern valid.action.verbs in
      (
        sprintf pattern (x ∷ (y ++ (sep ++ z)) ∷ []),
        action_subject-ok x _ hx (IsToken-join y sep z hy free hz),
        action_subject-ok _ z (IsToken-join x sep y hx free hy) hz
            ∙ ap ok (
                shape (x ++ (sep ++ y)) z
                ∙ sym (swap_sep x sep y z a c)
                ∙ sym (shape x (y ++ (sep ++ z)))),
        λ e.
            hy.0
              (append-eq-nil_iff.0
                (append_cancel_left x (sep ++ y) "" (sym e ∙ sym (append-nil x)))).1,
      )
