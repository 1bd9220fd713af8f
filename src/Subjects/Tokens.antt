-- ===== src/Subjects/Tokens.antt =====
-- Which targets and actions are valid, and what a valid one looks like.
use Prim.Native.String.{[], ◌∷◌}
use tip_olg_nats_agent_core.Common.{
  Char, String, Bool, ◌==◌, ◌≡◌, refl, ◌≢◌, ◌↔◌, true, false, not, ◌||◌, arith,
}
use tip_olg_nats_agent_core.Strings.{
  Unicode, is_code, is_letter, is_digit, is_space, any_char, trim_space, contains_char,
}
use tip_olg_nats_agent_core.Strings.Laws.{any_char_mono, trim_space-ne-empty}
use tip_olg_nats_agent_core.Errors.{nil, validation_error}
use tip_olg_nats_agent_core.Subjects.Validate.{
  token_char, validate_token, validate_target, validate_action,
}

-- What Go's tables satisfy: no letter and no digit is white space.
pub record IsUnicode (u : Unicode) : Type 0 where
  pub letter_not_space : (c : Char) → is_space c ≡ true → u.letter c ≡ false
  pub digit_not_space : (c : Char) → is_space c ≡ true → u.digit c ≡ false

-- A letter, a digit, '_' (95) or '-' (45).
abbrev pub is_named : Unicode → Char → Bool
is_named u c = is_letter u c || is_digit u c || is_code 95 c || is_code 45 c

-- A non-empty text of letters, digits, '_' and '-'.
abbrev pub IsToken : Unicode → String → Type 0
IsToken u s = (s ≢ "") × (any_char (λ c. not (is_named u c)) s ≡ false)

module _ (u : Unicode) where
  pub whitespace_not_token :
      (c : Char)
      → (is_code b' ' c || is_code 9 c || is_code 13 c || is_code 10 c) ≡ true
      → not (token_char u c) ≡ true
  unfolding token_char is_letter is_digit
  whitespace_not_token c h = ground arith

  pub dot_not_token : (c : Char) → is_code b'.' c ≡ true → not (token_char u c) ≡ true
  unfolding token_char is_letter is_digit
  dot_not_token c h = ground arith

  star_not_token : (c : Char) → is_code b'*' c ≡ true → not (token_char u c) ≡ true
  unfolding token_char is_letter is_digit
  star_not_token c h = ground arith

  gt_not_token : (c : Char) → is_code b'>' c ≡ true → not (token_char u c) ≡ true
  unfolding token_char is_letter is_digit
  gt_not_token c h = ground arith

  space_not_token : IsUnicode u → (c : Char) → token_char u c ≡ true → is_space c ≡ false
  unfolding token_char is_letter is_digit is_space
  space_not_token law c h = ground (arith, law.letter_not_space c, law.digit_not_space c)

  validate_token-Token :
      (op field s : String)
      → (validate_token u op field s ≡ nil) ↔ (any_char (λ c. not (token_char u c)) s ≡ false)
  unfolding validate_token validation_error
  validate_token-Token op field s = (
    λ h. ground arith,
    λ h. ground (
      arith,
      h,
      any_char_mono _ _ s whitespace_not_token h,
      any_char_mono _ _ s dot_not_token h,
      any_char_mono _ _ s star_not_token h,
      any_char_mono _ _ s gt_not_token h,
    ),
  )

  -- A token is not blank.
  IsToken-not_blank : IsUnicode u → (s : String) → IsToken u s → (trim_space s == "") ≡ false
  unfolding any_char token_char
  IsToken-not_blank law [] (ne, h) = absurd (ne refl)
  IsToken-not_blank law (c ∷ s) (ne, h) =
      trim_space-ne-empty c s (space_not_token law c (ground arith))

  empty_blank : (s : String) → s ≡ "" → (trim_space s == "") ≡ true
  unfolding trim_space
  empty_blank s e = rw e refl

  module _ (law : IsUnicode u) where
    -- A target is accepted exactly if it is a non-empty text of letters, digits, '_' and '-'.
    pub validate_target-IsToken :
        (target : String) → (validate_target u target ≡ nil) ↔ IsToken u target
    unfolding validate_target validation_error token_char
    validate_target-IsToken target =
        let token = validate_token-Token "validate_target" "target" target in
        (
          λ h. (λ e. ground (arith, empty_blank target e), token.0 (ground arith)),
          λ t. ground (arith, IsToken-not_blank law target t, token.1 t.1),
        )

    pub validate_action-IsToken :
        (action : String) → (validate_action u action ≡ nil) ↔ IsToken u action
    unfolding validate_action validation_error token_char
    validate_action-IsToken action =
        let token = validate_token-Token "validate_action" "action" action in
        (
          λ h. (λ e. ground (arith, empty_blank action e), token.0 (ground arith)),
          λ t. ground (arith, IsToken-not_blank law action t, token.1 t.1),
        )

  -- Without the law on the tables: an accepted name has no '.'.
  pub validate_target-no_dot :
      (target : String) → validate_target u target ≡ nil → contains_char b'.' target ≡ false
  unfolding validate_target validate_token validation_error
  validate_target-no_dot target h = ground arith

  pub validate_action-no_dot :
      (action : String) → validate_action u action ≡ nil → contains_char b'.' action ≡ false
  unfolding validate_action validate_token validation_error
  validate_action-no_dot action h = ground arith
