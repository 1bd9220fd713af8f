-- ===== src/Subjects/Injective.antt =====
-- A subject determines the names that it was made from, and no subject holds white space or wildcards.
use Prim.Native.String.{◌++◌, [], ◌∷◌}
use text.Mathlib.TextLemmas.{append_cancel_left, append_cancel_right}
use tip_olg_nats_agent_core.Common.{
  ℕ, Char, Bool, String, ◌≡◌, refl, sym, ◌∙◌, true, false, ◌||◌, [], ◌∷◌, arith,
}
use tip_olg_nats_agent_core.Strings.{
  Unicode, is_code, any_char, sprintf, contains_char, contains_whitespace,
}
use tip_olg_nats_agent_core.Strings.Format.{sprintf_inj, sprintf_two, sprintf-Free, separator}
use tip_olg_nats_agent_core.Strings.Cut.{separated_inj}
use tip_olg_nats_agent_core.Errors.{nil, validation_error}
use tip_olg_nats_agent_core.Results.{Result, ok, check-eq-ok}
use tip_olg_nats_agent_core.Subjects.Validate.{validate_target, validate_action, validate_token}
use tip_olg_nats_agent_core.Subjects.Tokens.{validate_target-no_dot}
use tip_olg_nats_agent_core.Subjects.Builders.{IsPattern, IsPatterns, new_builder-IsPatterns}
use tip_olg_nats_agent_core.Subjects.{
  Patterns, Builder, new_builder, configure_subject, action_subject, result_subject, status_subject,
  health_subject,
}

-- The subjects that are made from a target alone.
pub data TargetRoute : Type 0 where
  configure result status health : TargetRoute

abbrev pub target_subject : Unicode → Builder → TargetRoute → String → Result String
target_subject u b configure target = configure_subject u b target
target_subject u b result target = result_subject u b target
target_subject u b status target = status_subject u b target
target_subject u b health target = health_subject u b target

abbrev pub target_pattern : Builder → TargetRoute → String
target_pattern b configure = b.patterns.configure_pattern
target_pattern b result = b.patterns.result_pattern
target_pattern b status = b.patterns.status_pattern
target_pattern b health = b.patterns.health_pattern

target_subject-eq-ok :
    (u : Unicode) (b : Builder) (route : TargetRoute) (t : String) {s : String}
    → target_subject u b route t ≡ ok s
    → (validate_target u t ≡ nil) × (sprintf (target_pattern b route) (t ∷ []) ≡ s)
unfolding configure_subject result_subject status_subject health_subject
target_subject-eq-ok u b configure t h =
    let (v, e) = check-eq-ok (validate_target u t) _ h in (v, ground arith)
target_subject-eq-ok u b result t h =
    let (v, e) = check-eq-ok (validate_target u t) _ h in (v, ground arith)
target_subject-eq-ok u b status t h =
    let (v, e) = check-eq-ok (validate_target u t) _ h in (v, ground arith)
target_subject-eq-ok u b health t h =
    let (v, e) = check-eq-ok (validate_target u t) _ h in (v, ground arith)

-- White space and the wildcards of NATS subjects.
abbrev pub is_unsafe : Char → Bool
is_unsafe c =
    (is_code b' ' c || is_code 9 c || is_code 13 c || is_code 10 c)
    || is_code b'*' c
    || is_code b'>' c

-- A text with none of them.
abbrev pub IsSafe : String → Type 0
IsSafe s = any_char is_unsafe s ≡ false

IsSafe-of_parts :
    (s : String)
    → contains_whitespace s ≡ false
    → contains_char b'*' s ≡ false
    → contains_char b'>' s ≡ false
    → IsSafe s
unfolding any_char
IsSafe-of_parts [] h k l = refl
IsSafe-of_parts (c ∷ s) h k l =
    ground (arith, IsSafe-of_parts s (ground arith) (ground arith) (ground arith))

IsPattern-IsSafe : (n : ℕ) (s : String) → IsPattern n s → IsSafe s
IsPattern-IsSafe n s h = IsSafe-of_parts s h.no_whitespace h.no_star h.no_gt

validate_target-IsSafe : (u : Unicode) (t : String) → validate_target u t ≡ nil → IsSafe t
unfolding validate_target validate_token validation_error
validate_target-IsSafe u t h = IsSafe-of_parts t (ground arith) (ground arith) (ground arith)

validate_action-IsSafe : (u : Unicode) (t : String) → validate_action u t ≡ nil → IsSafe t
unfolding validate_action validate_token validation_error
validate_action-IsSafe u t h = IsSafe-of_parts t (ground arith) (ground arith) (ground arith)

module _ (u : Unicode) (p : Patterns) (b : Builder) (made : new_builder p ≡ ok b) where
  valid : IsPatterns b.patterns
  valid = new_builder-IsPatterns p b made

  target_pattern-IsPattern : (route : TargetRoute) → IsPattern 1 (target_pattern b route)
  target_pattern-IsPattern configure = valid.configure
  target_pattern-IsPattern result = valid.result
  target_pattern-IsPattern status = valid.status
  target_pattern-IsPattern health = valid.health

  -- For a builder that NewBuilder returned: two targets with one configure, result, status or
  -- health subject are one target.
  target_subject_inj :
      (route : TargetRoute) (t t' : String) {s : String}
      → target_subject u b route t ≡ ok s
      → target_subject u b route t' ≡ ok s
      → t ≡ t'
  target_subject_inj route t t' h h' =
      let (v, e) = target_subject-eq-ok u b route t h in
      let (v', e') = target_subject-eq-ok u b route t' h' in
      sprintf_inj (target_pattern b route) t t' (target_pattern-IsPattern route).verbs (e ∙ sym e')

  -- For a builder that NewBuilder returned: no subject made from a target alone holds a blank, a
  -- tab, a line break or a wildcard.
  target_subject-IsSafe :
      (route : TargetRoute) (t : String) {s : String} → target_subject u b route t ≡ ok s → IsSafe s
  target_subject-IsSafe route t h =
      let (v, e) = target_subject-eq-ok u b route t h in
      let valid_pattern = target_pattern-IsPattern route in
      rw (← e) (
        sprintf-Free is_unsafe (target_pattern b route) (t ∷ []) valid_pattern.verbs
          (IsPattern-IsSafe 1 _ valid_pattern) (validate_target-IsSafe u t v, tt))

  -- Likewise for an action subject.
  action_subject-IsSafe : (t a : String) {s : String} → action_subject u b t a ≡ ok s → IsSafe s
  unfolding action_subject
  action_subject-IsSafe t a {s} h =
      let (tv, k) = check-eq-ok (validate_target u t) _ h in
      let (av, e) = check-eq-ok (validate_action u a) _ k in
      let same : sprintf b.patterns.action_pattern (t ∷ a ∷ []) ≡ s = ground arith in
      rw (← same) (
        sprintf-Free is_unsafe b.patterns.action_pattern (t ∷ a ∷ []) valid.action.verbs
          (IsPattern-IsSafe 2 _ valid.action)
          (validate_target-IsSafe u t tv, (validate_action-IsSafe u a av, tt)))

  -- Where the text between the two %s of the action pattern has a '.', as by default, an action
  -- subject determines its target and its action.
  pub action_subject_inj :
      (t t' a a' : String) {s : String}
      → contains_char b'.' (separator b.patterns.action_pattern) ≡ true
      → action_subject u b t a ≡ ok s
      → action_subject u b t' a' ≡ ok s
      → (t ≡ t') × (a ≡ a')
  unfolding action_subject
  action_subject_inj t t' a a' {s} dot h h' =
      let (tv, k) = check-eq-ok (validate_target u t) _ h in
      let (tv', k') = check-eq-ok (validate_target u t') _ h' in
      let (av, e) = check-eq-ok (validate_action u a) _ k in
      let (av', e') = check-eq-ok (validate_action u a') _ k' in
      let (x, y, shape) = sprintf_two b.patterns.action_pattern valid.action.verbs in
      let whole : sprintf b.patterns.action_pattern (t ∷ a ∷ [])
          ≡ sprintf b.patterns.action_pattern (t' ∷ a' ∷ []) =
        ground arith in
      let sep = separator b.patterns.action_pattern in
      let (same, rest) =
        separated_inj b'.' sep t t' (a ++ y) (a' ++ y) dot (validate_target-no_dot u t tv)
          (validate_target-no_dot u t' tv')
          (append_cancel_left x (t ++ (sep ++ (a ++ y))) (t' ++ (sep ++ (a' ++ y)))
            (sym (shape t a) ∙ whole ∙ shape t' a')) in
      (same, append_cancel_right a a' y rest)
