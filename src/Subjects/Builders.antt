-- ===== src/Subjects/Builders.antt =====
-- What a Builder that NewBuilder returns holds.
use tip_olg_nats_agent_core.Common.{ℕ, String, ◌≡◌, refl, subst, arith, false}
use tip_olg_nats_agent_core.Strings.{count_verbs, contains_whitespace, contains_char}
use tip_olg_nats_agent_core.Errors.{nil, validation_error}
use tip_olg_nats_agent_core.Results.{ok, check-eq-ok, ⨟-nil}
use tip_olg_nats_agent_core.Subjects.Validate.{validate_pattern}
use tip_olg_nats_agent_core.Subjects.{
  Patterns, validate_patterns, Builder, new_builder, patterns_from_config, resolve_patterns,
}

-- A pattern with the given number of %s, and neither white space nor wildcards.
pub record IsPattern (n : ℕ) (pattern : String) : Type 0 where
  pub verbs : count_verbs pattern ≡ n
  pub no_whitespace : contains_whitespace pattern ≡ false
  pub no_star : contains_char b'*' pattern ≡ false
  pub no_gt : contains_char b'>' pattern ≡ false

validate_pattern-IsPattern :
    (name pattern : String) (n : ℕ) → validate_pattern name pattern n ≡ nil → IsPattern n pattern
unfolding validate_pattern validation_error
validate_pattern-IsPattern name pattern n h = ground arith

pub record IsPatterns (p : Patterns) : Type 0 where
  pub configure : IsPattern 1 p.configure_pattern
  pub action : IsPattern 2 p.action_pattern
  pub result : IsPattern 1 p.result_pattern
  pub status : IsPattern 1 p.status_pattern
  pub health : IsPattern 1 p.health_pattern

pub new_builder-IsPatterns :
    (p : Patterns) (b : Builder) → new_builder p ≡ ok b → IsPatterns b.patterns
unfolding new_builder validate_patterns
new_builder-IsPatterns p b h =
    let (valid, same) = check-eq-ok (validate_patterns p) (ok (record { patterns = p })) h in
    let e : p ≡ b.patterns = ground arith in
    let (c, rest) = ⨟-nil _ _ valid in
    let (a, rest') = ⨟-nil _ _ rest in
    let (r, rest'') = ⨟-nil _ _ rest' in
    let (s, hl) = ⨟-nil _ _ rest'' in
    subst IsPatterns e (record {
      configure = validate_pattern-IsPattern _ _ 1 c;
      action = validate_pattern-IsPattern _ _ 2 a;
      result = validate_pattern-IsPattern _ _ 1 r;
      status = validate_pattern-IsPattern _ _ 1 s;
      health = validate_pattern-IsPattern _ _ 1 hl;
    })

-- Patterns that PatternsFromConfig returns are the configured ones over the defaults, and NewBuilder
-- accepts them.
pub patterns_from_config-new_builder :
    (cfg p : Patterns)
    → patterns_from_config cfg ≡ ok p
    → (p ≡ resolve_patterns cfg) × (new_builder p ≡ ok (record { patterns = p }))
unfolding patterns_from_config new_builder
patterns_from_config-new_builder cfg p h =
    let (valid, same) = check-eq-ok (validate_patterns (resolve_patterns cfg)) _ h in
    let e : p ≡ resolve_patterns cfg = ground arith in (e, rw (e, valid) refl)
