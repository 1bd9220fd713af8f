-- ===== src/Subjects.antt =====
-- internal/subjects: the subject patterns, their validation, the validation of targets and actions,
-- and the subjects that a Builder makes from them.
pub mod Validate
pub mod Tokens
pub mod Builders
pub mod Injective
pub mod Ambiguous
mod Examples
use tip_olg_nats_agent_core.Common.{String, ◌==◌, [], ◌∷◌, if◌then◌else◌}
use tip_olg_nats_agent_core.Strings.{Unicode, sprintf}
use tip_olg_nats_agent_core.Errors.{Error}
use tip_olg_nats_agent_core.Results.{Result, ok, err, ◌>>=◌, ◌>>◌, check, ◌⨟◌}
use Validate.{validate_target, validate_action, validate_pattern}

-- Patterns, and Config, which has the same fields.
pub record Patterns : Type 0 where
  pub configure_pattern : String
  pub action_pattern : String
  pub result_pattern : String
  pub status_pattern : String
  pub health_pattern : String

-- DefaultPatterns
abbrev pub default_patterns : Patterns
default_patterns = record {
  configure_pattern = "cmd.configure.%s";
  action_pattern = "cmd.action.%s.%s";
  result_pattern = "result.%s";
  status_pattern = "status.%s";
  health_pattern = "health.%s";
}

abbrev override : String → String → String
override given default = if given == "" then default else given

-- The five checks, which PatternsFromConfig and NewBuilder both make.
unfoldable pub validate_patterns : Patterns → Error
validate_patterns p =
    validate_pattern "configure_pattern" p.configure_pattern 1
    ⨟ validate_pattern "action_pattern" p.action_pattern 2
    ⨟ validate_pattern "result_pattern" p.result_pattern 1
    ⨟ validate_pattern "status_pattern" p.status_pattern 1
    ⨟ validate_pattern "health_pattern" p.health_pattern 1

-- What the overrides of PatternsFromConfig leave.
unfoldable pub resolve_patterns : Patterns → Patterns
resolve_patterns cfg = record {
  configure_pattern = override cfg.configure_pattern default_patterns.configure_pattern;
  action_pattern = override cfg.action_pattern default_patterns.action_pattern;
  result_pattern = override cfg.result_pattern default_patterns.result_pattern;
  status_pattern = override cfg.status_pattern default_patterns.status_pattern;
  health_pattern = override cfg.health_pattern default_patterns.health_pattern;
}

-- PatternsFromConfig
unfoldable pub patterns_from_config : Patterns → Result Patterns
patterns_from_config cfg = do let p = resolve_patterns cfg; check (validate_patterns p); ok p

-- Builder
pub record Builder : Type 0 where
  pub patterns : Patterns

-- NewBuilder
unfoldable pub new_builder : Patterns → Result Builder
new_builder patterns = do check (validate_patterns patterns); ok (record { patterns = patterns })

module _ (u : Unicode) (b : Builder) where
  -- ConfigureSubject
  unfoldable pub configure_subject : String → Result String
  configure_subject target = do
    check (validate_target u target)
    ok (sprintf b.patterns.configure_pattern (target ∷ []))

  -- ActionSubject
  unfoldable pub action_subject : String → String → Result String
  action_subject target action = do
    check (validate_target u target)
    check (validate_action u action)
    ok (sprintf b.patterns.action_pattern (target ∷ action ∷ []))

  -- ResultSubject
  unfoldable pub result_subject : String → Result String
  result_subject target = do
    check (validate_target u target)
    ok (sprintf b.patterns.result_pattern (target ∷ []))

  -- StatusSubject
  unfoldable pub status_subject : String → Result String
  status_subject target = do
    check (validate_target u target)
    ok (sprintf b.patterns.status_pattern (target ∷ []))

  -- HealthSubject
  unfoldable pub health_subject : String → Result String
  health_subject target = do
    check (validate_target u target)
    ok (sprintf b.patterns.health_pattern (target ∷ []))
