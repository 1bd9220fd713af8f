-- ===== src/Subjects/Examples.antt =====
-- The theorems on subjects at concrete builders and names.
use Prim.Native.String.{◌++◌}
use tip_olg_nats_agent_core.Common.{◌≡◌, refl, ◌≢◌, ◌↔◌, false, String}
use text.Mathlib.TextLemmas.{cons-ne-nil}
use tip_olg_nats_agent_core.Strings.{
  Unicode, any_char, trim_space, count_verbs, remove_verbs, is_letter, sprintf,
}
use tip_olg_nats_agent_core.Strings.Format.{separator}
use tip_olg_nats_agent_core.Errors.{nil}
use tip_olg_nats_agent_core.Results.{ok}
use tip_olg_nats_agent_core.Subjects.Validate.{
  validate_target, validate_action, validate_token, validate_pattern, token_char,
}
use tip_olg_nats_agent_core.Subjects.Tokens.{IsUnicode, IsToken, validate_target-IsToken}
use tip_olg_nats_agent_core.Subjects.Injective.{action_subject_inj}
use tip_olg_nats_agent_core.Subjects.Ambiguous.{action_subject_ambiguous}
use tip_olg_nats_agent_core.Subjects.{
  Patterns, default_patterns, Builder, new_builder, configure_subject, action_subject,
  validate_patterns,
}

-- Tables with no letter and no digit beyond ASCII.
abbrev ascii : Unicode
ascii = record { letter = λ c. false; digit = λ c. false; lower = λ c. c }

abbrev ascii-IsUnicode : IsUnicode ascii
ascii-IsUnicode = record { letter_not_space = λ c h. refl; digit_not_space = λ c h. refl }

abbrev default_builder : Builder
default_builder = record { patterns = default_patterns }

default_made : new_builder default_patterns ≡ ok default_builder
unfolding new_builder validate_patterns validate_pattern trim_space any_char count_verbs
    remove_verbs
default_made = refl

-- Action patterns with nothing between the two names.
abbrev dense_patterns : Patterns
dense_patterns = record default_patterns { action_pattern = "cmd.%s%s" }

abbrev dense_builder : Builder
dense_builder = record { patterns = dense_patterns }

dense_made : new_builder dense_patterns ≡ ok dense_builder
unfolding new_builder validate_patterns validate_pattern trim_space any_char count_verbs
    remove_verbs
dense_made = refl

configure_vyos : configure_subject ascii default_builder "vyos" ≡ ok "cmd.configure.vyos"
unfolding configure_subject validate_target trim_space validate_token any_char token_char is_letter
    sprintf
configure_vyos = refl

trace_vyos : action_subject ascii default_builder "vyos" "trace" ≡ ok "cmd.action.vyos.trace"
unfolding action_subject validate_target validate_action trim_space validate_token any_char
    token_char is_letter sprintf
trace_vyos = refl

action_subject_inj_example : (◌≡◌ {A = String} "vyos" "vyos") × (◌≡◌ {A = String} "trace" "trace")
unfolding separator any_char
action_subject_inj_example =
    action_subject_inj ascii default_patterns default_builder default_made "vyos" "vyos" "trace"
      "trace" refl trace_vyos trace_vyos

validate_target-IsToken_example : (validate_target ascii "vyos-1" ≡ nil) ↔ IsToken ascii "vyos-1"
validate_target-IsToken_example = validate_target-IsToken ascii ascii-IsUnicode "vyos-1"

action_subject_ambiguous_example :
    (s : String) × (action_subject ascii dense_builder "a" ("b" ++ (separator "cmd.%s%s" ++ "c"))
      ≡ ok s)
    × (action_subject ascii dense_builder ("a" ++ (separator "cmd.%s%s" ++ "b")) "c" ≡ ok s)
    × (◌≢◌ {A = String} "a" ("a" ++ (separator "cmd.%s%s" ++ "b")))
unfolding separator any_char token_char is_letter
action_subject_ambiguous_example =
    action_subject_ambiguous ascii ascii-IsUnicode dense_patterns dense_builder dense_made "a" "b"
      "c" refl (cons-ne-nil _ _, refl) (cons-ne-nil _ _, refl) (cons-ne-nil _ _, refl)
