-- ===== src/Subjects/Validate.antt =====
-- internal/subjects/validate.go, in the order of its checks.
use Prim.Native.String.{◌++◌}
use tip_olg_nats_agent_core.Common.{ℕ, Char, String, ◌==◌, Bool, not, ◌||◌, nat_eq, if◌then◌else◌}
use tip_olg_nats_agent_core.Strings.{
  Unicode, is_code, is_letter, is_digit, trim_space, any_char, contains_char, contains_whitespace,
  count_verbs, remove_verbs,
}
use tip_olg_nats_agent_core.Errors.{Error, nil, validation_error}

-- The code points that the last loop of validateToken lets through.
unfoldable pub token_char : Unicode → Char → Bool
token_char u c = is_letter u c || is_digit u c || is_code b'_' c || is_code b'-' c

-- validateToken
unfoldable pub validate_token : Unicode → String → String → String → Error
validate_token u op field value =
    if contains_whitespace value
    then validation_error op (field ++ " cannot contain whitespace")
    else if contains_char b'.' value
    then validation_error op (field ++ " cannot contain '.'")
    else if contains_char b'*' value || contains_char b'>' value
    then validation_error op (field ++ " cannot contain wildcard tokens")
    else if any_char (λ c. not (token_char u c)) value
    then validation_error op (field ++ " contains unsupported characters")
    else nil

-- ValidateTarget
unfoldable pub validate_target : Unicode → String → Error
validate_target u target =
    if trim_space target == ""
    then validation_error "validate_target" "target is required"
    else validate_token u "validate_target" "target" target

-- ValidateAction
unfoldable pub validate_action : Unicode → String → Error
validate_action u action =
    if trim_space action == ""
    then validation_error "validate_action" "action is required"
    else validate_token u "validate_action" "action" action

-- validatePattern
unfoldable pub validate_pattern : String → String → ℕ → Error
validate_pattern name pattern placeholders =
    let op : String = "validate_subject_pattern" in
    if trim_space pattern == ""
    then validation_error op (name ++ " is required")
    else if contains_whitespace pattern
    then validation_error op (name ++ " cannot contain whitespace")
    else if contains_char b'*' pattern || contains_char b'>' pattern
    then validation_error op (name ++ " cannot contain wildcard tokens")
    else if not (nat_eq (count_verbs pattern) placeholders)
    then validation_error op (name ++ " placeholder count is invalid")
    else if contains_char b'%' (remove_verbs pattern)
    then validation_error op (name ++ " contains unsupported format directives")
    else nil
