-- ===== src/Kv/Keys.antt =====
-- internal/kv/helpers.go: the key of a target.
use Prim.Native.String.{◌++◌}
use tip_olg_nats_agent_core.Common.{String, ◌==◌, not, ◌||◌, [], ◌∷◌, nat_eq, if◌then◌else◌}
use tip_olg_nats_agent_core.Strings.{
  Unicode, trim_space, any_char, contains_char, contains_whitespace, count_verbs, remove_verbs,
  sprintf,
}
use tip_olg_nats_agent_core.Errors.{Error, nil, validation_error}
use tip_olg_nats_agent_core.Results.{Result, ok, check, ◌>>◌}
use tip_olg_nats_agent_core.Subjects.Validate.{token_char}

-- validateToken
unfoldable pub validate_token : Unicode → String → String → String → Error
validate_token u op field value =
    if trim_space value == ""
    then validation_error op (field ++ " is required")
    else if contains_whitespace value
    then validation_error op (field ++ " cannot contain whitespace")
    else if contains_char b'.' value
    then validation_error op (field ++ " cannot contain '.'")
    else if contains_char b'*' value || contains_char b'>' value
    then validation_error op (field ++ " cannot contain wildcard tokens")
    else if any_char (λ c. not (token_char u c)) value
    then validation_error op (field ++ " contains unsupported characters")
    else nil

-- The checks of buildDesiredConfigKey on the trimmed pattern.
unfoldable pub key_pattern_error : String → Error
key_pattern_error pattern =
    let op : String = "build_desired_config_key" in
    if pattern == ""
    then validation_error op "kv key pattern is required"
    else if contains_whitespace pattern
    then validation_error op "kv key pattern cannot contain whitespace"
    else if not (nat_eq (count_verbs pattern) 1)
    then validation_error op "kv key pattern must contain exactly one %s placeholder"
    else if contains_char b'%' (remove_verbs pattern)
    then validation_error op "kv key pattern contains unsupported format directives"
    else nil

-- buildDesiredConfigKey
unfoldable pub build_desired_config_key : Unicode → String → String → Result String
build_desired_config_key u pattern target =
    check (key_pattern_error (trim_space pattern))
    >> (check (validate_token u "validate_target" "target" target)
        >> ok (sprintf (trim_space pattern) (target ∷ [])))
