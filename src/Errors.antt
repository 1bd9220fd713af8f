-- ===== src/Errors.antt =====
-- internal/runtimeerr/error.go and agentcore/errors.go: the two typed errors, their text, and their
-- conversion at the public facade (toPublicError of agentcore/client.go).
-- Go's `error` interface is one data type, with `nil` as a value of it: a typed error of each of
-- the two packages over its cause, the pair of errors.Join, and an error of a package that the
-- program only calls, known by the sentinel that errors.Is finds in it and by its text.
use Prim.Native.String.{◌++◌}
use tip_olg_nats_agent_core.Common.{
  String, ◌==◌, Bool, true, false, ◌&&◌, Option, none, some, if◌then◌else◌,
}

-- Code, of both packages; `not_implemented` is agentcore's alone.
pub data Code : Type 0 where
  validation connection_failed disconnected jetstream_failed kv_store_failed kv_read_failed : Code
  config_not_found publish_failed decode_failed encode_failed subscribe_failed : Code
  registry_conflict shutdown not_implemented : Code

pub Code-discrete : Discrete Code
Code-discrete = hlevel

-- The code's text, as the constants give it.
unfoldable pub code_text : Code → String
code_text validation = "validation"
code_text connection_failed = "connection_failed"
code_text disconnected = "disconnected"
code_text jetstream_failed = "jetstream_failed"
code_text kv_store_failed = "kv_store_failed"
code_text kv_read_failed = "kv_read_failed"
code_text config_not_found = "config_not_found"
code_text publish_failed = "publish_failed"
code_text decode_failed = "decode_failed"
code_text encode_failed = "encode_failed"
code_text subscribe_failed = "subscribe_failed"
code_text registry_conflict = "registry_conflict"
code_text shutdown = "shutdown"
code_text not_implemented = "not_implemented"

-- Error, of both packages, without its cause.
pub record Fault : Type 0 where
  pub code : Code
  pub op : String
  pub subject : String
  pub key : String
  pub message : String
  pub retryable : Bool

-- What errors.Is looks for in an error of a called package.
pub data Sentinel : Type 0 where
  ctx_canceled ctx_deadline key_missing key_deleted bucket_missing other : Sentinel

pub data Error : Type 0 where
  nil : Error
  external : Sentinel → String → Error
  runtime : Fault → Error → Error
  facade : Fault → Error → Error
  join : Error → Error → Error

abbrev pub is_nil : Error → Bool
is_nil nil = true
is_nil _ = false

-- A fault that names neither subject nor key.
abbrev pub fault : Code → String → String → Bool → Fault
fault code op message retryable = record {
  code = code;
  op = op;
  subject = "";
  key = "";
  message = message;
  retryable = retryable;
}

abbrev pub fault_at : Code → String → String → String → Bool → Fault
fault_at code op subject message retryable = record (fault code op message retryable) {
  subject = subject;
}

-- validationError of the internal packages, and of agentcore.
unfoldable pub validation_error : String → String → Error
validation_error op message = runtime (fault validation op message false) nil

unfoldable pub facade_validation_error : String → String → Error
facade_validation_error op message = facade (fault validation op message false) nil

-- Error.Error
unfoldable pub fault_text : Fault → String
unfolding code_text
fault_text f =
    if f.op == "" && f.message == ""
    then code_text f.code
    else if f.op == ""
    then code_text f.code ++ (": " ++ f.message)
    else if f.message == ""
    then f.op ++ (": " ++ code_text f.code)
    else f.op ++ (": " ++ (f.message ++ (" (" ++ (code_text f.code ++ ")"))))

-- err.Error(); the text of `nil` is never asked for.
unfoldable pub error_text : Error → String
unfolding fault_text
error_text nil = "<nil>"
error_text (external s text) = text
error_text (runtime f cause) = fault_text f
error_text (facade f cause) = fault_text f
error_text (join a b) = error_text a ++ ("\n" ++ error_text b)

-- errors.Join at two errors, of which the code tests the sum only against nil.
unfoldable pub joined : Error → Error → Error
joined nil b = b
joined a nil = a
joined a b = join a b

-- The first of two answers.
abbrev pub or_else {ℓ} : {A : Type ℓ} → Option A → Option A → Option A
or_else none b = b
or_else (some a) b = some a

-- Error.Unwrap
unfoldable pub unwrap : Error → Error
unwrap (runtime f cause) = cause
unwrap (facade f cause) = cause
unwrap _ = nil

-- errors.As with a target of type *runtimeerr.Error: the first in the tree, the outermost first.
unfoldable pub as_runtime : Error → Option (Fault × Error)
as_runtime nil = none
as_runtime (external s text) = none
as_runtime (runtime f cause) = some (f, cause)
as_runtime (facade f cause) = as_runtime cause
as_runtime (join a b) = or_else (as_runtime a) (as_runtime b)

-- toPublicError
unfoldable pub to_public_error : Error → Error
unfolding as_runtime
to_public_error err = elim (as_runtime err) [ none ↦ err | some (f, cause) ↦ facade f cause ]

-- Wrap
unfoldable pub wrap : Code → String → Error → Error
wrap code op err = facade (fault code op "" false) err
