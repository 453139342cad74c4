-- ===== src/AppError.antt =====
-- internal/apperror/error.go: the closed set of browser-safe errors. The message and remediation
-- are fixed sentences for each code and are left out.
use cliharbor.Prelude.{ℕ, Bool, true, false, ◌&&◌, ◌||◌, [], ◌∷◌, length, leb, ◌==◌, if◌then◌else◌}
use cliharbor.Prelude.Text.{Text, lit, text_eq}

pub data Category : Type 0 where
  validation security discovery policy capacity lifecycle stream execution internal : Category

pub data Code : Type 0 where
  invalid_request invalid_input request_too_large method_not_allowed request_forbidden : Code
  session_unavailable authentication_unsupported authentication_failed : Code
  authentication_unavailable authentication_busy resource_not_found command_blocked : Code
  approval_required audit_unavailable execution_context_unavailable tool_unavailable : Code
  tool_changed run_capacity run_not_found runtime_closed invalid_cursor stream_capacity : Code
  stream_unavailable execution_failed output_limit event_capacity internal_error : Code

pub record Detail : Type 0 where
  pub code : Code
  pub category : Category
  pub retryable : Bool
  pub field : Text

abbrev lasting : Code → Category → Detail
lasting c g = record { code = c; category = g; retryable = false; field = [] }

abbrev passing : Code → Category → Detail
passing c g = record { code = c; category = g; retryable = true; field = [] }

unfoldable pub detail_for : Code → Detail
detail_for invalid_request = lasting invalid_request validation
detail_for invalid_input = lasting invalid_input validation
detail_for request_too_large = lasting request_too_large validation
detail_for method_not_allowed = lasting method_not_allowed validation
detail_for request_forbidden = lasting request_forbidden security
detail_for session_unavailable = lasting session_unavailable security
detail_for authentication_unsupported = lasting authentication_unsupported policy
detail_for authentication_failed = lasting authentication_failed security
detail_for authentication_unavailable = passing authentication_unavailable lifecycle
detail_for authentication_busy = passing authentication_busy capacity
detail_for resource_not_found = lasting resource_not_found lifecycle
detail_for command_blocked = lasting command_blocked policy
detail_for approval_required = lasting approval_required policy
detail_for audit_unavailable = lasting audit_unavailable security
detail_for execution_context_unavailable = lasting execution_context_unavailable policy
detail_for tool_unavailable = lasting tool_unavailable discovery
detail_for tool_changed = passing tool_changed discovery
detail_for run_capacity = passing run_capacity capacity
detail_for run_not_found = lasting run_not_found lifecycle
detail_for runtime_closed = lasting runtime_closed lifecycle
detail_for invalid_cursor = passing invalid_cursor stream
detail_for stream_capacity = passing stream_capacity capacity
detail_for stream_unavailable = passing stream_unavailable stream
detail_for execution_failed = lasting execution_failed execution
detail_for output_limit = lasting output_limit execution
detail_for event_capacity = lasting event_capacity execution
detail_for internal_error = lasting internal_error internal

is_lower : ℕ → Bool
is_lower c = leb b'a' c && leb c b'z'

is_digit : ℕ → Bool
is_digit c = leb b'0' c && leb c b'9'

-- The characters behind the first: lower-case letters, digits and dashes.
id_rest : Text → Bool
unfolding is_lower is_digit
id_rest [] = true
id_rest (c ∷ cs) = (is_lower c || (is_digit c || c == b'-')) && id_rest cs

valid_input_id : Text → Bool
unfolding is_lower id_rest
valid_input_id [] = false
valid_input_id (c ∷ cs) = leb (length (c ∷ cs)) 63 && (is_lower c && id_rest cs)

-- `strings.TrimPrefix` after a successful `strings.HasPrefix`.
strip_prefix : Text → Text → (Bool × Text)
strip_prefix [] t = (true, t)
strip_prefix (p ∷ ps) [] = (false, [])
strip_prefix (p ∷ ps) (c ∷ cs) =
    let rest = strip_prefix ps cs in if p == c then rest else (false, [])

unfoldable pub valid_field : Text → Bool
unfolding valid_input_id strip_prefix
valid_field field =
    if text_eq field (lit "packId")
      || (text_eq field (lit "commandId") || text_eq field (lit "installRoot"))
    then true
    else (let (has_prefix, id) = strip_prefix (lit "values.") field in
        has_prefix && valid_input_id id)

unfoldable pub with_field : Detail → Text → Detail
with_field detail field = if valid_field field then record detail { field = field } else detail
