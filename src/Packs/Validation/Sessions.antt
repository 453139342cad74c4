-- ===== src/Packs/Validation/Sessions.antt =====
-- internal/packs/validation.go: `validateSessionCheck`.
use cliharbor.Prelude.{Bool, true, false, not, ◌||◌, List, [], ◌∷◌, ◌++◌, if◌then◌else◌}
use cliharbor.Prelude.Result.{ok, ◌>>=◌, ◌>>◌, fail_if, or_fail}
use cliharbor.Prelude.Text.{Text, lit, text_eq, is_empty}
use cliharbor.Prelude.Dict.{lookup}
use cliharbor.Go.{Go, is_trimmed}
use cliharbor.Packs.{Pack, Command, SessionCheck, Input, Risk, AuthMode}
use cliharbor.Packs.Validation.{Checked, semantic_at}
use cliharbor.Packs.Validation.Impacts.{has_control}

abbrev pub is_read : Risk → Bool
is_read Risk.read = true
is_read _ = false

abbrev pub uses_vendor_session : AuthMode → Bool
uses_vendor_session AuthMode.vendor_session = true
uses_vendor_session AuthMode.unset = false

abbrev pub no_inputs : List Input → Bool
no_inputs [] = true
no_inputs (i ∷ is) = false

-- What the command of a session check has to be.
unfoldable pub validate_session_command : Command → Text → Text → Checked
validate_session_command c tool_id path = do
  fail_if (not (text_eq c.tool tool_id)) (semantic_at path)
  fail_if (not (is_read c.risk)) (semantic_at path)
  fail_if (not (no_inputs c.inputs)) (semantic_at path)
  fail_if c.output.sensitivity.contains_secrets (semantic_at path)
  fail_if (not c.requirements.requires_auth || not (uses_vendor_session c.requirements.auth_mode))
      (semantic_at path)

unfoldable pub validate_marker : Go → Text → Text → Checked
validate_marker go marker path = if is_empty marker then ok tt else (do
  fail_if (not (is_trimmed go marker)) (semantic_at path)
  fail_if (has_control marker) (semantic_at path))

unfoldable pub validate_session_check : Go → Pack → Text → SessionCheck → Checked
unfolding validate_session_command
validate_session_check go pack tool_id check = do
  let path = lit "runtime.tools." ++ (tool_id ++ lit ".sessionCheck")
  command ← or_fail (lookup check.command_id pack.commands) (semantic_at (path ++ lit ".commandId"))
  validate_session_command command tool_id (path ++ lit ".commandId")
  validate_marker go check.unauthenticated_stderr_contains
      (path ++ lit ".unauthenticatedStderrContains")
