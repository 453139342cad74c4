-- ===== src/Packs/Validation/Semantics.antt =====
-- internal/packs/validation.go: `validateSemantics`.
use cliharbor.Prelude.{
  ℕ, suc, Bool, true, false, not, ◌&&◌, Option, none, some, List, [], ◌∷◌, ◌++◌, if◌then◌else◌,
  is_some,
}
use cliharbor.Prelude.Result.{Result, ok, err, ◌>>=◌, ◌>>◌, fail_if, or_fail}
use cliharbor.Prelude.Text.{Text, lit, text_eq, is_empty}
use cliharbor.Prelude.Dict.{Dict, lookup, insert}
use cliharbor.Prelude.Sort.{mem_text, sorted_keys}
use cliharbor.Prelude.Loop.{each, each_at}
use cliharbor.Go.{Go}
use cliharbor.Host.{Host}
use cliharbor.Packs.{
  Pack, Command, Input, Impact, Output, OutputMode, Risk, SessionCheck, StructuredField,
}
use cliharbor.Packs.Validation.{Checked, ValidationError, semantic_at, indexed}
use cliharbor.Packs.Validation.Inputs.{validate_input}
use cliharbor.Packs.Validation.Arguments.{validate_argument}
use cliharbor.Packs.Validation.Impacts.{validate_impact}
use cliharbor.Packs.Validation.Templates.{validate_stdin}
use cliharbor.Packs.Validation.Executables.{validate_executables}
use cliharbor.Packs.Validation.Installs.{validate_tool_install}
use cliharbor.Packs.Validation.Sessions.{validate_session_check}

unfoldable pub validate_tool : Host → Go → Pack → Text → Checked
validate_tool host go pack id = elim (lookup id pack.runtime.tools) [
  | none ↦ ok tt
  | some tool ↦
      validate_executables host go id tool.executable_names
      >> validate_tool_install host go pack.runtime.platforms id tool
]

-- The loop over a command's inputs, with those declared so far.
unfoldable pub validate_inputs :
    Host → Go → Text → ℕ → List Input → Dict Input → Result ValidationError (Dict Input)
validate_inputs host go path index [] inputs = ok inputs
validate_inputs host go path index (input ∷ rest) inputs =
    fail_if (is_some (lookup input.id inputs))
      (semantic_at (indexed go (path ++ lit ".inputs") index ++ lit ".id"))
    >>= λ _. validate_input host input (indexed go (path ++ lit ".inputs") index) >>= λ _.
        validate_inputs host go path (suc index) rest (insert input.id input inputs)

-- A mutation has an impact, nothing else does.
unfoldable pub validate_mutation : Go → Risk → Option Impact → Dict Input → Text → Checked
validate_mutation go Risk.change none inputs path = err (semantic_at path)
validate_mutation go Risk.change (some i) inputs path = validate_impact go i inputs path
validate_mutation go Risk.destructive none inputs path = err (semantic_at path)
validate_mutation go Risk.destructive (some i) inputs path = validate_impact go i inputs path
validate_mutation go Risk.read o inputs path = fail_if (is_some o) (semantic_at path)
validate_mutation go Risk.credential_sensitive o inputs path =
    fail_if (is_some o) (semantic_at path)
validate_mutation go Risk.interactive o inputs path = fail_if (is_some o) (semantic_at path)

unfoldable pub validate_sensitivity : Output → Text → Checked
validate_sensitivity o path =
    if o.sensitivity.contains_secrets
    then (do
      fail_if o.sensitivity.persist_raw_output
          (semantic_at (path ++ lit ".sensitivity.persistRawOutput"))
      fail_if o.sensitivity.reveal_by_default
          (semantic_at (path ++ lit ".sensitivity.revealByDefault"))
      fail_if (is_some o.structured) (semantic_at (path ++ lit ".structured")))
    else ok tt

abbrev is_json : OutputMode → Bool
is_json OutputMode.json_output = true
is_json _ = false

unfoldable pub validate_fields : Go → Text → ℕ → List Text → List StructuredField → Checked
validate_fields go path index seen [] = ok tt
validate_fields go path index seen (f ∷ fs) =
    fail_if (mem_text f.key seen) (semantic_at (indexed go path index ++ lit ".key")) >>= λ _.
    fail_if f.sensitive (semantic_at (indexed go path index ++ lit ".sensitive")) >>= λ _.
    validate_fields go path (suc index) (f.key ∷ seen) fs

unfoldable pub validate_structured : Go → Output → Text → Checked
validate_structured go o path = elim o.structured [
  | none ↦ ok tt
  | some s ↦ (do
    fail_if (not (is_json o.mode)) (semantic_at (path ++ lit ".structured"))
    fail_if (not (is_empty o.renderer) && not (text_eq o.renderer (lit "cards")))
        (semantic_at (path ++ lit ".renderer"))
    validate_fields go (path ++ lit ".structured.fields") 0 [] s.fields)
]

unfoldable pub validate_command : Host → Go → Pack → Text → Command → Checked
validate_command host go pack path c = do
  tool ← or_fail (lookup c.tool pack.runtime.tools) (semantic_at (path ++ lit ".tool"))
  inputs ← validate_inputs host go path 0 c.inputs []
  validate_mutation go c.risk c.impact inputs (path ++ lit ".impact")
  each_at (λ i a. validate_argument a inputs (indexed go (path ++ lit ".argv") i)) 0 c.argv
  validate_stdin go c inputs path
  validate_sensitivity c.output (path ++ lit ".output")
  validate_structured go c.output (path ++ lit ".output")

unfoldable pub validate_command_at : Host → Go → Pack → Text → Checked
unfolding validate_command
validate_command_at host go pack id = elim (lookup id pack.commands) [
  | none ↦ ok tt
  | some c ↦ validate_command host go pack (lit "commands." ++ id) c
]

abbrev pub validate_session : Go → Pack → Text → Option SessionCheck → Checked
validate_session go pack id none = ok tt
validate_session go pack id (some check) = validate_session_check go pack id check

unfoldable pub validate_session_at : Go → Pack → Text → Checked
validate_session_at go pack id = elim (lookup id pack.runtime.tools) [
  | none ↦ ok tt
  | some tool ↦ validate_session go pack id tool.session_check
]

unfoldable pub validate_semantics : Host → Go → Pack → Checked
unfolding validate_tool validate_command_at validate_session_at
validate_semantics host go pack = do
  each (validate_tool host go pack) (sorted_keys pack.runtime.tools)
  each (validate_command_at host go pack) (sorted_keys pack.commands)
  each (validate_session_at go pack) (sorted_keys pack.runtime.tools)
