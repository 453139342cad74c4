-- ===== src/Packs/Validation/Probes.antt =====
-- internal/packs/tool_validation.go: what `UnmarshalJSON` asks of a tool that JSON has decoded.
use cliharbor.Prelude.{
  ℕ, Bool, false, not, ◌||◌, Option, none, some, List, [], ◌∷◌, if◌then◌else◌, is_none, all,
}
use cliharbor.Prelude.Result.{Result, ok, ◌>>=◌, ◌>>◌, fail_if}
use cliharbor.Prelude.Text.{Text, lit, text_eq, is_empty}
use cliharbor.Prelude.Dict.{Dict}
use cliharbor.Prelude.Strings.{no_nul}
use cliharbor.Go.{Go}
use cliharbor.Host.{Host}
use cliharbor.Packs.{Tool, VersionProbe, HelpProbe}

-- One for each sentence of the source.
pub data ToolError : Type 0 where
  invalid_constraint constraint_without_probe unsupported_parser version_nul version_control :
      ToolError
  reserved_probe help_nul : Text → ToolError

abbrev pub has_control_rune : Go → List ℕ → Bool
has_control_rune go [] = false
has_control_rune go (r ∷ rs) = go.is_control r || has_control_rune go rs

unfoldable pub check_version_constraint : Host → Tool → Result ToolError (Unit {0})
check_version_constraint host t = if is_empty t.version_constraint then ok tt else (do
  fail_if (not (host.is_constraint t.version_constraint)) invalid_constraint
  fail_if (is_none t.version_probe) constraint_without_probe)

unfoldable pub check_version_probe : Go → Option VersionProbe → Result ToolError (Unit {0})
check_version_probe go none = ok tt
check_version_probe go (some p) = do
  fail_if (not (text_eq p.parser (lit "semver-text"))) unsupported_parser
  fail_if (not (all no_nul p.args)) version_nul
  fail_if (has_control_rune go (go.runes p.prefix)) version_control

-- The loop over the map of help probes, in the order of the list.
unfoldable pub check_help_probes : Dict HelpProbe → Result ToolError (Unit {0})
check_help_probes [] = ok tt
check_help_probes ((id, p) ∷ rest) =
    fail_if (text_eq id (lit "version")) (reserved_probe id) >>= λ _.
    fail_if (not (all no_nul p.args)) (help_nul id) >>= λ _. check_help_probes rest

unfoldable pub check_decoded_tool : Host → Go → Tool → Result ToolError (Unit {0})
unfolding check_version_constraint check_version_probe check_help_probes
check_decoded_tool host go t = do
  check_version_constraint host t
  check_version_probe go t.version_probe
  check_help_probes t.help_probes
