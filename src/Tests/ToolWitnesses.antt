-- ===== src/Tests/ToolWitnesses.antt =====
-- A pack whose tool has a session check and an install artifact.
use cliharbor.Prelude.{◌≡◌, refl, true, false, none, some, [], ◌∷◌}
use cliharbor.Prelude.Int.{pos}
use cliharbor.Prelude.Result.{ok}
use cliharbor.Prelude.Text.{lit, text_eq, text_lt}
use cliharbor.Prelude.Dict.{lookup, insert}
use cliharbor.Prelude.Strings.{
  has_prefix, has_suffix, trim_suffix, contains_byte, contains_any, split_on,
}
use cliharbor.Prelude.Sort.{sort_texts, insert_text, mem_text}
use cliharbor.Prelude.Loop.{each, each_at}
use cliharbor.Go.{is_trimmed}
use cliharbor.Host.{Host}
use cliharbor.Packs.{
  Command, Pack, Tool, SessionCheck, ToolInstall, InstallArtifact, read, vendor_session,
  executable_format,
}
use cliharbor.Packs.Validation.Executables.{
  validate_executables, validate_executable, is_forbidden_executable, has_directory,
}
use cliharbor.Packs.Validation.Installs.{
  valid_install_digest, valid_label, valid_install_host, matches_install_executable, is_public_url,
  validate_redirects, validate_format, validate_artifact, validate_artifact_at, validate_constraint,
  validate_install, validate_tool_install,
}
use cliharbor.Packs.Validation.Sessions.{
  validate_session_check, validate_session_command, validate_marker,
}
use cliharbor.Packs.Validation.Templates.{validate_stdin, count_secrets}
use cliharbor.Packs.Validation.Semantics.{
  validate_inputs, validate_mutation, validate_command, validate_command_at, validate_semantics,
  validate_tool, validate_session_at, validate_sensitivity, validate_structured,
}
use cliharbor.Packs.Validation.Tools.{
  SafeName, SessionCommand, TrustedArtifact, validate_semantics-executables,
  validate_semantics-SessionCommand, validate_semantics-TrustedArtifact,
}
use cliharbor.Tests.Data.{ascii_go, change_plan}
use cliharbor.Tests.ValidationWitnesses.{plain_host}

abbrev web_host : Host
web_host = record plain_host {
  parse_url = λ t. some (record {
    scheme = lit "https";
    host = lit "dl.example";
    host_name = lit "dl.example";
    port = [];
    fragment = [];
    has_user = false;
  });
}

abbrev check : SessionCheck
check = record { command_id = lit "whoami"; unauthenticated_stderr_contains = [] }

abbrev artifact : InstallArtifact
artifact = record {
  url = lit "https://dl.example/vt";
  sha256 = lit "0123456789abcdef0123456789abcdef0123456789abcdef0123456789abcdef";
  size_bytes = pos 9;
  format = executable_format;
  executable_name = lit "vt";
  archive_path = [];
  executable_sha256 = [];
  executable_size_bytes = pos 0;
  redirect_hosts = [];
}

abbrev install : ToolInstall
install = record { version = lit "1.0.0"; artifacts = (lit "linux-amd64", artifact) ∷ [] }

abbrev tool : Tool
tool = record {
  executable_names = lit "vt" ∷ [];
  version_probe =
      some (record { args = []; parser = lit "semver-text"; prefix = []; timeout_millis = pos 0 });
  help_probes = [];
  version_constraint = lit "1";
  session_check = some check;
  install = some install;
}

abbrev whoami : Command
whoami = record {
  name = lit "Who";
  description = [];
  tool = lit "vt";
  risk = read;
  impact = none;
  stdin = none;
  inputs = [];
  argv = [];
  output = change_plan.output;
  requirements = record { requires_auth = true; auth_mode = vendor_session };
}

abbrev pack : Pack
pack = record {
  metadata = record { id = lit "vt"; name = lit "vt"; version = lit "1"; description = [] };
  runtime = record { platforms = lit "linux" ∷ []; tools = (lit "vt", tool) ∷ [] };
  commands = (lit "whoami", whoami) ∷ [];
}

accepted : validate_semantics web_host ascii_go pack ≡ ok tt
unfolding validate_semantics validate_tool validate_session_at validate_command_at validate_command
    is_public_url validate_inputs validate_mutation validate_stdin count_secrets
    validate_sensitivity validate_structured validate_executables validate_executable
    is_forbidden_executable has_directory valid_install_digest valid_label valid_install_host
    matches_install_executable validate_redirects validate_format validate_artifact
    validate_artifact_at validate_constraint validate_install validate_tool_install
    validate_session_check validate_session_command validate_marker each each_at mem_text sort_texts
    insert_text lookup insert text_eq text_lt has_prefix has_suffix trim_suffix contains_byte
    contains_any split_on is_trimmed
accepted = refl

tool_found : lookup (lit "vt") pack.runtime.tools ≡ some tool
unfolding lookup text_eq
tool_found = refl

artifact_found : lookup (lit "linux-amd64") install.artifacts ≡ some artifact
unfolding lookup text_eq
artifact_found = refl

listed : mem_text (lit "vt") tool.executable_names ≡ true
unfolding mem_text text_eq
listed = refl

validate_semantics-executables_example : SafeName web_host (lit "vt")
validate_semantics-executables_example =
    validate_semantics-executables web_host ascii_go pack (lit "vt") (lit "vt") tool accepted
      tool_found listed

validate_semantics-SessionCommand_example : SessionCommand pack (lit "vt") check
validate_semantics-SessionCommand_example =
    validate_semantics-SessionCommand web_host ascii_go pack (lit "vt") tool check accepted
      tool_found refl

validate_semantics-TrustedArtifact_example :
    TrustedArtifact web_host pack tool (lit "linux-amd64") artifact
validate_semantics-TrustedArtifact_example =
    validate_semantics-TrustedArtifact web_host ascii_go pack (lit "vt") (lit "linux-amd64") tool
      install artifact accepted tool_found refl artifact_found
