-- ===== src/Tests/ValidationWitnesses.antt =====
-- A pack that passes validation, its one command a change of a named resource.
use cliharbor.Prelude.{◌≡◌, refl, true, false, none, some, [], ◌∷◌}
use cliharbor.Prelude.Result.{ok, err}
use cliharbor.Prelude.Text.{lit, text_eq, text_lt}
use cliharbor.Prelude.Dict.{lookup, insert}
use cliharbor.Prelude.Strings.{has_prefix, has_suffix, trim_suffix, contains_byte, contains_any}
use cliharbor.Prelude.Sort.{sort_texts, insert_text, mem_text}
use cliharbor.Prelude.Loop.{each, each_at}
use cliharbor.Go.{Go, is_trimmed, safe_runes}
use cliharbor.Host.{Host}
use cliharbor.Packs.{Command, LoadedPack, change, single, string_input}
use cliharbor.Packs.Registry.{Registry, find_pack, find_command}
use cliharbor.Packs.Validation.Inputs.{validate_input, validate_kind}
use cliharbor.Packs.Validation.Arguments.{validate_argument, validate_value, validate_dashes}
use cliharbor.Packs.Validation.Impacts.{validate_impact, validate_label}
use cliharbor.Packs.Validation.Templates.{validate_stdin, count_secrets}
use cliharbor.Packs.Validation.Executables.{
  validate_executables, validate_executable, is_forbidden_executable, has_directory,
}
use cliharbor.Packs.Validation.Installs.{validate_tool_install}
use cliharbor.Packs.Validation.Semantics.{
  validate_inputs, validate_mutation, validate_command, validate_command_at, validate_semantics,
  validate_tool, validate_session_at, validate_sensitivity, validate_structured,
}
use cliharbor.Discovery.{Snapshot, ready, find, is_valid}
use cliharbor.Planner.{Plan, Request, invalid_plan_state}
use cliharbor.Planner.Values.{at, parse_value, strict_json, contains_nul, validate_string}
use cliharbor.Planner.Argv.{
  render_argument, render_argv, render_positional, render_stdin, derive_impact, derive_target,
  derive_mutation_impact,
}
use cliharbor.Planner.Build.{
  check_policy, check_risk, check_tool, check_unknown, unknown_inputs, parse_input, parse_inputs,
  build,
}
use cliharbor.Planner.Validated.{EmptyTarget, build-EmptyTarget}
use cliharbor.Planner.Injection.{Harmless, Each, build-Harmless}
use cliharbor.Tests.Data.{ascii_go, change_plan}

abbrev pub plain_host : Host
plain_host = record {
  to_lower = λ t. t;
  equal_fold = text_eq;
  path_clean = λ t. t;
  path_base = λ t. t;
  clean = λ t. t;
  base = λ t. t;
  ext = λ t. [];
  is_abs = λ t. true;
  join = λ a b. b;
  parse_url = λ t. none;
  is_ip = λ t. false;
  compiles = λ t. true;
  is_constraint = λ t. true;
  is_version = λ t. true;
  satisfies = λ c v. true;
  split_list = λ t. t ∷ [];
  find_semver = λ t. t ∷ [];
  prefixed_semver = λ t. some t;
  strict_version = λ t. some t;
}

abbrev remove : Command
remove = record {
  name = lit "Remove";
  description = [];
  tool = lit "tf";
  risk = change;
  impact = some (record {
    target_input = lit "name";
    target_label = lit "Name";
    effect = lit "gone";
    scope = single;
  });
  stdin = none;
  inputs =
      record {
        id = lit "name";
        kind = string_input;
        label = [];
        required = true;
        validation = record {
          min = none;
          max = none;
          min_length = none;
          max_length = none;
          pattern = [];
          allowed = [];
          disallow_leading_dash = true;
        };
      }
      ∷ [];
  argv =
      record { literal = lit "rm"; flag = none; positional = none; switch = none; mapped = none }
      ∷ record {
        literal = [];
        flag = none;
        positional = some (record { value_from = lit "name"; omit_when_empty = false });
        switch = none;
        mapped = none;
      }
      ∷ [];
  output = change_plan.output;
  requirements = change_plan.requirements;
}

abbrev loaded : LoadedPack
loaded = record {
  source_name = lit "tf.yaml";
  pack = record {
    metadata = record { id = lit "tf"; name = lit "tf"; version = lit "1"; description = [] };
    runtime = record {
      platforms = [];
      tools =
          (
            lit "tf",
            record {
              executable_names = lit "tf" ∷ [];
              version_probe = none;
              help_probes = [];
              version_constraint = [];
              session_check = none;
              install = none;
            },
          )
          ∷ [];
    };
    commands = (lit "rm", remove) ∷ [];
  };
}

abbrev pub packs : Registry
packs = record { packs = loaded ∷ []; by_id = (lit "tf", 0) ∷ [] }

abbrev pub tools : Snapshot
tools = record {
  tools =
      record {
        pack_id = lit "tf";
        pack_version = lit "1";
        tool_id = lit "tf";
        status = ready;
        path = lit "/bin/tf";
        executable_name = lit "tf";
        version = [];
        version_constraint = [];
        candidates = [];
        identity = change_plan.identity;
      }
      ∷ [];
  by_ref = (lit "tf", lit "tf", 0) ∷ [];
}

abbrev pub request : Request
request = record { pack_id = lit "tf"; command_id = lit "rm"; values = (lit "name", lit "a") ∷ [] }

-- Every JSON string is the empty one.
abbrev empty_go : Go
empty_go = record ascii_go { decode_string = λ t. some ([], []) }

pack_found : find_pack packs (lit "tf") ≡ some loaded
unfolding find_pack lookup text_eq
pack_found = refl

command_found : find_command packs (lit "tf") (lit "rm") ≡ some remove
unfolding find_command find_pack lookup text_eq
command_found = refl

accepted_by_go : validate_semantics plain_host ascii_go loaded.pack ≡ ok tt
unfolding validate_semantics validate_tool validate_session_at validate_command_at validate_command
    validate_inputs validate_input validate_kind validate_mutation validate_impact validate_label
    validate_argument validate_value validate_dashes validate_stdin count_secrets
    validate_sensitivity validate_structured validate_executables validate_executable
    is_forbidden_executable has_directory validate_tool_install each each_at mem_text sort_texts
    insert_text lookup insert text_eq text_lt has_prefix has_suffix trim_suffix contains_byte
    contains_any is_trimmed
accepted_by_go = refl

accepted : validate_semantics plain_host empty_go loaded.pack ≡ ok tt
unfolding validate_semantics validate_tool validate_session_at validate_command_at validate_command
    validate_inputs validate_input validate_kind validate_mutation validate_impact validate_label
    validate_argument validate_value validate_dashes validate_stdin count_secrets
    validate_sensitivity validate_structured validate_executables validate_executable
    is_forbidden_executable has_directory validate_tool_install each each_at mem_text sort_texts
    insert_text lookup insert text_eq text_lt has_prefix has_suffix trim_suffix contains_byte
    contains_any is_trimmed
accepted = refl

refused : build empty_go (some packs) tools request ≡ err (at invalid_plan_state (lit "commandId"))
unfolding build find_pack find_command check_policy check_risk check_tool find is_valid
    check_unknown unknown_inputs parse_input parse_inputs parse_value validate_string strict_json
    contains_nul derive_impact derive_target derive_mutation_impact lookup insert text_eq
refused = refl

build-EmptyTarget_example : EmptyTarget empty_go request remove
build-EmptyTarget_example =
    build-EmptyTarget plain_host empty_go packs tools request loaded remove (λ p t h. refl)
      pack_found command_found (tt, (tt, tt)) accepted refused refl

abbrev pub remove_plan : Plan
remove_plan = record {
  pack_id = lit "tf";
  pack_version = lit "1";
  command_id = lit "rm";
  tool_id = lit "tf";
  executable_path = lit "/bin/tf";
  executable_name = lit "tf";
  identity = change_plan.identity;
  tool_version = [];
  args = lit "rm" ∷ lit "a" ∷ [];
  stdin = [];
  stdin_sensitive = false;
  risk = change;
  impact =
      some (record {
        target_label = lit "Name";
        target = lit "a";
        effect = lit "gone";
        scope = single;
      });
  output = change_plan.output;
  requirements = change_plan.requirements;
}

pub planned : build ascii_go (some packs) tools request ≡ ok remove_plan
unfolding build find_pack find_command check_policy check_risk check_tool find is_valid
    check_unknown unknown_inputs parse_input parse_inputs parse_value validate_string strict_json
    contains_nul derive_impact derive_target derive_mutation_impact is_trimmed safe_runes
    render_argument render_positional render_argv render_stdin lookup insert text_eq
planned = refl

build-Harmless_example : Each (Harmless ascii_go remove.argv) (lit "rm" ∷ lit "a" ∷ [])
build-Harmless_example =
    build-Harmless plain_host ascii_go packs tools request loaded remove pack_found command_found
      accepted_by_go planned
