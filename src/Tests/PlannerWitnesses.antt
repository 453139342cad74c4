-- ===== src/Tests/PlannerWitnesses.antt =====
-- internal/planner/planner.go: a command of one task with a literal argument and one text input.
use cliharbor.Prelude.{◌≡◌, refl, true, false, none, some, [], ◌∷◌}
use cliharbor.Prelude.Result.{ok}
use cliharbor.Prelude.Text.{lit, text_eq}
use cliharbor.Prelude.Dict.{lookup, insert}
use cliharbor.Packs.{Command, LoadedPack, read, string_input}
use cliharbor.Packs.Registry.{
  Registry, find_pack, find_command, new_registry, sort_packs, index_packs,
}
use cliharbor.Packs.Lookup.{new_registry-find_pack}
use cliharbor.Discovery.{Snapshot, ToolState, ready, find, is_valid}
use cliharbor.Planner.{Plan, Request}
use cliharbor.Planner.Values.{parse_value, strict_json, contains_nul, validate_string}
use cliharbor.Planner.Argv.{
  render_argument, render_argv, render_stdin, derive_impact, derive_mutation_impact,
}
use cliharbor.Planner.Build.{
  check_policy, check_risk, check_tool, check_unknown, unknown_inputs, parse_input, parse_inputs,
  build,
}
use cliharbor.Planner.Policy.{Sound, build-Sound}
use cliharbor.Tests.Data.{ascii_go, change_plan}

abbrev state : ToolState
state = record {
  pack_id = lit "git";
  pack_version = lit "1";
  tool_id = lit "git";
  status = ready;
  path = lit "/usr/bin/git";
  executable_name = lit "git";
  version = lit "2.0.0";
  version_constraint = [];
  candidates = [];
  identity = change_plan.identity;
}

abbrev show_command : Command
show_command = record {
  name = lit "Show";
  description = [];
  tool = lit "git";
  risk = read;
  impact = none;
  stdin = none;
  inputs =
      record {
        id = lit "rev";
        kind = string_input;
        label = [];
        required = true;
        validation = record {
          min = none;
          max = none;
          min_length = none;
          max_length = none;
          pattern = [];
          allowed = [];
          disallow_leading_dash = true;
        };
      }
      ∷ [];
  argv =
      record { literal = lit "show"; flag = none; positional = none; switch = none; mapped = none }
      ∷ record {
        literal = [];
        flag = none;
        positional = some (record { value_from = lit "rev"; omit_when_empty = true });
        switch = none;
        mapped = none;
      }
      ∷ [];
  output = change_plan.output;
  requirements = change_plan.requirements;
}

abbrev pack : LoadedPack
pack = record {
  source_name = lit "git.yaml";
  pack = record {
    metadata = record { id = lit "git"; name = lit "git"; version = lit "1"; description = [] };
    runtime = record { platforms = []; tools = [] };
    commands = (lit "show", show_command) ∷ [];
  };
}

abbrev packs : Registry
packs = record { packs = pack ∷ []; by_id = (lit "git", 0) ∷ [] }

abbrev tools : Snapshot
tools = record { tools = state ∷ []; by_ref = (lit "git", lit "git", 0) ∷ [] }

abbrev show_request : Request
show_request = record {
  pack_id = lit "git";
  command_id = lit "show";
  values = (lit "rev", lit "HEAD") ∷ [];
}

abbrev show_plan : Plan
show_plan = record {
  pack_id = lit "git";
  pack_version = lit "1";
  command_id = lit "show";
  tool_id = lit "git";
  executable_path = lit "/usr/bin/git";
  executable_name = lit "git";
  identity = change_plan.identity;
  tool_version = lit "2.0.0";
  args = lit "show" ∷ lit "HEAD" ∷ [];
  stdin = [];
  stdin_sensitive = false;
  risk = read;
  impact = none;
  output = change_plan.output;
  requirements = change_plan.requirements;
}

planned : build ascii_go (some packs) tools show_request ≡ ok show_plan
unfolding build find_pack find_command check_policy check_risk check_tool find is_valid
    check_unknown unknown_inputs parse_input parse_inputs parse_value validate_string strict_json
    contains_nul derive_impact derive_mutation_impact render_argument render_argv render_stdin
    lookup insert text_eq
planned = refl

build-Sound_example : Sound ascii_go (some packs) tools show_request show_plan
build-Sound_example = build-Sound ascii_go (some packs) tools show_request planned

made : new_registry (pack ∷ []) ≡ some packs
unfolding new_registry sort_packs index_packs lookup insert text_eq
made = refl

new_registry-find_pack_example : find_pack packs (lit "git") ≡ some pack
new_registry-find_pack_example = new_registry-find_pack (pack ∷ []) pack made (0, refl)
