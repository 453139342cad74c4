-- ===== src/Tests/ExecutorWitnesses.antt =====
-- A run of a process that writes once and exits, and a small YAML tree.
use cliharbor.Prelude.{◌≡◌, refl, true, false, none, some, List, [], ◌∷◌, Bool, ◌≤◌, all}
use cliharbor.Prelude.Result.{ok}
use cliharbor.Prelude.Text.{lit, text_eq}
use cliharbor.Prelude.Sort.{mem_text}
use cliharbor.Prelude.Strings.{contains_byte, no_nul}
use cliharbor.Executor.{Event}
use cliharbor.Executor.Plans.{validate_plan, build-validate_plan}
use cliharbor.Executor.Run.{Script, Settings, clean_exit, run}
use cliharbor.Executor.Phases.{record_into}
use cliharbor.Executor.Protocol.{RunLog, run-Ordered}
use cliharbor.Packs.Validation.Yaml.{
  Node, node, nil, cons, mapping_node, scalar_node, max_yaml_nodes, validate_yaml_tree, walk,
  check_node, check_key, allowed_yaml_tag, child_path,
}
use cliharbor.Packs.Validation.Trees.{size, plain_from, validate_yaml_tree_bounds}
use cliharbor.Tests.Data.{ascii_go}
use cliharbor.Tests.ValidationWitnesses.{plain_host, packs, tools, request, remove_plan, planned}
use cliharbor.Tests.DiscoveryWitnesses.{files}

no_nul_arguments : all no_nul remove_plan.args ≡ true
unfolding contains_byte
no_nul_arguments = refl

build-validate_plan_example : validate_plan plain_host remove_plan ≡ ok tt
build-validate_plan_example =
    build-validate_plan plain_host ascii_go (some packs) tools request planned refl refl
      no_nul_arguments

abbrev script : Script
script = record {
  new_run_id = some (lit "r");
  ended_before = none;
  makes_dir = true;
  controls = true;
  configures = true;
  starts = true;
  attaches = true;
  ended_at_start = none;
  time = 1;
  started_at = 2;
  writes = record { to_stdout = true; bytes = lit "hi"; time = 3 } ∷ [];
  waited = clean_exit;
  closes = true;
  ended_at = 4;
  cancellation_applied = false;
  run_context = none;
  context = none;
}

abbrev settings : Settings
settings = record { chunk_bytes = 1; max_output = 8 }

abbrev takes_all : List Event → Event → Bool
takes_all log e = true

run-Ordered_example :
    RunLog true
      (run
        (record_into takes_all)
        plain_host
        (lit "linux")
        files
        settings
        script
        remove_plan
        []).sink
run-Ordered_example =
    run-Ordered takes_all plain_host (lit "linux") files settings script remove_plan

abbrev tree : Node
tree = node mapping_node [] (lit "!!map") [] (
    cons (node scalar_node [] (lit "!!str") (lit "a") nil)
      (cons (node scalar_node [] (lit "!!int") (lit "1") nil) nil))

accepted_tree : validate_yaml_tree ascii_go tree ≡ ok tt
unfolding validate_yaml_tree walk check_node check_key allowed_yaml_tag child_path mem_text text_eq
accepted_tree = refl

validate_yaml_tree_bounds_example : (size tree ≤ max_yaml_nodes) × (plain_from 0 tree ≡ true)
validate_yaml_tree_bounds_example = validate_yaml_tree_bounds ascii_go tree accepted_tree
