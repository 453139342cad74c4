-- ===== src/Planner/Build.antt =====
-- internal/planner/planner.go: `Build`.
use cliharbor.Prelude.{
  Bool, true, false, not, ◌&&◌, ◌||◌, Option, none, some, List, [], ◌∷◌, if◌then◌else◌, is_some,
}
use cliharbor.Prelude.Result.{Result, ok, err, ◌>>=◌, ◌>>◌, fail_if, or_fail}
use cliharbor.Prelude.Text.{Text, lit, text_eq, is_empty}
use cliharbor.Prelude.Sort.{sort_texts}
use cliharbor.Prelude.Dict.{Dict, lookup, insert}
use cliharbor.Go.{Go}
use cliharbor.Packs.{
  Risk, read, change, destructive, credential_sensitive, interactive, AuthMode, unset,
  vendor_session, Input, Command, LoadedPack, Stdin,
}
use cliharbor.Packs.Registry.{Registry, find_pack, find_command}
use cliharbor.Discovery.{Snapshot, ToolState, Status, is_ready, is_valid}
use cliharbor.Discovery
use cliharbor.Planner.{
  PlanError, unknown_pack, unknown_command, tool_unavailable, stale_discovery, unknown_input,
  missing_input, risk_policy, auth_policy, output_policy, invalid_plan_state, Request, Plan, Value,
}
use cliharbor.Planner.Values.{at, absent, value_path, declares, parse_value}
use cliharbor.Planner.Argv.{render_argv, render_stdin, derive_mutation_impact}

abbrev pub is_vendor_session : AuthMode → Bool
is_vendor_session vendor_session = true
is_vendor_session unset = false

-- The risk classes that a plan may have; a mutation carries trusted impact metadata.
unfoldable pub check_risk : Risk → Bool → Result PlanError (Unit {0})
check_risk read has_impact = ok tt
check_risk change has_impact = fail_if (not has_impact) (at invalid_plan_state (lit "commandId"))
check_risk destructive has_impact =
    fail_if (not has_impact) (at invalid_plan_state (lit "commandId"))
check_risk credential_sensitive has_impact = err (at risk_policy (lit "commandId"))
check_risk interactive has_impact = err (at risk_policy (lit "commandId"))

unfoldable pub check_policy : Command → Result PlanError (Unit {0})
unfolding check_risk
check_policy c = do
  check_risk c.risk (is_some c.impact)
  fail_if (c.requirements.requires_auth && not (is_vendor_session c.requirements.auth_mode))
      (at auth_policy (lit "commandId"))
  fail_if c.output.sensitivity.contains_secrets (at output_policy (lit "commandId"))

unfoldable pub check_tool : Snapshot → Text → Text → LoadedPack → Result PlanError ToolState
check_tool snapshot pack_id tool_id loaded = do
  state ← or_fail (Discovery.find snapshot pack_id tool_id) (at tool_unavailable (lit "tool"))
  fail_if (not (text_eq state.pack_version loaded.pack.metadata.version))
      (at stale_discovery (lit "tool"))
  fail_if (not (is_ready state.status) || is_empty state.path) (at tool_unavailable (lit "tool"))
  fail_if (not (is_valid state.identity)) (at stale_discovery (lit "tool"))
  ok state

-- The identifiers of the request that the command does not declare.
unfoldable pub unknown_inputs : List Input → Dict Text → List Text
unknown_inputs inputs [] = []
unknown_inputs inputs ((id, raw) ∷ rest) =
    if declares inputs id then unknown_inputs inputs rest else id ∷ unknown_inputs inputs rest

abbrev refuse_unknown : List Text → Result PlanError (Unit {0})
refuse_unknown [] = ok tt
refuse_unknown (id ∷ _) = err (at unknown_input (value_path id))

unfoldable pub check_unknown : List Input → Dict Text → Result PlanError (Unit {0})
unfolding unknown_inputs sort_texts
check_unknown inputs values = refuse_unknown (sort_texts (unknown_inputs inputs values))

unfoldable pub parse_input : Go → Dict Text → Input → Result PlanError Value
parse_input go given input = elim (lookup input.id given) [
  | none ↦ if input.required then err (at missing_input (value_path input.id)) else ok absent
  | some raw ↦ parse_value go input raw
]

-- The loop over the declared inputs, with the values parsed so far.
unfoldable pub parse_inputs :
    Go → Dict Text → List Input → Dict Value → Result PlanError (Dict Value)
parse_inputs go given [] values = ok values
parse_inputs go given (input ∷ rest) values =
    parse_input go given input >>= λ v. parse_inputs go given rest (insert input.id v values)

abbrev reads_secret : Option Stdin → Bool
reads_secret none = false
reads_secret (some s) = not (is_empty s.input)

unfoldable pub build : Go → Option Registry → Snapshot → Request → Result PlanError Plan
build go registry snapshot request = do
  reg ← or_fail registry (at invalid_plan_state [])
  loaded ← or_fail (find_pack reg request.pack_id) (at unknown_pack (lit "packId"))
  command ←
      or_fail (find_command reg request.pack_id request.command_id)
        (at unknown_command (lit "commandId"))
  check_policy command
  state ← check_tool snapshot request.pack_id command.tool loaded
  check_unknown command.inputs request.values
  values ← parse_inputs go request.values command.inputs []
  impact ← derive_mutation_impact go command values
  args ← render_argv go request.command_id values 0 command.argv []
  stdin ← render_stdin go command values
  ok (record {
    pack_id = request.pack_id;
    pack_version = loaded.pack.metadata.version;
    command_id = request.command_id;
    tool_id = command.tool;
    executable_path = state.path;
    executable_name = state.executable_name;
    identity = state.identity;
    tool_version = state.version;
    args = args;
    stdin = stdin;
    stdin_sensitive = reads_secret command.stdin;
    risk = command.risk;
    impact = impact;
    output = command.output;
    requirements = command.requirements;
  })
