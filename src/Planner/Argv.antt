-- ===== src/Planner/Argv.antt =====
-- internal/planner/planner.go: the loop over `command.Argv`, `renderStdin` and
-- `deriveMutationImpact`.
use cliharbor.Prelude.{
  ℕ, suc, ◌-◌, Bool, false, not, ◌&&◌, ◌||◌, Option, none, some, List, [], ◌∷◌, ◌++◌, length, take,
  drop, if◌then◌else◌,
}
use cliharbor.Prelude.Int.{pos}
use cliharbor.Prelude.Result.{Result, ok, err, ◌>>=◌, ◌>>◌, fail_if, or_fail}
use cliharbor.Prelude.Text.{Text, lit, text_eq, is_empty}
use cliharbor.Prelude.Dict.{Dict, lookup}
use cliharbor.Go.{Go, Piece, plain, matched, is_trimmed, safe_runes}
use cliharbor.Packs.{
  is_enum, Argument, FlagArgument, PositionalArgument, SwitchArgument, MapArgument, Input, Command,
  Impact, Stdin,
}
use cliharbor.Planner.{PlanError, invalid_input, invalid_plan_state, MutationImpact, Value}
use cliharbor.Planner.Values.{at, value_path, declares}

abbrev pub is_omitted : Value → Bool → Bool
is_omitted v omit_when_empty = not v.present || (omit_when_empty && is_empty v.argument)

unfoldable pub render_flag : Dict Value → FlagArgument → Text → Result PlanError (List Text)
render_flag values f path = do
  current ← or_fail (lookup f.value_from values) (at invalid_plan_state path)
  ok (if is_omitted current f.omit_when_empty then [] else f.name ∷ current.argument ∷ [])

unfoldable pub render_positional :
    Dict Value → PositionalArgument → Text → Result PlanError (List Text)
render_positional values p path = do
  current ← or_fail (lookup p.value_from values) (at invalid_plan_state path)
  ok (if is_omitted current p.omit_when_empty then [] else current.argument ∷ [])

unfoldable pub render_switch : Dict Value → SwitchArgument → Text → Result PlanError (List Text)
render_switch values s path = do
  current ← or_fail (lookup s.enabled_from values) (at invalid_plan_state path)
  ok (if current.present && current.boolean then s.name ∷ [] else [])

unfoldable pub render_map : Dict Value → MapArgument → Text → Result PlanError (List Text)
render_map values m path = do
  current ← or_fail (lookup m.value_from values) (at invalid_plan_state path)
  fail_if (not current.present) (at invalid_plan_state path)
  literal ← or_fail (lookup current.text m.values) (at invalid_plan_state path)
  ok (literal ∷ [])

-- The elements that one declared argument adds to the command line.
unfoldable pub render_argument : Dict Value → Argument → Text → Result PlanError (List Text)
unfolding render_flag render_positional render_switch render_map
render_argument values a path =
    if not (is_empty a.literal) then ok (a.literal ∷ []) else elim a.flag [
      | some f ↦ render_flag values f path
      | none ↦ elim a.positional [
        | some p ↦ render_positional values p path
        | none ↦ elim a.switch [
          | some s ↦ render_switch values s path
          | none ↦ elim a.mapped [
            | some m ↦ render_map values m path
            | none ↦ err (at invalid_plan_state path)
          ]
        ]
      ]
    ]

abbrev pub argv_path : Go → Text → ℕ → Text
argv_path go command_id index =
    lit "commands." ++ (command_id ++ (lit ".argv[" ++ (go.format_int (pos index) ++ lit "]")))

-- The loop, with the elements appended so far.
unfoldable pub render_argv :
    Go → Text → Dict Value → ℕ → List Argument → List Text → Result PlanError (List Text)
render_argv go command_id values index [] args = ok args
render_argv go command_id values index (a ∷ rest) args =
    render_argument values a (argv_path go command_id index) >>= λ more.
    render_argv go command_id values (suc index) rest (args ++ more)

-- The identifier between the two braces on each side of a placeholder.
abbrev pub placeholder_id : Text → Text
placeholder_id p = take (length p - 4) (drop 2 p)

-- The type of a declared input; a later declaration of the same identifier wins, as in the map.
input_is_enum : Text → List Input → Bool
input_is_enum id [] = false
input_is_enum id (i ∷ rest) =
    let later = input_is_enum id rest in
    if text_eq i.id id && not (declares rest id) then is_enum i.kind else later

unfoldable pub render_placeholder : Go → List Input → Dict Value → Text → Result PlanError Text
unfolding input_is_enum
render_placeholder go inputs values p = do
  current ← or_fail (lookup (placeholder_id p) values) (at invalid_plan_state (lit "commandId"))
  fail_if (not current.present) (at invalid_plan_state (lit "commandId"))
  ok (
      if input_is_enum (placeholder_id p) inputs
      then current.text
      else go.json_quote current.argument)

unfoldable pub render_pieces : Go → List Input → Dict Value → List Piece → Result PlanError Text
unfolding render_placeholder
render_pieces go inputs values [] = ok []
render_pieces go inputs values (plain t ∷ rest) = do
  after ← render_pieces go inputs values rest
  ok (t ++ after)
render_pieces go inputs values (matched p ∷ rest) = do
  here ← render_placeholder go inputs values p
  after ← render_pieces go inputs values rest
  ok (here ++ after)

unfoldable pub render_stdin_of : Go → List Input → Dict Value → Stdin → Result PlanError Text
unfolding render_pieces
render_stdin_of go inputs values s =
    if is_empty s.input
    then render_pieces go inputs values (go.split_placeholders s.yaml_template)
    else (do
      current ← or_fail (lookup s.input values) (at invalid_plan_state (lit "commandId"))
      fail_if (not current.present) (at invalid_plan_state (lit "commandId"))
      ok current.text)

unfoldable pub render_stdin : Go → Command → Dict Value → Result PlanError Text
unfolding render_stdin_of
render_stdin go command values = elim command.stdin [
  | none ↦ ok []
  | some s ↦ render_stdin_of go command.inputs values s
]

-- The target of a mutation: present, not empty, and safe to show to the operator.
unfoldable pub derive_target : Go → Impact → Dict Value → Result PlanError Text
derive_target go impact values = do
  current ← or_fail (lookup impact.target_input values) (at invalid_plan_state (lit "commandId"))
  fail_if (not current.present || is_empty current.argument)
      (at invalid_plan_state (lit "commandId"))
  fail_if (not (go.valid_utf8 current.argument) || not (is_trimmed go current.argument))
      (at invalid_input (value_path impact.target_input))
  fail_if (not (safe_runes go current.argument)) (at invalid_input (value_path impact.target_input))
  ok current.argument

unfoldable pub derive_impact :
    Go → Option Impact → Dict Value → Result PlanError (Option MutationImpact)
unfolding derive_target
derive_impact go none values = ok none
derive_impact go (some impact) values = do
  target ← derive_target go impact values
  ok (
      some (record {
        target_label = impact.target_label;
        target = target;
        effect = impact.effect;
        scope = impact.scope;
      }))

unfoldable pub derive_mutation_impact :
    Go → Command → Dict Value → Result PlanError (Option MutationImpact)
unfolding derive_impact
derive_mutation_impact go command values = derive_impact go command.impact values
