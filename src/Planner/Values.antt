-- ===== src/Planner/Values.antt =====
-- internal/planner/planner.go: `parseValue`, `validateString` and `strictJSON`.
use cliharbor.Prelude.{
  Bool, true, false, not, ◌&&◌, ◌||◌, Option, none, some, List, [], ◌∷◌, ◌++◌, length, ◌==◌,
  if◌then◌else◌,
}
use cliharbor.Prelude.Int.{ℤ, pos, ltb_ℤ}
use cliharbor.Prelude.Result.{Result, ok, err, ◌>>=◌, ◌>>◌, fail_if, or_fail}
use cliharbor.Prelude.Text.{Text, lit, text_eq, is_empty}
use cliharbor.Prelude.Sort.{mem_text}
use cliharbor.Go.{Go, end_of_input, another_value, broken}
use cliharbor.Packs.{
  is_enum, Input, InputType, InputValidation, string_input, integer_input, boolean_input,
  other_input, enum_input, multiselect_input, secret_input,
}
use cliharbor.Planner.{PlanError, ErrorCode, invalid_input, invalid_plan_state, Value}

abbrev pub at : ErrorCode → Text → PlanError
at c p = record { code = c; path = p }

-- One JSON value and nothing behind it.
unfoldable pub strict_json {ℓ} : {A : Type ℓ} → Go → (Text → Option (A × Text)) → Text → Option A
strict_json go decode raw = elim (decode raw) [
  | none ↦ none
  | some (a, rest) ↦ elim (go.json_rest rest) [
    | end_of_input ↦ some a
    | another_value ↦ none
    | broken ↦ none
  ]
]

unfoldable pub contains_nul : Text → Bool
contains_nul [] = false
contains_nul (b ∷ bs) = b == 0 || contains_nul bs

abbrev pub below_minimum : Option ℤ → ℤ → Bool
below_minimum none n = false
below_minimum (some low) n = ltb_ℤ n low

abbrev pub above_maximum : Option ℤ → ℤ → Bool
above_maximum none n = false
above_maximum (some high) n = ltb_ℤ high n

abbrev pub starts_with_dash : Text → Bool
starts_with_dash [] = false
starts_with_dash (b ∷ bs) = b == b'-'

unfoldable pub check_pattern : Go → Text → Text → Text → Result PlanError (Unit {0})
check_pattern go pattern text path =
    if is_empty pattern then ok tt else elim (go.match_pattern pattern text) [
      | none ↦ err (at invalid_plan_state path)
      | some m ↦ fail_if (not m) (at invalid_input path)
    ]

unfoldable pub validate_string : Go → Input → Text → Text → Result PlanError (Unit {0})
unfolding check_pattern
validate_string go input text path = do
  fail_if (contains_nul text) (at invalid_input path)
  let count = pos (length (go.runes text))
  fail_if (below_minimum input.validation.min_length count) (at invalid_input path)
  fail_if (above_maximum input.validation.max_length count) (at invalid_input path)
  check_pattern go input.validation.pattern text path
  fail_if (input.validation.disallow_leading_dash && starts_with_dash text) (at invalid_input path)
  fail_if (is_enum input.kind && not (mem_text text input.validation.allowed))
      (at invalid_input path)

abbrev pub absent : Value
absent = record { present = false; text = []; argument = []; boolean = false; many = [] }

unfoldable pub parse_text : Go → Input → Text → Text → Result PlanError Value
parse_text go input raw path = do
  text ← or_fail (strict_json go go.decode_string raw) (at invalid_input path)
  validate_string go input text path
  ok (record absent { present = true; text = text; argument = text })

unfoldable pub parse_integer : Go → InputValidation → Text → Text → Result PlanError Value
parse_integer go v raw path = do
  n ← or_fail (strict_json go go.decode_int64 raw) (at invalid_input path)
  fail_if (below_minimum v.min n) (at invalid_input path)
  fail_if (above_maximum v.max n) (at invalid_input path)
  ok (record absent { present = true; argument = go.format_int n })

abbrev pub bool_text : Bool → Text
bool_text true = lit "true"
bool_text false = lit "false"

unfoldable pub parse_boolean : Go → Text → Text → Result PlanError Value
parse_boolean go raw path = do
  b ← or_fail (strict_json go go.decode_bool raw) (at invalid_input path)
  ok (record absent { present = true; boolean = b; argument = bool_text b })

-- `declared[id]` exists.
abbrev pub declares : List Input → Text → Bool
declares [] id = false
declares (i ∷ rest) id = text_eq i.id id || declares rest id

-- The loop over the chosen items, with those seen so far.
unfoldable pub check_choices :
    List Text → List Text → List Text → Text → Result PlanError (Unit {0})
check_choices allowed seen [] path = ok tt
check_choices allowed seen (item ∷ rest) path =
    let next = check_choices allowed (item ∷ seen) rest path in
    if not (mem_text item allowed)
    then err (at invalid_input path)
    else if mem_text item seen
    then err (at invalid_input path)
    else next

unfoldable pub parse_choices : Go → InputValidation → Text → Text → Result PlanError Value
parse_choices go v raw path = do
  decoded ← or_fail (strict_json go go.decode_strings raw) (at invalid_input path)
  many ← or_fail decoded (at invalid_input path)
  check_choices v.allowed [] many path
  ok (record absent { present = true; many = many })

unfoldable pub parse_kind : Go → InputType → Input → Text → Text → Result PlanError Value
unfolding parse_text parse_integer parse_boolean parse_choices
parse_kind go string_input input raw path = parse_text go input raw path
parse_kind go enum_input input raw path = parse_text go input raw path
parse_kind go secret_input input raw path = parse_text go input raw path
parse_kind go integer_input input raw path = parse_integer go input.validation raw path
parse_kind go boolean_input input raw path = parse_boolean go raw path
parse_kind go multiselect_input input raw path = parse_choices go input.validation raw path
parse_kind go (other_input t) input raw path = err (at invalid_plan_state path)

abbrev pub value_path : Text → Text
value_path id = lit "values." ++ id

-- An empty or `null` value is refused before its type is looked at.
unfoldable pub parse_value : Go → Input → Text → Result PlanError Value
unfolding parse_kind
parse_value go input raw = do
  let trimmed = go.trim_space raw
  fail_if (is_empty trimmed || text_eq trimmed (lit "null"))
      (at invalid_input (value_path input.id))
  parse_kind go input.kind input raw (value_path input.id)
