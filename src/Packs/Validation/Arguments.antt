-- ===== src/Packs/Validation/Arguments.antt =====
-- internal/packs/validation.go: `validateArgument`.
use cliharbor.Prelude.{
  Bool, true, false, not, ◌&&◌, ◌||◌, Option, none, some, List, [], ◌∷◌, ◌++◌, length, ◌==◌,
  if◌then◌else◌,
}
use cliharbor.Prelude.Result.{ok, err, ◌>>=◌, ◌>>◌, fail_if, or_fail}
use cliharbor.Prelude.Text.{Text, lit, is_empty}
use cliharbor.Prelude.Dict.{Dict, lookup}
use cliharbor.Prelude.Loop.{each}
use cliharbor.Prelude.Sort.{mem_text}
use cliharbor.Prelude.Strings.{has_prefix, contains_byte}
use cliharbor.Prelude.Cover.{distinct_texts}
use cliharbor.Packs.{
  is_enum, Argument, Input, InputType, string_input, integer_input, boolean_input, enum_input,
  other_input, multiselect_input, secret_input,
}
use cliharbor.Packs.Validation.{Checked, semantic_at}

-- Values of these types stand on the command line.
abbrev pub is_scalar : InputType → Bool
is_scalar string_input = true
is_scalar integer_input = true
is_scalar enum_input = true
is_scalar boolean_input = false
is_scalar multiselect_input = false
is_scalar secret_input = false
is_scalar (other_input t) = false

abbrev pub is_text : InputType → Bool
is_text string_input = true
is_text enum_input = true
is_text _ = false

abbrev pub is_boolean : InputType → Bool
is_boolean boolean_input = true
is_boolean _ = false

unfoldable pub validate_dashes : InputType → List Text → Text → Checked
validate_dashes kind allowed path =
    if is_enum kind
    then each (λ value. fail_if (has_prefix value (lit "-")) (semantic_at path)) allowed
    else ok tt

-- The rules for a flag's value and for a positional argument, which differ in their paths only.
unfoldable pub validate_value : Option Input → Bool → Text → Text → Checked
unfolding validate_dashes
validate_value found omit_when_empty from_path omit_path = do
  input ← or_fail found (semantic_at from_path)
  fail_if (not (is_scalar input.kind)) (semantic_at from_path)
  fail_if (not input.required && not omit_when_empty) (semantic_at omit_path)
  fail_if (is_text input.kind && not input.validation.disallow_leading_dash) (semantic_at from_path)
  validate_dashes input.kind input.validation.allowed from_path

unfoldable pub validate_switch : Option Input → Text → Checked
validate_switch found path = do
  input ← or_fail found (semantic_at path)
  fail_if (not (is_boolean input.kind)) (semantic_at path)

unfoldable pub validate_literals : List Text → Dict Text → Text → Checked
validate_literals allowed [] path = ok tt
validate_literals allowed ((key, literal) ∷ rest) path =
    fail_if (not (mem_text key allowed)) (semantic_at path) >>= λ _.
    fail_if (is_empty literal || contains_byte literal 0) (semantic_at path) >>= λ _.
    validate_literals allowed rest path

-- `allowed` becomes a set: one literal for each of its members.
unfoldable pub validate_mapping : List Text → Dict Text → Text → Checked
validate_mapping allowed values path = do
  fail_if (not (length values == length (distinct_texts allowed))) (semantic_at path)
  validate_literals allowed values path

unfoldable pub validate_map : Option Input → Dict Text → Text → Checked
unfolding validate_mapping
validate_map found values path = do
  input ← or_fail found (semantic_at (path ++ lit ".map.valueFrom"))
  fail_if (not (is_enum input.kind)) (semantic_at (path ++ lit ".map.valueFrom"))
  fail_if (not input.required) (semantic_at (path ++ lit ".map.valueFrom"))
  validate_mapping input.validation.allowed values (path ++ lit ".map.values")

unfoldable pub validate_argument : Argument → Dict Input → Text → Checked
unfolding validate_value validate_switch validate_map
validate_argument a inputs path =
    if not (is_empty a.literal)
    then fail_if (contains_byte a.literal 0) (semantic_at (path ++ lit ".literal"))
    else elim a.flag [
      | some f ↦
          validate_value (lookup f.value_from inputs) f.omit_when_empty
            (path ++ lit ".flag.valueFrom") (path ++ lit ".flag.omitWhenEmpty")
      | none ↦ elim a.positional [
        | some p ↦
            validate_value (lookup p.value_from inputs) p.omit_when_empty
              (path ++ lit ".positional.valueFrom") (path ++ lit ".positional.omitWhenEmpty")
        | none ↦ elim a.switch [
          | some s ↦
              validate_switch (lookup s.enabled_from inputs) (path ++ lit ".switch.enabledFrom")
          | none ↦ elim a.mapped [
            | some m ↦ validate_map (lookup m.value_from inputs) m.values path
            | none ↦ err (semantic_at path)
          ]
        ]
      ]
    ]
