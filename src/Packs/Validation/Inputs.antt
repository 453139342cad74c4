-- ===== src/Packs/Validation/Inputs.antt =====
-- internal/packs/validation.go: `validateInput`.
use cliharbor.Prelude.{
  Bool, true, false, not, ◌&&◌, ◌||◌, Option, some, List, [], ◌∷◌, ◌++◌, is_some, is_none,
}
use cliharbor.Prelude.Int.{ℤ, ltb_ℤ}
use cliharbor.Prelude.Result.{err, ◌>>◌, fail_if}
use cliharbor.Prelude.Text.{Text, lit, is_empty}
use cliharbor.Host.{Host}
use cliharbor.Packs.{
  Input, InputType, InputValidation, string_input, integer_input, boolean_input, enum_input,
  other_input, multiselect_input, secret_input,
}
use cliharbor.Packs.Validation.{Checked, semantic_at}

abbrev pub exceeds : Option ℤ → Option ℤ → Bool
exceeds (some low) (some high) = ltb_ℤ high low
exceeds _ _ = false

abbrev no_texts : List Text → Bool
no_texts [] = true
no_texts (t ∷ ts) = false

-- The `switch` over the type.
unfoldable pub validate_kind : InputType → Bool → InputValidation → Text → Checked
validate_kind multiselect_input required v path = err (semantic_at (path ++ lit ".type"))
validate_kind enum_input required v path =
    fail_if (no_texts v.allowed) (semantic_at (path ++ lit ".validation.enum"))
validate_kind string_input required v path = do
  fail_if (not (no_texts v.allowed)) (semantic_at (path ++ lit ".validation.enum"))
  fail_if (is_some v.min || is_some v.max) (semantic_at (path ++ lit ".validation"))
validate_kind secret_input required v path = do
  fail_if (not required || is_none v.max_length) (semantic_at path)
  fail_if (not (no_texts v.allowed) || (is_some v.min || is_some v.max))
      (semantic_at (path ++ lit ".validation"))
validate_kind integer_input required v path =
    fail_if
      (not (no_texts v.allowed)
        || (is_some v.min_length || (is_some v.max_length || not (is_empty v.pattern))))
      (semantic_at (path ++ lit ".validation"))
validate_kind boolean_input required v path =
    fail_if
      (is_some v.min
        || (is_some v.max
            || (is_some v.min_length
                || (is_some v.max_length
                    || (not (is_empty v.pattern)
                        || (not (no_texts v.allowed) || v.disallow_leading_dash))))))
      (semantic_at (path ++ lit ".validation"))
validate_kind (other_input t) required v path = err (semantic_at (path ++ lit ".type"))

unfoldable pub validate_input : Host → Input → Text → Checked
validate_input host input path = do
  fail_if (exceeds input.validation.min input.validation.max)
      (semantic_at (path ++ lit ".validation"))
  fail_if (exceeds input.validation.min_length input.validation.max_length)
      (semantic_at (path ++ lit ".validation"))
  fail_if (not (is_empty input.validation.pattern) && not (host.compiles input.validation.pattern))
      (semantic_at (path ++ lit ".validation.pattern"))
  validate_kind input.kind input.required input.validation path
