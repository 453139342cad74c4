-- ===== src/Packs/Validation/Templates.antt =====
-- internal/packs/validation.go: `validateStdin`. The placeholders are the matches of the one regular
-- expression by which the planner renders them.
use cliharbor.Prelude.{
  ℕ, ◌+◌, Bool, true, false, not, ◌&&◌, ◌||◌, Option, none, some, List, [], ◌∷◌, ◌++◌, length, ltb,
  leb, ◌==◌, if◌then◌else◌,
}
use cliharbor.Prelude.Result.{ok, err, ◌>>=◌, ◌>>◌, fail_if, or_fail}
use cliharbor.Prelude.Text.{Text, lit, is_empty}
use cliharbor.Prelude.Dict.{Dict, lookup}
use cliharbor.Prelude.Loop.{each}
use cliharbor.Go.{Go, Piece, plain, matched}
use cliharbor.Packs.{
  Command, Stdin, Input, InputType, Risk, string_input, integer_input, boolean_input, enum_input,
  other_input, multiselect_input, secret_input,
}
use cliharbor.Packs.Validation.{Checked, semantic_at}
use cliharbor.Prelude.Strings.{contains_byte}
use cliharbor.Planner.Argv.{placeholder_id}

abbrev max_template_bytes : ℕ
max_template_bytes = 8192

abbrev pub is_secret : InputType → Bool
is_secret secret_input = true
is_secret _ = false

unfoldable pub count_secrets : List Input → ℕ
count_secrets [] = 0
count_secrets (i ∷ rest) = (if is_secret i.kind then 1 else 0) + count_secrets rest

-- `strings.Contains(t, pattern)` for a pattern of two equal bytes.
unfoldable pub has_pair : ℕ → Text → Bool
has_pair b [] = false
has_pair b (c ∷ []) = false
has_pair b (c ∷ d ∷ rest) = ((c == b) && (d == b)) || has_pair b (d ∷ rest)

-- `ReplaceAllString(template, "")`
unfoldable pub remainder : List Piece → Text
remainder [] = []
remainder (plain t ∷ rest) = t ++ remainder rest
remainder (matched t ∷ rest) = remainder rest

abbrev is_plain_byte : ℕ → Bool
is_plain_byte c =
    (leb b'A' c && leb c b'Z')
    || ((leb b'a' c && leb c b'z')
        || ((leb b'0' c && leb c b'9') || (c == b'_' || (c == b',' || c == b' '))))

abbrev all_plain : Text → Bool
all_plain [] = true
all_plain (c ∷ cs) = is_plain_byte c && all_plain cs

-- `^[A-Za-z0-9_, ]+$`
abbrev is_plain_word : Text → Bool
is_plain_word [] = false
is_plain_word (c ∷ cs) = all_plain (c ∷ cs)

-- The `switch` over the type of a placeholder's input.
unfoldable pub validate_placeholder_kind : InputType → List Text → Text → Checked
validate_placeholder_kind string_input allowed path = ok tt
validate_placeholder_kind integer_input allowed path = ok tt
validate_placeholder_kind enum_input allowed path =
    each (λ value. fail_if (not (is_plain_word value)) (semantic_at path)) allowed
validate_placeholder_kind boolean_input allowed path = err (semantic_at path)
validate_placeholder_kind multiselect_input allowed path = err (semantic_at path)
validate_placeholder_kind secret_input allowed path = err (semantic_at path)
validate_placeholder_kind (other_input t) allowed path = err (semantic_at path)

unfoldable pub validate_placeholder : Dict Input → Text → Text → Checked
validate_placeholder inputs id path = do
  input ← or_fail (lookup id inputs) (semantic_at path)
  fail_if (not input.required) (semantic_at path)
  validate_placeholder_kind input.kind input.validation.allowed path

unfoldable pub validate_pieces : Dict Input → List Piece → Text → Checked
validate_pieces inputs [] path = ok tt
validate_pieces inputs (plain t ∷ rest) path = validate_pieces inputs rest path
validate_pieces inputs (matched p ∷ rest) path =
    validate_placeholder inputs (placeholder_id p) path >>= λ _. validate_pieces inputs rest path

unfoldable pub validate_template : Go → ℕ → Text → Dict Input → Text → Checked
validate_template go secrets template inputs path = do
  fail_if (not (secrets == 0)) (semantic_at path)
  fail_if (ltb max_template_bytes (length template) || contains_byte template 0) (semantic_at path)
  let pieces = go.split_placeholders template
  fail_if (has_pair b'{' (remainder pieces) || has_pair b'}' (remainder pieces)) (semantic_at path)
  validate_pieces inputs pieces path

abbrev pub is_only_secret : Option Input → ℕ → Bool
is_only_secret none secrets = false
is_only_secret (some input) secrets = is_secret input.kind && secrets == 1

abbrev may_change : Risk → Bool
may_change Risk.change = true
may_change Risk.destructive = true
may_change Risk.read = false
may_change Risk.credential_sensitive = false
may_change Risk.interactive = false

unfoldable pub validate_stdin_of : Go → Risk → ℕ → Stdin → Dict Input → Text → Checked
validate_stdin_of go risk secrets s inputs path =
    if not (may_change risk)
    then err (semantic_at path)
    else if not (is_empty s.input) && is_empty s.yaml_template
    then fail_if (not (is_only_secret (lookup s.input inputs) secrets))
        (semantic_at (path ++ lit ".input"))
    else if not (is_empty s.yaml_template) && is_empty s.input
    then validate_template go secrets s.yaml_template inputs (path ++ lit ".yamlTemplate")
    else err (semantic_at path)

unfoldable pub validate_stdin : Go → Command → Dict Input → Text → Checked
validate_stdin go c inputs path = elim c.stdin [
  | none ↦ fail_if (not (count_secrets c.inputs == 0)) (semantic_at (path ++ lit ".stdin"))
  | some s ↦ validate_stdin_of go c.risk (count_secrets c.inputs) s inputs (path ++ lit ".stdin")
]
