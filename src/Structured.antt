-- ===== src/Structured.antt =====
-- internal/structured/parser.go: the parser of declared JSON output. The decoder's tokens come from
-- the standard library (`Go.json_tokens`); a context is its answer at each check.
pub mod Answers
use cliharbor.Prelude.{
  ℕ, suc, Bool, true, not, ◌&&◌, ◌||◌, Option, none, some, List, [], ◌∷◌, length, ltb, ◌==◌,
  if◌then◌else◌, is_some,
}
use cliharbor.Prelude.Result.{Result, ok, err, ◌>>=◌, ◌>>◌, fail_if}
use cliharbor.Prelude.Text.{Text, lit, is_empty}
use cliharbor.Prelude.Dict.{Dict, lookup, insert}
use cliharbor.Go.{
  Go, Token, open_brace, close_brace, close_bracket, broken_token, text_token, number_token,
  bool_token,
}
use cliharbor.Packs.{
  StructuredOutput, StructuredField, StructuredFieldType, structured_string, structured_integer,
  structured_boolean,
}
use cliharbor.Planner.Values.{bool_text}

abbrev pub max_input_bytes : ℕ
max_input_bytes = 65536

abbrev pub max_string_bytes : ℕ
max_string_bytes = 8192

abbrev pub max_fields : ℕ
max_fields = 32

pub data Status : Type 0 where
  available invalid unavailable : Status

pub data ErrorCode : Type 0 where
  invalid_encoding output_too_large malformed_json unexpected_schema duplicate_key : ErrorCode
  unexpected_field missing_field wrong_type invalid_integer string_too_large : ErrorCode
  unsafe_control parser_cancelled nonzero_exit run_cancelled run_timed_out : ErrorCode
  execution_failed sensitive_output : ErrorCode

pub record Field : Type 0 where
  pub key : Text
  pub label : Text
  pub kind : StructuredFieldType
  pub present : Bool
  pub value : Text

pub record Outcome : Type 0 where
  pub status : Status
  pub renderer : Text
  pub error : Option ErrorCode
  pub fields : List Field

unfoldable pub normalize_renderer : Text → Text
normalize_renderer r = if is_empty r then lit "cards" else r

unfoldable pub unavailable_outcome : Text → ErrorCode → Outcome
unavailable_outcome r c = record {
  status = unavailable;
  renderer = normalize_renderer r;
  error = some c;
  fields = [];
}

unfoldable pub invalid_outcome : Text → ErrorCode → Outcome
invalid_outcome r c = record {
  status = invalid;
  renderer = normalize_renderer r;
  error = some c;
  fields = [];
}

-- Which of the two an early return gives.
pub data Refusal : Type 0 where
  refused_invalid refused_unavailable : ErrorCode → Refusal

unfoldable pub to_outcome : Text → Result Refusal (List Field) → Outcome
to_outcome r (ok fields) = record {
  status = available;
  renderer = normalize_renderer r;
  error = none;
  fields = fields;
}
to_outcome r (err (refused_invalid c)) = invalid_outcome r c
to_outcome r (err (refused_unavailable c)) = unavailable_outcome r c

abbrev bad : ErrorCode → Result Refusal (Unit {0})
bad c = err (refused_invalid c)

-- The loop that fills `declared`.
unfoldable pub declare_fields :
    List StructuredField → Dict StructuredField → Result Refusal (Dict StructuredField)
declare_fields [] declared = ok declared
declare_fields (f ∷ rest) declared =
    let next = declare_fields rest (insert f.key f declared) in
    if f.sensitive
    then err (refused_unavailable sensitive_output)
    else if is_some (lookup f.key declared)
    then err (refused_invalid unexpected_schema)
    else next

abbrev safe_value_runes : Go → List ℕ → Bool
safe_value_runes go [] = true
safe_value_runes go (r ∷ rs) =
    not (go.is_control r && not (r == 9 || (r == 10 || r == 13))) && safe_value_runes go rs

parse_string : Go → Text → Result Refusal Text
parse_string go t = do
  fail_if (ltb max_string_bytes (length t)) (refused_invalid string_too_large)
  fail_if (not (safe_value_runes go (go.runes t))) (refused_invalid unsafe_control)
  ok t

-- `parseValue`: the value's token against the declared type.
unfoldable pub parse_token : Go → StructuredFieldType → Token → Result Refusal Text
unfolding parse_string
parse_token go kind broken_token = err (refused_invalid malformed_json)
parse_token go structured_string (text_token t) = parse_string go t
parse_token go structured_integer (number_token (some n)) = ok (go.format_int n)
parse_token go structured_integer (number_token none) = err (refused_invalid invalid_integer)
parse_token go structured_boolean (bool_token b) = ok (bool_text b)
parse_token go kind token = err (refused_invalid wrong_type)

-- One member of the object, entered in `seen`.
unfoldable pub parse_member :
    Go → Dict StructuredField → Dict Text → Text → List Token → Result Refusal (Dict Text)
unfolding parse_token
parse_member go declared seen key after =
    if is_some (lookup key seen)
    then err (refused_invalid duplicate_key)
    else elim (lookup key declared) [
      | none ↦ err (refused_invalid unexpected_field)
      | some f ↦ elim after [
        | [] ↦ err (refused_invalid malformed_json)
        | value ∷ rest ↦ (do v ← parse_token go f.kind value; ok (insert key v seen))
      ]
    ]

-- Behind the closing brace there is nothing.
abbrev at_end : List Token → Dict Text → Result Refusal (Dict Text)
at_end [] seen = ok seen
at_end (t ∷ ts) seen = err (refused_invalid malformed_json)

-- The loop `for decoder.More()` and the closing brace; `i` counts the checks of the context.
unfoldable pub parse_members :
    Go → (ℕ → Bool) → ℕ → Dict StructuredField → Dict Text → List Token → Result Refusal (Dict Text)
parse_members go cancelled i declared seen [] = err (refused_invalid malformed_json)
parse_members go cancelled i declared seen (close_brace ∷ rest) = at_end rest seen
parse_members go cancelled i declared seen (text_token key ∷ []) =
    if cancelled i
    then err (refused_unavailable parser_cancelled)
    else parse_member go declared seen key [] >>= λ s. err (refused_invalid malformed_json)
parse_members go cancelled i declared seen (text_token key ∷ value ∷ rest) =
    let members = parse_member go declared seen key (value ∷ []) >>= λ s.
    parse_members go cancelled (suc i) declared s rest in
    if cancelled i then err (refused_unavailable parser_cancelled) else members
parse_members go cancelled i declared seen (close_bracket ∷ rest) =
    err (refused_invalid malformed_json)
parse_members go cancelled i declared seen (token ∷ rest) =
    if cancelled i
    then err (refused_unavailable parser_cancelled)
    else err (refused_invalid malformed_json)

abbrev pub parse_object :
    Go → (ℕ → Bool) → Dict StructuredField → List Token → Result Refusal (Dict Text)
parse_object go cancelled declared [] = err (refused_invalid malformed_json)
parse_object go cancelled declared (open_brace ∷ rest) =
    parse_members go cancelled 1 declared [] rest
parse_object go cancelled declared (broken_token ∷ rest) = err (refused_invalid malformed_json)
parse_object go cancelled declared (token ∷ rest) = err (refused_invalid unexpected_schema)

abbrev value_or_empty : Option Text → Text
value_or_empty none = []
value_or_empty (some v) = v

-- The final loop over the declared fields.
unfoldable pub collect_fields : List StructuredField → Dict Text → Result Refusal (List Field)
collect_fields [] seen = ok []
collect_fields (f ∷ rest) seen =
    let found = lookup f.key seen in
    let fields = collect_fields rest seen >>= λ more. ok (
      record {
        key = f.key;
        label = f.label;
        kind = f.kind;
        present = is_some found;
        value = value_or_empty found;
      }
      ∷ more) in
    if f.required && not (is_some found) then err (refused_invalid missing_field) else fields

unfoldable pub parse_fields :
    Go → (ℕ → Bool) → Text → StructuredOutput → Result Refusal (List Field)
parse_fields go cancelled input spec = do
  fail_if (cancelled 0) (refused_unavailable parser_cancelled)
  fail_if (ltb max_input_bytes (length input)) (refused_invalid output_too_large)
  fail_if (not (go.valid_utf8 input)) (refused_invalid invalid_encoding)
  fail_if (length spec.fields == 0 || ltb max_fields (length spec.fields))
      (refused_invalid unexpected_schema)
  declared ← declare_fields spec.fields []
  seen ← parse_object go cancelled declared (go.json_tokens input)
  collect_fields spec.fields seen

unfoldable pub parse : Go → (ℕ → Bool) → Text → StructuredOutput → Text → Outcome
unfolding parse_fields
parse go cancelled input spec renderer = to_outcome renderer (parse_fields go cancelled input spec)
