-- ===== src/Tests/StructuredWitness.antt =====
-- internal/structured/parser.go: an object with the one declared field.
use cliharbor.Prelude.{◌≤◌, ◌≡◌, refl, true, false, [], ◌∷◌, length}
use cliharbor.Prelude.Text.{Text, lit, text_eq}
use cliharbor.Prelude.Dict.{lookup, insert}
use cliharbor.Go.{Go, open_brace, close_brace, text_token}
use cliharbor.Packs.{StructuredOutput, structured_string}
use cliharbor.Structured.{
  available, max_input_bytes, parse, parse_fields, to_outcome, declare_fields, collect_fields,
  parse_token, parse_members, parse_member,
}
use cliharbor.Structured.Answers.{Answers, NoneSensitive, parse-Answers}
use cliharbor.Tests.Data.{ascii_go}

abbrev spec : StructuredOutput
spec = record {
  fields =
      record {
        key = lit "name";
        label = lit "Name";
        kind = structured_string;
        required = true;
        sensitive = false;
      }
      ∷ [];
}

-- The decoder's tokens of the input below.
abbrev decoder : Go
decoder = record ascii_go {
  json_tokens =
      λ t. open_brace ∷ text_token (lit "name") ∷ text_token (lit "main") ∷ close_brace ∷ [];
}

abbrev input : Text
input = lit "{\"name\":\"main\"}"

parsed : (parse decoder (λ i. false) input spec []).status ≡ available
unfolding parse parse_fields to_outcome declare_fields collect_fields parse_token parse_members
    parse_member lookup insert text_eq
parsed = refl

parse-Answers_example :
    Answers spec.fields (parse decoder (λ i. false) input spec []).fields
    × NoneSensitive spec.fields
    × (length input ≤ max_input_bytes)
parse-Answers_example = parse-Answers decoder (λ i. false) input spec [] parsed
