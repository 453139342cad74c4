-- ===== src/Go.antt =====
-- What the code calls in Go's standard library: Unicode tables, JSON decoding, regular expressions
-- and number formatting. Nothing is assumed of these functions but what a theorem names.
use cliharbor.Prelude.{ℕ, Bool, true, ◌&&◌, ◌||◌, not, Option, List, [], ◌∷◌, ◌==◌}
use cliharbor.Prelude.Int.{ℤ}
use cliharbor.Prelude.Text.{Text, text_eq}

-- What a further `Decode` finds behind a value.
pub data JsonRest : Type 0 where
  end_of_input another_value broken : JsonRest

-- `regexp.ReplaceAllStringFunc` sees a text as the matches of the pattern and the text between.
pub data Piece : Type 0 where
  plain : Text → Piece
  matched : Text → Piece

-- What successive calls of `json.Decoder.Token` with `UseNumber` give: `broken_token` is a syntax
-- error, and the end of the list is the end of the input. A number carries its `Int64`, if any.
pub data Token : Type 0 where
  open_brace close_brace open_bracket close_bracket null_token broken_token : Token
  text_token : Text → Token
  number_token : Option ℤ → Token
  bool_token : Bool → Token

pub record Go : Type 0 where
  pub valid_utf8 : Text → Bool
  pub trim_space : Text → Text
  pub runes : Text → List ℕ
  pub is_control : ℕ → Bool
  pub is_format : ℕ → Bool
  pub decode_string : Text → Option (Text × Text)
  pub decode_int64 : Text → Option (ℤ × Text)
  pub decode_bool : Text → Option (Bool × Text)
  -- `none` inside is a nil slice, from `null`.
  pub decode_strings : Text → Option (Option (List Text) × Text)
  pub json_rest : Text → JsonRest
  pub json_tokens : Text → List Token
  pub json_quote : Text → Text
  pub format_int : ℤ → Text
  -- `none` is a pattern that does not compile.
  pub match_pattern : Text → Text → Option Bool
  pub split_placeholders : Text → List Piece

-- U+2028 and U+2029 separate lines.
abbrev is_unsafe_rune : Go → ℕ → Bool
is_unsafe_rune go r = go.is_control r || (go.is_format r || (r == 0x2028 || r == 0x2029))

abbrev no_unsafe_rune : Go → List ℕ → Bool
no_unsafe_rune go [] = true
no_unsafe_rune go (r ∷ rs) = not (is_unsafe_rune go r) && no_unsafe_rune go rs

-- The loop over the runes of a text that both the planner and the approval code run.
unfoldable pub safe_runes : Go → Text → Bool
safe_runes go t = no_unsafe_rune go (go.runes t)

-- `strings.TrimSpace(t) == t`
unfoldable pub is_trimmed : Go → Text → Bool
is_trimmed go t = text_eq (go.trim_space t) t
