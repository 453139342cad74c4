-- ===== src/Packs/Validation/Impacts.antt =====
-- internal/packs/validation.go: `validateImpact`. A rune below 32, or 127, is the byte of that value.
use cliharbor.Prelude.{Bool, true, false, not, ◌||◌, [], ◌∷◌, ◌++◌, ◌==◌, leb}
use cliharbor.Prelude.Result.{◌>>=◌, ◌>>◌, fail_if, or_fail}
use cliharbor.Prelude.Text.{Text, lit, is_empty}
use cliharbor.Prelude.Dict.{Dict, lookup}
use cliharbor.Go.{Go, is_trimmed}
use cliharbor.Packs.{Impact, ImpactScope, Input, other_scope}
use cliharbor.Packs.Validation.{Checked, semantic_at}
use cliharbor.Packs.Validation.Arguments.{is_scalar}

abbrev pub has_control : Text → Bool
has_control [] = false
has_control (b ∷ bs) = (leb b 31 || b == 127) || has_control bs

unfoldable pub validate_label : Go → Text → Text → Checked
validate_label go value path = do
  fail_if (not (is_trimmed go value) || is_empty value) (semantic_at path)
  fail_if (has_control value) (semantic_at path)

abbrev pub is_known_scope : ImpactScope → Bool
is_known_scope (other_scope t) = false
is_known_scope _ = true

unfoldable pub validate_impact : Go → Impact → Dict Input → Text → Checked
unfolding validate_label
validate_impact go impact inputs path = do
  input ← or_fail (lookup impact.target_input inputs) (semantic_at (path ++ lit ".targetInput"))
  fail_if (not input.required) (semantic_at (path ++ lit ".targetInput"))
  fail_if (not (is_scalar input.kind)) (semantic_at (path ++ lit ".targetInput"))
  fail_if (not (is_known_scope impact.scope)) (semantic_at (path ++ lit ".scope"))
  validate_label go impact.target_label (path ++ lit ".targetLabel")
  validate_label go impact.effect (path ++ lit ".effect")
