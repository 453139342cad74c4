-- ===== src/Prelude/Strings.antt =====
-- Functions of Go's package `strings` that look at bytes only.
use Prim.Native.Nat.{ℕ, ◌-◌}
use mathlib.Core.Bool.{Bool, true, false, not, ◌&&◌, ◌||◌}
use mathlib.Core.List.{List, [], ◌∷◌}
use cliharbor.Prelude.Tests.{◌==◌, if◌then◌else◌}
use cliharbor.Prelude.Lists.{length, take, drop}
use cliharbor.Prelude.Text.{Text, text_eq}

-- `HasPrefix(t, prefix)`
unfoldable pub has_prefix : Text → Text → Bool
has_prefix t [] = true
has_prefix [] (p ∷ ps) = false
has_prefix (c ∷ t) (p ∷ ps) = (c == p) && has_prefix t ps

-- `HasSuffix(t, suffix)`
unfoldable pub has_suffix : Text → Text → Bool
has_suffix t suffix = text_eq (drop (length t - length suffix) t) suffix

unfoldable pub trim_suffix : Text → Text → Text
unfolding has_suffix
trim_suffix t suffix = if has_suffix t suffix then take (length t - length suffix) t else t

unfoldable pub contains_byte : Text → ℕ → Bool
contains_byte [] b = false
contains_byte (c ∷ t) b = (c == b) || contains_byte t b

-- `ContainsAny(t, chars)` for ASCII characters.
abbrev pub no_nul : Text → Bool
no_nul t = not (contains_byte t 0)

unfoldable pub contains_any : Text → Text → Bool
unfolding contains_byte
contains_any [] chars = false
contains_any (c ∷ t) chars = contains_byte chars c || contains_any t chars

abbrev onto_first : ℕ → List Text → List Text
onto_first c [] = (c ∷ []) ∷ []
onto_first c (t ∷ ts) = (c ∷ t) ∷ ts

-- `Split(t, sep)` for a separator of one byte; there is always one part at least.
unfoldable pub split_on : ℕ → Text → List Text
split_on sep [] = [] ∷ []
split_on sep (c ∷ t) =
    let rest = split_on sep t in if c == sep then [] ∷ rest else onto_first c rest
