-- ===== src/Discovery/Versions.antt =====
-- internal/discovery/probe.go: `parseVersion` and `boundedBuffer`. The matches of the regular
-- expression for a version, and what the semver package reads in one, are parameters.
use cliharbor.Prelude.{
  ℕ, zero, suc, ◌-◌, Bool, true, Option, none, some, List, [], ◌∷◌, ◌++◌, length, take, drop, leb,
  ltb, if◌then◌else◌,
}
use cliharbor.Prelude.Text.{Text, lit, text_eq, is_empty}
use cliharbor.Prelude.Cover.{distinct_texts}
use cliharbor.Prelude.Strings.{has_prefix}
use cliharbor.Host.{Host}
use cliharbor.Packs.{VersionProbe}

pub record BoundedBuffer : Type 0 where
  pub buf : Text
  pub max : ℕ
  pub truncated : Bool

unfoldable pub write : BoundedBuffer → Text → BoundedBuffer
write b p =
    let remaining = b.max - length b.buf in
    if leb b.max (length b.buf)
    then record b { truncated = true }
    else if ltb remaining (length p)
    then record b { buf = b.buf ++ take remaining p; truncated = true }
    else record b { buf = b.buf ++ p }

-- The text behind the first occurrence of a prefix.
unfoldable pub after_first : Text → Text → Option Text
after_first prefix [] = if is_empty prefix then some [] else none
after_first prefix (c ∷ t) =
    let later = after_first prefix t in
    if has_prefix (c ∷ t) prefix then some (drop (length prefix) (c ∷ t)) else later

abbrev add_match : Option Text → List Text → List Text
add_match none found = found
add_match (some version) found = version ∷ found

-- The loop over the occurrences of a label; `none` is out of fuel.
unfoldable pub prefixed_matches : Host → ℕ → Text → Text → Option (List Text)
prefixed_matches host zero prefix rest = none
prefixed_matches host (suc fuel) prefix rest = elim (after_first prefix rest) [
  | none ↦ some []
  | some behind ↦ elim (prefixed_matches host fuel prefix behind) [
    | none ↦ none
    | some more ↦ some (add_match (host.prefixed_semver behind) more)
  ]
]

unfoldable pub matches_of : Host → VersionProbe → Text → Option (List Text)
unfolding prefixed_matches
matches_of host probe output =
    if is_empty probe.prefix
    then some (host.find_semver output)
    else prefixed_matches host (suc (length output)) probe.prefix output

-- The matches that are versions, as the semver package prints them.
unfoldable pub strict_versions : Host → List Text → List Text
strict_versions host [] = []
strict_versions host (m ∷ rest) = elim (host.strict_version m) [
  | none ↦ strict_versions host rest
  | some version ↦ version ∷ strict_versions host rest
]

abbrev pub single_version : List Text → Option Text
single_version (v ∷ []) = some v
single_version _ = none

-- `none` is one of the errors; the set `versions` is the list without repetition.
unfoldable pub parse_version : Host → VersionProbe → Text → Option Text
unfolding matches_of strict_versions
parse_version host probe output = elim (matches_of host probe output) [
  | none ↦ none
  | some found ↦
      if text_eq probe.parser (lit "semver-text")
      then single_version (distinct_texts (strict_versions host found))
      else none
]
