-- ===== src/Discovery/Candidates.antt =====
-- internal/discovery/resolver.go: the search for a tool's executable.
use cliharbor.Prelude.{
  ◌-◌, Bool, true, false, not, ◌&&◌, ◌||◌, Option, none, some, List, [], ◌∷◌, ◌++◌, length, take,
  drop, leb, if◌then◌else◌,
}
use cliharbor.Prelude.Text.{Text, lit, text_eq, is_empty}
use cliharbor.Prelude.Sort.{mem_text}
use cliharbor.Prelude.Strings.{has_prefix, has_suffix}
use cliharbor.Host.{Host}
use cliharbor.Discovery.{Candidate, sort_candidates}
use cliharbor.Discovery.Files.{Files, is_windows, inspect_executable}

unfoldable pub executable_variants : Host → Text → Text → List Text
executable_variants host name goos =
    if not (is_windows goos) || not (is_empty (host.ext name))
    then name ∷ []
    else (name ++ lit ".exe") ∷ (name ++ lit ".com") ∷ []

abbrev folds_to : Host → Text → List Text → Bool
folds_to host actual [] = false
folds_to host actual (variant ∷ rest) = host.equal_fold actual variant || folds_to host actual rest

unfoldable pub matches_declared_executable : Host → Text → List Text → Text → Bool
unfolding executable_variants
matches_declared_executable host actual [] goos = false
matches_declared_executable host actual (name ∷ rest) goos =
    (if is_windows goos
      then folds_to host actual (executable_variants host name goos)
      else text_eq actual name)
    || matches_declared_executable host actual rest goos

-- A directory of Windows may stand in double quotes.
abbrev unquote : Text → Text
unquote d =
    if leb 2 (length d) && (has_prefix d (b'"' ∷ []) && has_suffix d (b'"' ∷ []))
    then take (length d - 2) (drop 1 d)
    else d

-- The empty text is a directory to pass over.
unfoldable pub normalize_discovery_directory : Host → Text → Text → Text
normalize_discovery_directory host directory goos =
    let d = if is_windows goos then unquote directory else directory in
    if is_empty d || not (host.is_abs d) then [] else host.clean d

unfoldable pub key_of : Host → Text → Text → Text
key_of host goos path = if is_windows goos then host.to_lower path else path

-- A candidate that the search finds at one path.
unfoldable pub candidate_at : Host → Text → Files → List Text → Text → Option Candidate
candidate_at host goos files declared requested =
    elim (inspect_executable host goos files requested) [
      | none ↦ none
      | some resolved ↦
          if matches_declared_executable host (host.base resolved) declared goos
          then some (record { path = resolved; executable_name = host.base resolved })
          else none
    ]

-- What the loops have found, and the keys that they have seen.
pub record Search : Type 0 where
  pub seen : List Text
  pub found : List Candidate

abbrev pub note : Host → Text → Candidate → Search → Search
note host goos c s =
    if mem_text (key_of host goos c.path) s.seen
    then s
    else record { seen = key_of host goos c.path ∷ s.seen; found = s.found ++ c ∷ [] }

abbrev pub note_found : Host → Text → Option Candidate → Search → Search
note_found host goos none s = s
note_found host goos (some c) s = note host goos c s

-- The loop over the paths to try, in order.
unfoldable pub search_paths : Host → Text → Files → List Text → List Text → Search → Search
unfolding candidate_at
search_paths host goos files declared [] s = s
search_paths host goos files declared (path ∷ rest) s =
    search_paths host goos files declared rest
      (note_found host goos (candidate_at host goos files declared path) s)

abbrev pub join_all : Host → Text → List Text → List Text
join_all host directory [] = []
join_all host directory (name ∷ rest) = host.join directory name ∷ join_all host directory rest

-- The two inner loops: every variant of every declared name.
unfoldable pub paths_in : Host → Text → List Text → Text → List Text
unfolding executable_variants
paths_in host goos [] directory = []
paths_in host goos (executable ∷ rest) directory =
    join_all host directory (executable_variants host executable goos)
    ++ paths_in host goos rest directory

-- The outer loop, with the directories that it has seen.
unfoldable pub search_directories :
    Host → Text → Files → List Text → List Text → List Text → Search → Search
search_directories host goos files declared seen [] s = s
search_directories host goos files declared seen (raw ∷ rest) s =
    let directory = normalize_discovery_directory host raw goos in
    elim (is_empty directory || mem_text (key_of host goos directory) seen) [
      | true ↦ search_directories host goos files declared seen rest s
      | false ↦
          search_directories host goos files declared (key_of host goos directory ∷ seen) rest
            (search_paths host goos files declared (paths_in host goos declared directory) s)
    ]

unfoldable pub directory_candidates : Host → Text → Files → List Text → List Text → List Candidate
directory_candidates host goos files declared directories =
    sort_candidates
      (search_directories host goos files declared [] directories
        (record { seen = []; found = [] })).found

unfoldable pub explicit_candidate : Host → Text → Files → Text → List Text → Option Candidate
unfolding candidate_at
explicit_candidate host goos files path declared =
    if host.is_abs path then candidate_at host goos files declared (host.clean path) else none

-- `filepath.Join` of several elements.
unfoldable pub join_parts : Host → Text → List Text → Text
join_parts host directory [] = directory
join_parts host directory (part ∷ rest) = join_parts host (host.join directory part) rest

unfoldable pub default_user_search_directories : Host → Text → Text → List Text
default_user_search_directories host goos home =
    let under = λ (parts : List Text). join_parts host home parts in
    if is_windows goos
    then under (lit "AppData" ∷ lit "Local" ∷ lit "Microsoft" ∷ lit "WinGet" ∷ lit "Links" ∷ [])
      ∷ under (lit "scoop" ∷ lit "shims" ∷ [])
      ∷ under (lit "go" ∷ lit "bin" ∷ [])
      ∷ under (lit ".local" ∷ lit "bin" ∷ [])
      ∷ under (lit "bin" ∷ [])
      ∷ []
    else under (lit "go" ∷ lit "bin" ∷ [])
      ∷ under (lit ".local" ∷ lit "bin" ∷ [])
      ∷ under (lit "bin" ∷ [])
      ∷ (if text_eq goos (lit "darwin")
          then under (lit ".docker" ∷ lit "bin" ∷ [])
            ∷ lit "/opt/homebrew/bin"
            ∷ lit "/usr/local/bin"
            ∷ []
          else [])
