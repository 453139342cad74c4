-- ===== src/Tests/DiscoveryWitnesses.antt =====
-- Discovery of one tool in a file system of one file.
use cliharbor.Prelude.{
  ◌≡◌, refl, true, false, none, some, [], ◌∷◌, ltb, length, take, is_some, arith,
}
use cliharbor.Prelude.Int.{pos}
use cliharbor.Prelude.Result.{ok}
use cliharbor.Prelude.Text.{lit, text_eq, text_lt}
use cliharbor.Prelude.Dict.{lookup}
use cliharbor.Prelude.Strings.{has_prefix, has_suffix}
use cliharbor.Prelude.Sort.{sort_texts, insert_text, mem_text}
use cliharbor.Prelude.Cover.{distinct_texts, no_repeat}
use cliharbor.Host.{Host}
use cliharbor.Packs.{LoadedPack, Tool, VersionProbe}
use cliharbor.Packs.Registry.{Registry, find_pack}
use cliharbor.Discovery.{ToolState, Snapshot, ready, find, new_snapshot, sort_candidates}
use cliharbor.Discovery.Files.{
  Files, FileInfo, inspect_identity, capture, still_holds, inspect_executable,
}
use cliharbor.Discovery.Candidates.{
  executable_variants, matches_declared_executable, normalize_discovery_directory, key_of,
  candidate_at, search_paths, paths_in, search_directories, directory_candidates,
}
use cliharbor.Discovery.Versions.{matches_of, strict_versions, parse_version, prefixed_matches}
use cliharbor.Discovery.Resolver.{
  Resolver, World, path_candidates, search_candidates, candidates_of, check_constraint,
  judge_output, probe_version, resolve_candidate, resolve_candidates, resolve_tool, discover_tool,
  discover_tools, discover_packs, discover,
}
use cliharbor.Discovery.Found.{AllDeclared, keys_of, directory_candidates-Searched}
use cliharbor.Discovery.Resolved.{Resolved, resolve_tool-Resolved}
use cliharbor.Discovery.Reading.{
  prefixed_matches_ends, write_all, concat, empty_buffer, write_all_prefix,
}
use cliharbor.Discovery.Usable.{discover-check_tool}
use cliharbor.Planner.Build.{check_tool}
use cliharbor.Tests.ValidationWitnesses.{plain_host}

abbrev file : FileInfo
file = record {
  number = 1;
  regular = true;
  symlink = false;
  executable = true;
  size = 4;
  mod_time = 7;
}

abbrev pub files : Files
files = record {
  stat = λ p. some file;
  lstat = λ p. some file;
  opened = λ p. some file;
  digest = λ p. some (lit "d");
  eval_symlinks = λ p. some p;
  absolute = λ p. some p;
}

-- `Clean` makes every path "vt" here.
abbrev vt_host : Host
vt_host = record plain_host { clean = λ t. lit "vt" }

abbrev probe : VersionProbe
probe = record { args = []; parser = lit "semver-text"; prefix = []; timeout_millis = pos 0 }

abbrev tool : Tool
tool = record {
  executable_names = lit "vt" ∷ [];
  version_probe = some probe;
  help_probes = [];
  version_constraint = lit "1";
  session_check = none;
  install = none;
}

abbrev world : World
world = record {
  at_search = files;
  at_capture = files;
  after_probe = files;
  run_probe = λ p q. some (lit "1.0.0");
  context_ended = false;
}

abbrev resolver : Resolver
resolver = record { goos = lit "linux"; path_value = lit "/bin"; fallback_dirs = [] }

abbrev loaded : LoadedPack
loaded = record {
  source_name = lit "vt.yaml";
  pack = record {
    metadata = record { id = lit "vt"; name = lit "vt"; version = lit "1"; description = [] };
    runtime = record { platforms = lit "linux" ∷ []; tools = (lit "vt", tool) ∷ [] };
    commands = [];
  };
}

abbrev registry : Registry
registry = record { packs = loaded ∷ []; by_id = (lit "vt", 0) ∷ [] }

abbrev before : ToolState
before = record {
  pack_id = lit "vt";
  pack_version = lit "1";
  tool_id = lit "vt";
  status = ready;
  path = [];
  executable_name = [];
  version = [];
  version_constraint = lit "1";
  candidates = [];
  identity = record { info = none; size = 0; mod_time = 0; digest = [] };
}

abbrev after : ToolState
after = record before {
  path = lit "vt";
  executable_name = lit "vt";
  version = lit "1.0.0";
  candidates = record { path = lit "vt"; executable_name = lit "vt" } ∷ [];
  identity = record { info = some 1; size = 4; mod_time = 7; digest = lit "d" };
}

resolved : resolve_tool vt_host resolver world before tool [] ≡ ok after
unfolding resolve_tool resolve_candidates resolve_candidate probe_version judge_output
    check_constraint candidates_of search_candidates path_candidates directory_candidates
    search_directories search_paths paths_in candidate_at key_of normalize_discovery_directory
    matches_declared_executable executable_variants inspect_executable inspect_identity capture
    still_holds matches_of strict_versions parse_version distinct_texts mem_text sort_candidates
    text_eq text_lt has_prefix has_suffix
resolved = refl

resolve_tool-Resolved_example : Resolved vt_host resolver world tool [] after
resolve_tool-Resolved_example =
    resolve_tool-Resolved vt_host resolver world before tool [] resolved refl

directory_candidates-Searched_example :
    AllDeclared vt_host
      (lit "linux")
      (lit "vt" ∷ [])
      (directory_candidates vt_host (lit "linux") files (lit "vt" ∷ []) (lit "/a" ∷ lit "/b" ∷ []))
    × (no_repeat (
          keys_of vt_host (lit "linux") (
            directory_candidates vt_host
              (lit "linux")
              files
              (lit "vt" ∷ [])
              (lit "/a" ∷ lit "/b" ∷ [])))
        ≡ true)
directory_candidates-Searched_example =
    directory_candidates-Searched vt_host (lit "linux") files (lit "vt" ∷ [])
      (lit "/a" ∷ lit "/b" ∷ [])

prefixed_matches_ends_example :
    is_some (prefixed_matches plain_host 5 (lit "v") (lit "v1 v")) ≡ true
prefixed_matches_ends_example =
    prefixed_matches_ends plain_host 5 b'v' [] (lit "v1 v") (omega arith)

write_all_prefix_example :
    ((write_all (empty_buffer 3) (lit "ab" ∷ lit "cd" ∷ [])).buf
      ≡ take 3 (concat (lit "ab" ∷ lit "cd" ∷ [])))
    × ((write_all (empty_buffer 3) (lit "ab" ∷ lit "cd" ∷ [])).truncated
        ≡ ltb 3 (length (concat (lit "ab" ∷ lit "cd" ∷ []))))
write_all_prefix_example = write_all_prefix 3 (lit "ab" ∷ lit "cd" ∷ []) refl

abbrev snapshot : Snapshot
snapshot = record { tools = after ∷ []; by_ref = (lit "vt", lit "vt", 0) ∷ [] }

discovered : discover vt_host resolver (λ p t. world) (some registry) [] ≡ ok snapshot
unfolding discover discover_packs discover_tools discover_tool find_pack new_snapshot resolve_tool
    resolve_candidates resolve_candidate probe_version judge_output check_constraint candidates_of
    search_candidates path_candidates directory_candidates search_directories search_paths paths_in
    candidate_at key_of normalize_discovery_directory matches_declared_executable
    executable_variants inspect_executable inspect_identity capture still_holds matches_of
    strict_versions parse_version distinct_texts mem_text sort_candidates lookup sort_texts
    insert_text text_eq text_lt has_prefix has_suffix
discovered = refl

after_found : find snapshot (lit "vt") (lit "vt") ≡ some after
unfolding find text_eq
after_found = refl

discover-check_tool_example : check_tool snapshot (lit "vt") (lit "vt") loaded ≡ ok after
discover-check_tool_example =
    discover-check_tool vt_host resolver (λ p t. world) (some registry) [] loaded (lit "vt")
      (lit "vt") (λ t. refl) discovered after_found refl refl
