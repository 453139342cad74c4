-- ===== src/Discovery/Resolver.antt =====
-- internal/discovery/resolver.go: `resolveTool` and `Discover`.
use cliharbor.Prelude.{
  Bool, true, false, not, ◌&&◌, ◌||◌, Option, none, some, List, [], ◌∷◌, ◌++◌, if◌then◌else◌,
}
use cliharbor.Prelude.Result.{Result, ok, err, ◌>>=◌, ◌>>◌, fail_if, or_fail}
use cliharbor.Prelude.Text.{Text, text_eq, is_empty}
use cliharbor.Prelude.Dict.{lookup}
use cliharbor.Prelude.Sort.{mem_text, sorted_keys}
use cliharbor.Host.{Host}
use cliharbor.Packs.{Pack, LoadedPack, Tool, VersionProbe}
use cliharbor.Packs.Registry.{Registry, find_pack}
use cliharbor.Discovery.{
  Candidate, ToolState, Snapshot, Status, ready, missing, ambiguous, incompatible, probe_failed,
  invalid_override, identity_failed, unsupported_platform, new_snapshot,
}
use cliharbor.Discovery.Files.{Files, capture, still_holds}
use cliharbor.Discovery.Candidates.{directory_candidates, explicit_candidate}
use cliharbor.Discovery.Versions.{parse_version}

pub record Resolver : Type 0 where
  pub goos : Text
  pub path_value : Text
  pub fallback_dirs : List Text

-- What the operating system answers while one tool is resolved: the files at the search, at the
-- capture of the identity and after the probe, the probe's output, and whether the context has ended
-- when the probe fails.
pub record World : Type 0 where
  pub at_search : Files
  pub at_capture : Files
  pub after_probe : Files
  pub run_probe : Text → VersionProbe → Option Text
  pub context_ended : Bool

pub data DiscoverError : Type 0 where
  context_error invalid_constraint no_registry unknown_override : DiscoverError

abbrev with_status : Status → ToolState → ToolState
with_status status state = record state { status = status }

unfoldable pub path_candidates : Host → Resolver → Files → List Text → List Candidate
path_candidates host r files declared =
    directory_candidates host r.goos files declared (host.split_list r.path_value)

abbrev pub or_fallback : List Candidate → List Candidate → List Candidate
or_fallback [] fallback = fallback
or_fallback (c ∷ cs) fallback = c ∷ cs

unfoldable pub search_candidates : Host → Resolver → Files → List Text → List Candidate
unfolding path_candidates
search_candidates host r files declared =
    or_fallback (path_candidates host r files declared)
      (directory_candidates host r.goos files declared r.fallback_dirs)

-- The candidates, or `none` for an override that is refused.
unfoldable pub candidates_of : Host → Resolver → Files → Tool → Text → Option (List Candidate)
candidates_of host r files tool override =
    if is_empty override
    then some (search_candidates host r files tool.executable_names)
    else elim (explicit_candidate host r.goos files override tool.executable_names) [
      | none ↦ none
      | some c ↦ some (c ∷ [])
    ]

unfoldable pub check_constraint : Host → Tool → ToolState → Text → Result DiscoverError ToolState
check_constraint host tool state version =
    if is_empty tool.version_constraint
    then ok (with_status ready (record state { version = version }))
    else if not (host.is_constraint tool.version_constraint)
    then err invalid_constraint
    else if host.satisfies tool.version_constraint version
    then ok (with_status ready (record state { version = version }))
    else ok (with_status incompatible (record state { version = version }))

-- The part behind a probe that ran: the file is the same one still, and its output has one version.
unfoldable pub judge_output :
    Host → World → Tool → VersionProbe → ToolState → Text → Result DiscoverError ToolState
unfolding check_constraint
judge_output host world tool probe state output =
    if not (still_holds world.after_probe state.identity state.path)
    then ok (with_status identity_failed state)
    else elim (parse_version host probe output) [
      | none ↦ ok (with_status probe_failed state)
      | some version ↦ check_constraint host tool state version
    ]

unfoldable pub probe_version : Host → World → Tool → ToolState → Result DiscoverError ToolState
unfolding judge_output
probe_version host world tool state = elim tool.version_probe [
  | none ↦ ok (with_status ready state)
  | some probe ↦ elim (world.run_probe state.path probe) [
    | none ↦ if world.context_ended then err context_error else ok (with_status probe_failed state)
    | some output ↦ judge_output host world tool probe state output
  ]
]

unfoldable pub resolve_candidate :
    Host → World → Tool → ToolState → Candidate → Result DiscoverError ToolState
unfolding probe_version
resolve_candidate host world tool state c = elim (capture world.at_capture c.path) [
  | none ↦ ok (
      with_status identity_failed
        (record state { path = c.path; executable_name = c.executable_name }))
  | some identity ↦
      probe_version host world tool
        (record state { path = c.path; executable_name = c.executable_name; identity = identity })
]

-- The `switch` over the number of candidates.
unfoldable pub resolve_candidates :
    Host → World → Tool → ToolState → List Candidate → Result DiscoverError ToolState
unfolding resolve_candidate
resolve_candidates host world tool state [] =
    ok (with_status missing (record state { candidates = [] }))
resolve_candidates host world tool state (c ∷ []) =
    resolve_candidate host world tool (record state { candidates = c ∷ [] }) c
resolve_candidates host world tool state (c ∷ d ∷ rest) =
    ok (with_status ambiguous (record state { candidates = c ∷ d ∷ rest }))

unfoldable pub resolve_tool :
    Host → Resolver → World → ToolState → Tool → Text → Result DiscoverError ToolState
unfolding resolve_candidates candidates_of
resolve_tool host r world state tool override =
    elim (candidates_of host r world.at_search tool override) [
      | none ↦ ok (with_status invalid_override state)
      | some candidates ↦ resolve_candidates host world tool state candidates
    ]

-- The zero `ToolState` of one tool of a pack. Its status is set on every path; the one here stands
-- for the empty string.
abbrev pub base_state : Pack → Text → Tool → ToolState
base_state pack id tool = record {
  pack_id = pack.metadata.id;
  pack_version = pack.metadata.version;
  tool_id = id;
  status = missing;
  path = [];
  executable_name = [];
  version = [];
  version_constraint = tool.version_constraint;
  candidates = [];
  identity = record { info = none; size = 0; mod_time = 0; digest = [] };
}

-- An override by pack and tool; the empty path where there is none.
abbrev pub override_of : List (Text × Text × Text) → Text → Text → Text
override_of [] pack_id tool_id = []
override_of ((p, t, path) ∷ rest) pack_id tool_id =
    if text_eq p pack_id && text_eq t tool_id then path else override_of rest pack_id tool_id

unfoldable pub discover_tool :
    Host
    → Resolver
    → World
    → Pack
    → List (Text × Text × Text)
    → Text
    → Tool
    → Result DiscoverError ToolState
unfolding resolve_tool
discover_tool host r world pack overrides id tool =
    if mem_text r.goos pack.runtime.platforms
    then resolve_tool host r world (base_state pack id tool) tool
        (override_of overrides pack.metadata.id id)
    else ok (with_status unsupported_platform (base_state pack id tool))

-- The loop over the tools of one pack, with the worlds of their resolutions.
unfoldable pub discover_tools :
    Host
    → Resolver
    → (Text → Text → World)
    → Pack
    → List (Text × Text × Text)
    → List Text
    → List ToolState
    → Result DiscoverError (List ToolState)
unfolding discover_tool
discover_tools host r worlds pack overrides [] states = ok states
discover_tools host r worlds pack overrides (id ∷ rest) states =
    elim (lookup id pack.runtime.tools) [
      | none ↦ discover_tools host r worlds pack overrides rest states
      | some tool ↦
          discover_tool host r (worlds pack.metadata.id id) pack overrides id tool >>= λ state.
          discover_tools host r worlds pack overrides rest (states ++ state ∷ [])
    ]

-- `registry.Tools(id)` finds the pack by its identifier again.
abbrev pub tools_of : Registry → Text → List Text
tools_of registry id = elim (find_pack registry id) [
  | none ↦ []
  | some loaded ↦ sorted_keys loaded.pack.runtime.tools
]

unfoldable pub discover_packs :
    Host
    → Resolver
    → (Text → Text → World)
    → Registry
    → List (Text × Text × Text)
    → List LoadedPack
    → List ToolState
    → Result DiscoverError (List ToolState)
unfolding discover_tools
discover_packs host r worlds registry overrides [] states = ok states
discover_packs host r worlds registry overrides (loaded ∷ rest) states =
    discover_tools host r worlds loaded.pack overrides (tools_of registry loaded.pack.metadata.id)
      states
    >>= λ found. discover_packs host r worlds registry overrides rest found

abbrev knows : Registry → List LoadedPack → Text → Text → Bool
knows registry [] pack_id tool_id = false
knows registry (loaded ∷ rest) pack_id tool_id =
    (text_eq loaded.pack.metadata.id pack_id
      && mem_text tool_id (tools_of registry loaded.pack.metadata.id))
    || knows registry rest pack_id tool_id

abbrev pub all_known : Registry → List (Text × Text × Text) → Bool
all_known registry [] = true
all_known registry ((p, t, path) ∷ rest) =
    knows registry registry.packs p t && all_known registry rest

unfoldable pub discover :
    Host
    → Resolver
    → (Text → Text → World)
    → Option Registry
    → List (Text × Text × Text)
    → Result DiscoverError Snapshot
discover host r worlds registry overrides = do
  reg ← or_fail registry no_registry
  states ← discover_packs host r worlds reg overrides reg.packs []
  fail_if (not (all_known reg overrides)) unknown_override
  ok (new_snapshot states)
