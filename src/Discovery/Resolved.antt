-- ===== src/Discovery/Resolved.antt =====
-- What a tool is that discovery calls ready.
use cliharbor.Prelude.{
  ◌≡◌, refl, subst, true, false, not, ◌&&◌, none, some, List, [], ◌∷◌, inl, inr, Bool-cases,
  Option-cases, arith,
}
use cliharbor.Prelude.Result.{ok}
use cliharbor.Prelude.Text.{Text, is_empty}
use cliharbor.Host.{Host}
use cliharbor.Packs.{Tool, VersionProbe}
use cliharbor.Discovery.{Candidate, ToolState, ExecutableIdentity, is_ready, ready}
use cliharbor.Discovery.Files.{Files, capture, still_holds}
use cliharbor.Discovery.Candidates.{explicit_candidate}
use cliharbor.Discovery.Versions.{parse_version}
use cliharbor.Discovery.Found.{
  Declared, AllDeclared, candidate_at-Declared, directory_candidates-Searched,
}
use cliharbor.Discovery.Resolver.{
  Resolver, World, path_candidates, search_candidates, or_fallback, candidates_of, check_constraint,
  judge_output, probe_version, resolve_candidate, resolve_candidates, resolve_tool,
}

-- The executable was probed as the tool asks: not at all, or the file was still the same one after
-- the probe, and the one version in the output satisfies the pack's constraint.
pub data Probed (host : Host) (world : World) (tool : Tool) (i : ExecutableIdentity) (path : Text)
    : Text → Type 0 where
  unprobed : {version : Text} → tool.version_probe ≡ none → Probed host world tool i path version
  probed :
      (probe : VersionProbe) (output : Text) {version : Text}
      → tool.version_probe ≡ some probe
      → world.run_probe path probe ≡ some output
      → still_holds world.after_probe i path ≡ true
      → parse_version host probe output ≡ some version
      → (not (is_empty tool.version_constraint)
          && not (host.satisfies tool.version_constraint version))
        ≡ false
      → Probed host world tool i path version

-- What stands behind a ready tool.
pub record Resolved (host : Host) (r : Resolver) (world : World) (tool : Tool) (override : Text)
    (state : ToolState) : Type 0 where
  pub candidate : Candidate
  pub identity : ExecutableIdentity
  pub only : candidates_of host r world.at_search tool override ≡ some (candidate ∷ [])
  pub declared : Declared host r.goos tool.executable_names candidate
  pub captured : capture world.at_capture candidate.path ≡ some identity
  pub same_path : state.path ≡ candidate.path
  pub same_name : state.executable_name ≡ candidate.executable_name
  pub same_identity : state.identity ≡ identity
  pub checked : Probed host world tool identity candidate.path state.version

-- The end of a resolution, for the candidate and the identity that it has.
record Ended (host : Host) (world : World) (tool : Tool) (before after : ToolState) : Type 0 where
  path_kept : after.path ≡ before.path
  name_kept : after.executable_name ≡ before.executable_name
  identity_kept : after.identity ≡ before.identity
  checked : Probed host world tool before.identity before.path after.version

check_constraint-ready :
    (host : Host) (tool : Tool) (before : ToolState) (version : Text) {after : ToolState}
    → check_constraint host tool before version ≡ ok after
    → is_ready after.status ≡ true
    → (record before { status = ready; version = version } ≡ after)
      × ((not (is_empty tool.version_constraint)
            && not (host.satisfies tool.version_constraint version))
          ≡ false)
unfolding check_constraint
check_constraint-ready host tool before version h r =
    elim (Bool-cases (is_empty tool.version_constraint)) [
      | inl e ↦ (ground (arith, h, e), ground (arith, e))
      | inr e ↦ elim (Bool-cases (host.satisfies tool.version_constraint version)) [
        | inl s ↦ (ground (arith, h, e, s), ground (arith, s))
        | inr s ↦ absurd (ground (arith, h, e, s, r))
      ]
    ]

judge_output-Ended :
    (host : Host) (world : World) (tool : Tool) (probe : VersionProbe) (before : ToolState)
    (output : Text) {after : ToolState}
    → tool.version_probe ≡ some probe
    → world.run_probe before.path probe ≡ some output
    → judge_output host world tool probe before output ≡ ok after
    → is_ready after.status ≡ true
    → Ended host world tool before after
unfolding judge_output
judge_output-Ended host world tool probe before output {after} has ran h r =
    elim (Bool-cases (still_holds world.after_probe before.identity before.path)) [
      | inr e ↦ absurd (ground (arith, h, e, r))
      | inl e ↦ elim (Option-cases (parse_version host probe output)) [
        | inl p ↦ absurd (ground (arith, h, e, p, r))
        | inr (version, p) ↦
            let c : check_constraint host tool before version ≡ ok after =
              ground (arith, h, e, p) in
            let d : (record before { status = ready; version = version } ≡ after)
                × ((not (is_empty tool.version_constraint)
                      && not (host.satisfies tool.version_constraint version))
                    ≡ false) =
              check_constraint-ready host tool before version c r in
            subst (Ended host world tool before) d.0 (record {
              path_kept = refl;
              name_kept = refl;
              identity_kept = refl;
              checked = probed probe output has ran e p d.1;
            })
      ]
    ]

probe_version-Ended :
    (host : Host) (world : World) (tool : Tool) (before : ToolState) {after : ToolState}
    → probe_version host world tool before ≡ ok after
    → is_ready after.status ≡ true
    → Ended host world tool before after
unfolding probe_version
probe_version-Ended host world tool before {after} h r = elim (Option-cases tool.version_probe) [
  | inl e ↦
      let same : record before { status = ready } ≡ after = ground (arith, h, e) in
      subst (Ended host world tool before) same
        (record { path_kept = refl; name_kept = refl; identity_kept = refl; checked = unprobed e })
  | inr (probe, e) ↦ elim (Option-cases (world.run_probe before.path probe)) [
    | inl n ↦ absurd (ground (arith, h, e, n, r))
    | inr (output, o) ↦
        judge_output-Ended host world tool probe before output e o (ground (arith, h, e, o)) r
  ]
]

or_fallback-AllDeclared :
    (host : Host) (goos : Text) (names : List Text) (cs ds : List Candidate)
    → AllDeclared host goos names cs
    → AllDeclared host goos names ds
    → AllDeclared host goos names (or_fallback cs ds)
or_fallback-AllDeclared host goos names [] ds a b = b
or_fallback-AllDeclared host goos names (c ∷ cs) ds a b = a

search_candidates-AllDeclared :
    (host : Host) (r : Resolver) (files : Files) (names : List Text)
    → AllDeclared host r.goos names (search_candidates host r files names)
unfolding search_candidates path_candidates
search_candidates-AllDeclared host r files names =
    or_fallback-AllDeclared host r.goos names _ _
      (directory_candidates-Searched host r.goos files names (host.split_list r.path_value)).0
      (directory_candidates-Searched host r.goos files names r.fallback_dirs).0

explicit_candidate-Declared :
    (host : Host) (goos : Text) (files : Files) (path : Text) (names : List Text) {c : Candidate}
    → explicit_candidate host goos files path names ≡ some c
    → Declared host goos names c
unfolding explicit_candidate
explicit_candidate-Declared host goos files path names {c} h =
    elim (Bool-cases (host.is_abs path)) [
      | inr e ↦ absurd (ground (arith, h, e))
      | inl e ↦ candidate_at-Declared host goos files names (host.clean path) (ground (arith, h, e))
    ]

-- Both ways to a candidate give declared names only.
candidates_of-AllDeclared :
    (host : Host) (r : Resolver) (files : Files) (tool : Tool) (override : Text)
    {cs : List Candidate}
    → candidates_of host r files tool override ≡ some cs
    → AllDeclared host r.goos tool.executable_names cs
unfolding candidates_of
candidates_of-AllDeclared host r files tool override {cs} h =
    elim (Bool-cases (is_empty override)) [
      | inl e ↦
          let same : search_candidates host r files tool.executable_names ≡ cs =
            ground (arith, h, e) in
          subst (AllDeclared host r.goos tool.executable_names) same
            (search_candidates-AllDeclared host r files tool.executable_names)
      | inr e ↦
          elim (Option-cases
            (explicit_candidate host r.goos files override tool.executable_names)) [
              | inl n ↦ absurd (ground (arith, h, e, n))
              | inr (c, o) ↦
                  let same : c ∷ [] ≡ cs = ground (arith, h, e, o) in
                  subst (AllDeclared host r.goos tool.executable_names) same (
                    explicit_candidate-Declared host r.goos files override tool.executable_names o,
                    tt,
                  )
            ]
    ]

resolve_candidate-Resolved :
    (host : Host) (r : Resolver) (world : World) (tool : Tool) (override : Text)
    (before : ToolState) (c : Candidate) {after : ToolState}
    → candidates_of host r world.at_search tool override ≡ some (c ∷ [])
    → resolve_candidate host world tool before c ≡ ok after
    → is_ready after.status ≡ true
    → Resolved host r world tool override after
unfolding resolve_candidate
resolve_candidate-Resolved host r world tool override before c {after} only h ready_after =
    elim (Option-cases (capture world.at_capture c.path)) [
      | inl e ↦ absurd (ground (arith, h, e, ready_after))
      | inr (i, e) ↦
          let found : ToolState = record before {
            path = c.path;
            executable_name = c.executable_name;
            identity = i;
          } in
          let p : probe_version host world tool found ≡ ok after = ground (arith, h, e) in
          let ended : Ended host world tool found after =
            probe_version-Ended host world tool found p ready_after in
          (record {
            candidate = c;
            identity = i;
            only = only;
            declared = (candidates_of-AllDeclared host r world.at_search tool override only).0;
            captured = e;
            same_path = ended.path_kept;
            same_name = ended.name_kept;
            same_identity = ended.identity_kept;
            checked = ended.checked;
          })
    ]

resolve_candidates-Resolved :
    (host : Host) (r : Resolver) (world : World) (tool : Tool) (override : Text)
    (before : ToolState) (cs : List Candidate) {after : ToolState}
    → candidates_of host r world.at_search tool override ≡ some cs
    → resolve_candidates host world tool before cs ≡ ok after
    → is_ready after.status ≡ true
    → Resolved host r world tool override after
unfolding resolve_candidates
resolve_candidates-Resolved host r world tool override before [] only h ready_after =
    absurd (ground (arith, h, ready_after))
resolve_candidates-Resolved host r world tool override before (c ∷ []) only h ready_after =
    resolve_candidate-Resolved host r world tool override (record before { candidates = c ∷ [] }) c
      only h ready_after
resolve_candidates-Resolved host r world tool override before (c ∷ d ∷ rest) only h ready_after =
    absurd (ground (arith, h, ready_after))

-- A tool that discovery calls ready has exactly one candidate, under a name that the pack declares;
-- its path, name and identity are those of that file. Either the tool has no version probe, or the
-- file was the same one after the probe and the one version in its output satisfies the constraint.
pub resolve_tool-Resolved :
    (host : Host) (r : Resolver) (world : World) (before : ToolState) (tool : Tool)
    (override : Text) {after : ToolState}
    → resolve_tool host r world before tool override ≡ ok after
    → is_ready after.status ≡ true
    → Resolved host r world tool override after
unfolding resolve_tool
resolve_tool-Resolved host r world before tool override {after} h ready_after =
    elim (Option-cases (candidates_of host r world.at_search tool override)) [
      | inl e ↦ absurd (ground (arith, h, e, ready_after))
      | inr (cs, e) ↦
          resolve_candidates-Resolved host r world tool override before cs e (ground (arith, h, e))
            ready_after
    ]
