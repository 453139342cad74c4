-- ===== src/Discovery/Usable.antt =====
-- A snapshot of `Discover` in the hands of the planner.
use cliharbor.Prelude.{
  ℕ, zero, suc, ◌≡◌, refl, sym, ap, ◌∙◌, subst, Bool, true, false, not, ◌&&◌, ◌||◌, Option, some,
  List, [], ◌∷◌, ◌++◌, inl, inr, Bool-cases, Option-cases, arith, all,
}
use cliharbor.Prelude.Result.{ok, ◌>>=◌, after_ok, after_check, after_some, ok_injective}
use cliharbor.Prelude.Text.{Text, text_eq, text_eq_refl, is_empty}
use cliharbor.Prelude.Dict.{lookup}
use cliharbor.Prelude.Sort.{mem_text}
use cliharbor.Host.{Host}
use cliharbor.Packs.{Tool, Pack, LoadedPack}
use cliharbor.Packs.Registry.{Registry}
use cliharbor.Discovery.{
  ToolState, Snapshot, ExecutableIdentity, unsupported_platform, is_ready, is_valid, find, find_ref,
  nth, new_snapshot, sort_tools, insert_sorted, order_candidates,
}
use cliharbor.Discovery.Files.{Files, capture, inspect_identity}
use cliharbor.Discovery.Resolved.{Resolved, resolve_tool-Resolved}
use cliharbor.Discovery.Resolver.{
  Resolver, World, resolve_tool, discover_tool, discover_tools, discover_packs, discover, all_known,
  no_registry, unknown_override, override_of, base_state, tools_of,
}
use cliharbor.Planner.Build.{check_tool}

-- A state that is not ready, or has a path and an identity.
unfoldable pub usable : ToolState → Bool
usable s = not (is_ready s.status) || (is_valid s.identity && not (is_empty s.path))

-- What `filepath.Clean` documents: its result is never empty.
abbrev pub Cleans : Host → Type 0
Cleans host = (t : Text) → is_empty (host.clean t) ≡ false

capture-is_valid :
    (files : Files) (path : Text) {i : ExecutableIdentity}
    → capture files path ≡ some i
    → is_valid i ≡ true
unfolding capture is_valid
capture-is_valid files path {i} h = elim (Option-cases (inspect_identity files path)) [
  | inl e ↦ absurd (ground (arith, h, e))
  | inr ((info, digest), e) ↦ ground (arith, h, e)
]

resolve_tool-usable :
    (host : Host) (r : Resolver) (world : World) (before : ToolState) (tool : Tool)
    (override : Text) {after : ToolState}
    → Cleans host
    → resolve_tool host r world before tool override ≡ ok after
    → usable after ≡ true
unfolding usable
resolve_tool-usable host r world before tool override {after} cleans h =
    elim (Bool-cases (is_ready after.status)) [
      | inr e ↦ ground (arith, e)
      | inl e ↦
          let found : Resolved host r world tool override after =
            resolve_tool-Resolved host r world before tool override h e in
          let valid : is_valid after.identity ≡ true =
            ap is_valid found.same_identity
            ∙ capture-is_valid world.at_capture found.candidate.path found.captured in
          let path : is_empty after.path ≡ false =
            ap is_empty (found.same_path ∙ found.declared.cleaned) ∙ cleans found.declared.target in
          ground (arith, valid, path)
    ]

unsupported_usable :
    (pack : Pack) (id : Text) (tool : Tool) {after : ToolState}
    → record (base_state pack id tool) { status = unsupported_platform } ≡ after
    → usable after ≡ true
unfolding usable
unsupported_usable pack id tool h = subst (λ s. usable s ≡ true) h refl

discover_tool-usable :
    (host : Host) (r : Resolver) (world : World) (pack : Pack)
    (overrides : List (Text × Text × Text)) (id : Text) (tool : Tool) {after : ToolState}
    → Cleans host
    → discover_tool host r world pack overrides id tool ≡ ok after
    → usable after ≡ true
unfolding discover_tool
discover_tool-usable host r world pack overrides id tool {after} cleans h =
    elim (Bool-cases (mem_text r.goos pack.runtime.platforms)) [
      | inl e ↦
          resolve_tool-usable host r world (base_state pack id tool) tool
            (override_of overrides pack.metadata.id id) cleans (ground (arith, h, e))
      | inr e ↦ unsupported_usable pack id tool (ground (arith, h, e))
    ]

all-snoc :
    (states : List ToolState) (s : ToolState)
    → all usable states ≡ true
    → usable s ≡ true
    → all usable (states ++ s ∷ []) ≡ true
all-snoc [] s a u = ground (arith, u)
all-snoc (t ∷ ts) s a u = ground (arith, a, u, all-snoc ts s)

discover_tools-usable :
    (host : Host) (r : Resolver) (worlds : Text → Text → World) (pack : Pack)
    (overrides : List (Text × Text × Text)) (ids : List Text) (states : List ToolState)
    {found : List ToolState}
    → Cleans host
    → all usable states ≡ true
    → discover_tools host r worlds pack overrides ids states ≡ ok found
    → all usable found ≡ true
unfolding discover_tools
discover_tools-usable host r worlds pack overrides [] states cleans a h =
    subst (λ xs. all usable xs ≡ true) (ok_injective h) a
discover_tools-usable host r worlds pack overrides (id ∷ rest) states {found} cleans a h =
    elim (Option-cases (lookup id pack.runtime.tools)) [
      | inl e ↦
          discover_tools-usable host r worlds pack overrides rest states cleans a
            (ground (arith, h, e))
      | inr (tool, e) ↦
          let world : World = worlds pack.metadata.id id in
          let chain : (discover_tool host r world pack overrides id tool >>= λ state.
          discover_tools host r worlds pack overrides rest (states ++ state ∷ []))
              ≡ ok found =
            ground (arith, h, e) in
          after_ok (discover_tool host r world pack overrides id tool) chain (λ state one h1.
            discover_tools-usable host r worlds pack overrides rest (states ++ state ∷ []) cleans
              (all-snoc states state a
                (discover_tool-usable host r world pack overrides id tool cleans one))
              h1)
    ]

discover_packs-usable :
    (host : Host) (r : Resolver) (worlds : Text → Text → World) (registry : Registry)
    (overrides : List (Text × Text × Text)) (loaded : List LoadedPack) (states : List ToolState)
    {found : List ToolState}
    → Cleans host
    → all usable states ≡ true
    → discover_packs host r worlds registry overrides loaded states ≡ ok found
    → all usable found ≡ true
unfolding discover_packs
discover_packs-usable host r worlds registry overrides [] states cleans a h =
    subst (λ xs. all usable xs ≡ true) (ok_injective h) a
discover_packs-usable host r worlds registry overrides (l ∷ rest) states cleans a h =
    after_ok
      (discover_tools host r worlds l.pack overrides (tools_of registry l.pack.metadata.id) states)
      h
      (λ more e h1.
        discover_packs-usable host r worlds registry overrides rest more cleans
          (discover_tools-usable host r worlds l.pack overrides
            (tools_of registry l.pack.metadata.id) states cleans a e)
          h1)

order_candidates-usable :
    (states : List ToolState) → all usable (order_candidates states) ≡ all usable states
unfolding order_candidates usable
order_candidates-usable [] = refl
order_candidates-usable (s ∷ ss) = ground (arith, order_candidates-usable ss)

insert_sorted-usable :
    (s : ToolState) (states : List ToolState)
    → all usable (insert_sorted s states) ≡ (usable s && all usable states)
unfolding insert_sorted
insert_sorted-usable s [] = refl
insert_sorted-usable s (t ∷ ts) = ground (arith, insert_sorted-usable s ts)

sort_tools-usable : (states : List ToolState) → all usable (sort_tools states) ≡ all usable states
unfolding sort_tools
sort_tools-usable [] = refl
sort_tools-usable (s ∷ ss) =
    ground (arith, insert_sorted-usable s (sort_tools ss), sort_tools-usable ss)

nth-usable :
    (states : List ToolState) (i : ℕ) {s : ToolState}
    → all usable states ≡ true
    → nth states i ≡ some s
    → usable s ≡ true
nth-usable [] i a h = absurd (cc h)
nth-usable (t ∷ ts) zero a h = ground (arith, a, h)
nth-usable (t ∷ ts) (suc i) a h = nth-usable ts i (ground (arith, a)) h

find-usable :
    (states : List ToolState) (pack_id tool_id : Text) {s : ToolState}
    → all usable states ≡ true
    → find (new_snapshot states) pack_id tool_id ≡ some s
    → usable s ≡ true
unfolding find new_snapshot
find-usable states pack_id tool_id {s} a h =
    let snapshot : Snapshot = new_snapshot states in
    let ordered : all usable (sort_tools (order_candidates states)) ≡ true =
      sort_tools-usable (order_candidates states) ∙ order_candidates-usable states ∙ a in
    elim (Option-cases (find_ref pack_id tool_id snapshot.by_ref)) [
      | inl e ↦ absurd (ground (arith, h, e))
      | inr (i, e) ↦
          nth-usable (sort_tools (order_candidates states)) i ordered (ground (arith, h, e))
    ]

usable-check_tool :
    (snapshot : Snapshot) (pack_id tool_id : Text) (loaded : LoadedPack) (state : ToolState)
    → find snapshot pack_id tool_id ≡ some state
    → is_ready state.status ≡ true
    → state.pack_version ≡ loaded.pack.metadata.version
    → usable state ≡ true
    → check_tool snapshot pack_id tool_id loaded ≡ ok state
unfolding check_tool usable
usable-check_tool snapshot pack_id tool_id loaded state found is same u =
    let equal : text_eq state.pack_version loaded.pack.metadata.version ≡ true =
      ap (λ v. text_eq v loaded.pack.metadata.version) same
      ∙ text_eq_refl loaded.pack.metadata.version in
    ground (arith, found, is, equal, u)

-- A tool that the snapshot of `Discover` lists as ready, and whose pack has not changed its version
-- since, is one that `Build` accepts: it has a path and a valid identity.
pub discover-check_tool :
    (host : Host) (r : Resolver) (worlds : Text → Text → World) (registry : Option Registry)
    (overrides : List (Text × Text × Text)) (loaded : LoadedPack) (pack_id tool_id : Text)
    {snapshot : Snapshot} {state : ToolState}
    → Cleans host
    → discover host r worlds registry overrides ≡ ok snapshot
    → find snapshot pack_id tool_id ≡ some state
    → is_ready state.status ≡ true
    → state.pack_version ≡ loaded.pack.metadata.version
    → check_tool snapshot pack_id tool_id loaded ≡ ok state
unfolding discover
discover-check_tool host r worlds registry overrides loaded pack_id tool_id {snapshot} {state}
      cleans h found is same =
    after_some registry no_registry h (λ reg e h1.
      after_ok (discover_packs host r worlds reg overrides reg.packs []) h1 (λ states ran h2.
        after_check (not (all_known reg overrides)) unknown_override h2 (λ k last.
          let here : find (new_snapshot states) pack_id tool_id ≡ some state =
            subst (λ s. find s pack_id tool_id ≡ some state) (sym (ok_injective last)) found in
          let can_run : usable state ≡ true =
            find-usable states pack_id tool_id
              (discover_packs-usable host r worlds reg overrides reg.packs [] cleans refl ran)
              here in
          usable-check_tool snapshot pack_id tool_id loaded state found is same can_run)))
