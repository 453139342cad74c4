-- ===== src/Discovery.antt =====
-- internal/discovery/types.go and executable_identity.go: tool states and the snapshot that the
-- planner consults. An executable's identity is the evidence kept of it; whether a path still holds
-- the same file is a question to the file system, and a parameter where it is asked.
pub mod Files
pub mod Candidates
pub mod Versions
pub mod Resolver
pub mod Found
pub mod Resolved
pub mod Reading
pub mod Usable
use cliharbor.Prelude.{
  ℕ, zero, suc, Bool, true, false, ◌&&◌, Option, none, some, List, [], ◌∷◌, if◌then◌else◌, is_some,
}
use cliharbor.Prelude.Text.{Text, text_eq, text_lt}

pub data Status : Type 0 where
  ready missing ambiguous incompatible probe_failed invalid_override : Status
  identity_failed unsupported_platform : Status

-- `info` is the os.FileInfo, or nil.
pub record ExecutableIdentity : Type 0 where
  pub info : Option ℕ
  pub size : ℕ
  pub mod_time : ℕ
  pub digest : Text

unfoldable pub is_valid : ExecutableIdentity → Bool
is_valid i = is_some i.info

pub record Candidate : Type 0 where
  pub path : Text
  pub executable_name : Text

-- The message of a state is a fixed sentence for each place, or that of an error, and is left out.
pub record ToolState : Type 0 where
  pub pack_id : Text
  pub pack_version : Text
  pub tool_id : Text
  pub status : Status
  pub path : Text
  pub executable_name : Text
  pub version : Text
  pub version_constraint : Text
  pub candidates : List Candidate
  pub identity : ExecutableIdentity

abbrev pub is_ready : Status → Bool
is_ready ready = true
is_ready _ = false

abbrev pub is_missing : Status → Bool
is_missing missing = true
is_missing _ = false

unfoldable pub healthy : ToolState → Bool
healthy s = is_ready s.status

-- The tools in order, and the index of each reference.
pub record Snapshot : Type 0 where
  pub tools : List ToolState
  pub by_ref : List (Text × Text × ℕ)

pub tool_before : ToolState → ToolState → Bool
tool_before a b =
    if text_eq a.pack_id b.pack_id then text_lt a.tool_id b.tool_id else text_lt a.pack_id b.pack_id

unfoldable pub insert_sorted : ToolState → List ToolState → List ToolState
unfolding tool_before
insert_sorted a [] = a ∷ []
insert_sorted a (b ∷ rest) = if tool_before b a then b ∷ insert_sorted a rest else a ∷ b ∷ rest

unfoldable pub sort_tools : List ToolState → List ToolState
unfolding insert_sorted
sort_tools [] = []
sort_tools (a ∷ rest) = insert_sorted a (sort_tools rest)

-- A later tool of the same reference replaces the index of an earlier one.
set_ref : Text → Text → ℕ → List (Text × Text × ℕ) → List (Text × Text × ℕ)
set_ref p t n [] = (p, t, n) ∷ []
set_ref p t n ((p', t', k) ∷ rest) =
    if text_eq p' p && text_eq t' t then (p, t, n) ∷ rest else (p', t', k) ∷ set_ref p t n rest

index_tools : ℕ → List ToolState → List (Text × Text × ℕ) → List (Text × Text × ℕ)
unfolding set_ref
index_tools n [] refs = refs
index_tools n (s ∷ rest) refs = index_tools (suc n) rest (set_ref s.pack_id s.tool_id n refs)

unfoldable pub insert_candidate : Candidate → List Candidate → List Candidate
insert_candidate a [] = a ∷ []
insert_candidate a (b ∷ rest) =
    if text_lt b.path a.path then b ∷ insert_candidate a rest else a ∷ b ∷ rest

-- `sort.Slice` by the path.
unfoldable pub sort_candidates : List Candidate → List Candidate
unfolding insert_candidate
sort_candidates [] = []
sort_candidates (a ∷ rest) = insert_candidate a (sort_candidates rest)

unfoldable pub order_candidates : List ToolState → List ToolState
order_candidates [] = []
order_candidates (s ∷ rest) =
    record s { candidates = sort_candidates s.candidates } ∷ order_candidates rest

unfoldable pub new_snapshot : List ToolState → Snapshot
unfolding sort_tools index_tools order_candidates
new_snapshot states =
    let ordered = sort_tools (order_candidates states) in
    record { tools = ordered; by_ref = index_tools 0 ordered [] }

abbrev pub find_ref : Text → Text → List (Text × Text × ℕ) → Option ℕ
find_ref p t [] = none
find_ref p t ((p', t', k) ∷ rest) =
    if text_eq p' p && text_eq t' t then some k else find_ref p t rest

abbrev pub nth : List ToolState → ℕ → Option ToolState
nth [] i = none
nth (x ∷ xs) zero = some x
nth (x ∷ xs) (suc i) = nth xs i

unfoldable pub find : Snapshot → Text → Text → Option ToolState
find s pack_id tool_id = elim (find_ref pack_id tool_id s.by_ref) [
  | none ↦ none
  | some index ↦ nth s.tools index
]

abbrev all_healthy : List ToolState → Bool
all_healthy [] = true
all_healthy (s ∷ rest) = is_ready s.status && all_healthy rest

unfoldable pub snapshot_healthy : Snapshot → Bool
snapshot_healthy s = all_healthy s.tools
