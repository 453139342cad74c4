-- ===== src/Runs/Query.antt =====
-- internal/runs/manager.go: the calls that look at runs (`Get`, `List`, `WaitEvents`, `Wait`), and
-- `Cancel`, `Shutdown` and `ActivateTool`.
use cliharbor.Prelude.{
  ℕ, Bool, true, false, not, ◌&&◌, ◌||◌, Option, none, some, List, [], ◌∷◌, ◌++◌, ltb,
  if◌then◌else◌,
}
use cliharbor.Prelude.Int.{ℤ}
use cliharbor.Prelude.Text.{Text, text_eq}
use cliharbor.Prelude.Dict.{Dict, lookup, insert}
use cliharbor.Discovery.{ToolState, Snapshot, is_missing, healthy, is_valid, new_snapshot}
use cliharbor.Discovery
use cliharbor.Structured.{Outcome}
use cliharbor.AppError.{Detail}
use cliharbor.Approvals.{valid_run_id}
use cliharbor.Runs.{
  Record, Event, Manager, Status, is_running, Error, internal, not_found, invalid_cursor, closed,
  not_activatable,
}
use cliharbor.Runs.Events.{clone_events_after}
use cliharbor.Runs.Start.{failed_with}

-- Metadata only: no events, no structured result and no failure.
pub record Summary : Type 0 where
  pub run_id : Text
  pub pack_id : Text
  pub command_id : Text
  pub tool_id : Text
  pub tool_version : Text
  pub status : Status
  pub started_at : Option ℕ
  pub ended_at : Option ℕ
  pub exit_code : Option ℤ

unfoldable pub summary : Record → Summary
summary r = record {
  run_id = r.run_id;
  pack_id = r.pack_id;
  command_id = r.command_id;
  tool_id = r.tool_id;
  tool_version = r.tool_version;
  status = r.status;
  started_at = r.started_at;
  ended_at = r.ended_at;
  exit_code = r.exit_code;
}

pub record RunSnapshot : Type 0 where
  pub summary : Summary
  pub structured : Option Outcome
  pub failure : Option Detail
  pub events : List Event

unfoldable pub snapshot : Record → RunSnapshot
snapshot r = record {
  summary = summary r;
  structured = r.structured_result;
  failure = r.failure;
  events = r.events;
}

unfoldable pub get : {J : Type 0} → Manager J → Text → Option RunSnapshot
get m run_id =
    if not (valid_run_id run_id)
    then none
    else elim (lookup run_id m.runs) [ none ↦ none | some r ↦ some (snapshot r) ]

abbrev add_summary : Option Record → List Summary → List Summary
add_summary none rest = rest
add_summary (some r) rest = rest ++ summary r ∷ []

-- The loop of `List` goes from the end of `order` to its start.
unfoldable pub list_runs : Dict Record → List Text → List Summary
list_runs runs [] = []
list_runs runs (id ∷ rest) = add_summary (lookup id runs) (list_runs runs rest)

pub record EventBatch : Type 0 where
  pub run_id : Text
  pub events : List Event
  pub status : Status
  pub exit_code : Option ℤ
  pub structured : Option Outcome
  pub failure : Option Detail
  pub is_complete : Bool

-- One round of the loop of `WaitEvents`: it returns, or it waits for the next signal.
pub data Poll : Type 0 where
  refused : Error → Poll
  batch : EventBatch → Poll
  wait_signal : ℕ → Poll

abbrev is_nil : List Event → Bool
is_nil [] = true
is_nil (e ∷ es) = false

unfoldable pub poll_record : Record → ℕ → Poll
poll_record r after =
    let events = clone_events_after r.events after in
    if ltb r.next_seq after
    then refused (failed_with invalid_cursor)
    else if not (is_nil events) || not (is_running r.status)
    then batch (record {
      run_id = r.run_id;
      events = events;
      status = r.status;
      exit_code = r.exit_code;
      structured = r.structured_result;
      failure = r.failure;
      is_complete = not (is_running r.status);
    })
    else wait_signal r.signals

unfoldable pub wait_events : {J : Type 0} → Manager J → Text → ℕ → Poll
unfolding poll_record
wait_events m run_id after =
    if not (valid_run_id run_id)
    then refused (failed_with not_found)
    else elim (lookup run_id m.runs) [
      | none ↦ refused (failed_with not_found)
      | some r ↦ poll_record r after
    ]

-- `Wait` before it blocks: an error, the snapshot of a finished run, or nothing yet.
unfoldable pub wait_run : {J : Type 0} → Manager J → Text → Option Error × Option RunSnapshot
wait_run m run_id =
    if not (valid_run_id run_id)
    then (some (failed_with not_found), none)
    else elim (lookup run_id m.runs) [
      | none ↦ (some (failed_with not_found), none)
      | some r ↦ (none, if is_running r.status then none else some (snapshot r))
    ]

unfoldable pub cancel : {J : Type 0} → Manager J → Text → Manager J × Option Error
cancel m run_id =
    if not (valid_run_id run_id)
    then (m, some (failed_with not_found))
    else elim (lookup run_id m.runs) [
      | none ↦ (m, some (failed_with not_found))
      | some r ↦
          if is_running r.status
          then (
            record m { runs = insert run_id (record r { context_cancelled = true }) m.runs },
            none,
          )
          else (m, none)
    ]

-- The locked part of `Shutdown`; it then waits until `waiting` is 0.
unfoldable pub shutdown : {J : Type 0} → Manager J → Manager J
shutdown m = record m {
  is_closed = true;
  context_done = m.context_done || not m.is_closed;
  approvals = [];
}

unfoldable pub replace_tool : ToolState → List ToolState → List ToolState
replace_tool state [] = []
replace_tool state (s ∷ rest) =
    let here = text_eq s.pack_id state.pack_id && text_eq s.tool_id state.tool_id in
    (if here then state else s) ∷ replace_tool state rest

-- `matches` answers `ExecutableIdentity.Matches(state.Path)`.
unfoldable pub is_activation : Bool → ToolState → ToolState → Bool
is_activation matches previous state =
    is_missing previous.status
    && (healthy state
        && (text_eq state.pack_version previous.pack_version
            && (text_eq state.version_constraint previous.version_constraint
                && (is_valid state.identity && matches))))

unfoldable pub activate_tool :
    {J : Type 0} → Manager J → Bool → ToolState → Manager J × Option Error
activate_tool m matches state =
    if m.is_closed || m.context_done
    then (m, some (failed_with closed))
    else elim (Discovery.find m.discovery state.pack_id state.tool_id) [
      | none ↦ (m, some (internal not_activatable))
      | some previous ↦
          if not (is_activation matches previous state)
          then (m, some (internal not_activatable))
          else (record m { discovery = new_snapshot (replace_tool state m.discovery.tools) }, none)
    ]
