-- ===== src/Runs.antt =====
-- internal/runs/manager.go: the run manager's data. A `*record` is the entry of its identifier in
-- `runs`; a channel that is closed and replaced is a count of the signals sent on it.
pub mod New
pub mod Events
pub mod Retention
pub mod Start
pub mod Execute
pub mod Query
pub mod Counting
pub mod Room
pub mod Authorization
pub mod Invariant
pub mod Admission
pub mod Approved
pub mod Started
pub mod Previewed
pub mod Guarded
pub mod Steps
pub mod Settled
pub mod Machine
pub mod Handlers
pub mod Logged
pub mod Evidence
pub mod Journaled
pub mod EventLog
use cliharbor.Prelude.{ℕ, Bool, true, false, Option, List}
use cliharbor.Prelude.Int.{ℤ}
use cliharbor.Prelude.Text.{Text}
use cliharbor.Prelude.Dict.{Dict}
use cliharbor.Packs.{StructuredOutput}
use cliharbor.Packs.Registry.{Registry}
use cliharbor.Discovery.{Snapshot}
use cliharbor.Planner.{Plan}
use cliharbor.AppError.{Detail}
use cliharbor.Executor.{EventType}
use cliharbor.Structured.{Outcome}
use cliharbor.Approvals.{ExecutionContext, ApprovalSubmission}
use cliharbor.Approvals.Table.{Table}

pub data Status : Type 0 where
  running exited cancelled timed_out failed : Status

abbrev pub is_running : Status → Bool
is_running running = true
is_running _ = false

pub data ErrorCode : Type 0 where
  invalid_request tool_unavailable tool_changed policy_blocked context_unavailable : ErrorCode
  approval_required capacity not_found closed invalid_cursor audit_unavailable : ErrorCode

-- The errors without a code: `fmt.Errorf` and `errors.New`, one for each sentence.
pub data Fault : Type 0 where
  build_plan fingerprint_approval generate_approval_id generate_run_id duplicate_run_id : Fault
  not_activatable parent_required registry_required retained_below_active : Fault
  event_bytes_below_output : Fault

pub data Error : Type 0 where
  coded : ErrorCode → Text → Error
  internal : Fault → Error

pub record Request : Type 0 where
  pub pack_id : Text
  pub command_id : Text
  pub values : Dict Text
  pub approval : Option ApprovalSubmission

-- `payload` is what `DataBase64` encodes; the empty text is no payload.
pub record Event : Type 0 where
  pub sequence : ℕ
  pub kind : EventType
  pub timestamp : ℕ
  pub payload : Text
  pub exit_code : Option ℤ

-- An output guard approves bytes, or refuses.
abbrev pub Guard : Type 0
Guard = Text → Option Text

pub record Config : Type 0 where
  pub max_active : ℕ
  pub max_retained : ℕ
  pub timeout : ℕ
  pub wait_delay : ℕ
  pub chunk_bytes : ℕ
  pub max_output_bytes_per_stream : ℕ
  pub max_event_bytes_per_run : ℕ
  pub approval_ttl : ℕ
  pub max_approvals : ℕ
  pub resolve_execution_context : Option (Plan → Option ExecutionContext)
  pub output_guard : Option (Plan → Option Guard)

-- `cancel_set` says that the cancel function is not nil, `context_cancelled` that it was called.
pub record Record : Type 0 where
  pub run_id : Text
  pub pack_id : Text
  pub command_id : Text
  pub tool_id : Text
  pub tool_version : Text
  pub status : Status
  pub started_at : Option ℕ
  pub ended_at : Option ℕ
  pub exit_code : Option ℤ
  pub events : List Event
  pub event_bytes : ℕ
  pub next_seq : ℕ
  pub cancel_set : Bool
  pub context_cancelled : Bool
  pub is_done : Bool
  pub signals : ℕ
  pub structured_spec : Option StructuredOutput
  pub structured_renderer : Text
  pub structured_stdout : Text
  pub structured_too_large : Bool
  pub structured_result : Option Outcome
  pub failure : Option Detail
  pub audited : Bool

-- `J` is the state of the audit sink; `context_done` is `m.ctx.Err() != nil`.
pub record Manager (J : Type 0) : Type 0 where
  pub registry : Registry
  pub discovery : Snapshot
  pub config : Config
  pub context_done : Bool
  pub runs : Dict Record
  pub order : List Text
  pub approvals : Table
  pub active : ℕ
  pub audit_failed : Bool
  pub is_closed : Bool
  pub waiting : ℕ
  pub audit : Option J
