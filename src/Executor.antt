-- ===== src/Executor.antt =====
-- internal/executor/executor.go: what the executor hands to the run manager. The process itself is
-- the operating system's.
pub mod Writer
pub mod Limits
pub mod Plans
pub mod Run
pub mod Phases
pub mod Protocol
use cliharbor.Prelude.{ℕ, Bool, Option, List}
use cliharbor.Prelude.Int.{ℤ}
use cliharbor.Prelude.Text.{Text}

pub data Status : Type 0 where
  exited cancelled timed_out failed : Status

pub data EventType : Type 0 where
  run_started stdout_chunk stderr_chunk run_exited run_cancelled run_timed_out run_failed :
      EventType

-- `bytes` is the field `Data`.
pub record Event : Type 0 where
  pub run_id : Text
  pub kind : EventType
  pub timestamp : ℕ
  pub bytes : Text
  pub exit_code : Option ℤ

-- A zero time is 0.
pub record ExecResult : Type 0 where
  pub run_id : Text
  pub status : Status
  pub started_at : ℕ
  pub ended_at : ℕ
  pub exit_code : ℤ

pub data ErrorCode : Type 0 where
  invalid_plan executable_changed start_failed output_limit sink_failed wait_failed : ErrorCode
