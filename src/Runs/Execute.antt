-- ===== src/Runs/Execute.antt =====
-- internal/runs/manager.go: `execute`. What the executor does is its input: the events that it hands
-- to the sink, its result, and its error, if any. `now` is the time of each call of the clock.
use cliharbor.Prelude.{
  ℕ, zero, suc, ◌-◌, Bool, true, false, not, ◌||◌, Option, none, some, List, [], ◌∷◌, ◌++◌, length,
  ltb, ◌==◌, if◌then◌else◌, is_some,
}
use cliharbor.Prelude.Int.{ℤ, pos, negsuc}
use cliharbor.Prelude.Text.{Text, lit, is_empty}
use cliharbor.Prelude.Dict.{lookup, insert}
use cliharbor.Go.{Go}
use cliharbor.Packs.{StructuredOutput}
use cliharbor.Planner.{Plan}
use cliharbor.AppError.{
  Detail, detail_for, tool_changed, output_limit, event_capacity, execution_failed,
}
use cliharbor.Executor.{
  ExecResult, EventType, run_started, stdout_chunk, stderr_chunk, run_exited, run_cancelled,
  run_timed_out, run_failed,
}
use cliharbor.Executor
use cliharbor.Structured.{
  Outcome, max_input_bytes, parse, unavailable_outcome, invalid_outcome, output_too_large,
  nonzero_exit, run_timed_out as structured_timed_out, run_cancelled as structured_cancelled,
  execution_failed as structured_failed,
}
use cliharbor.Audit.{AuditEvent, AuditSink}
use cliharbor.Runs.{
  Status, running, exited, cancelled, timed_out, failed, is_running, Record, Manager, Config, Guard,
}
use cliharbor.Runs.Events.{RecordError, event_capacity as run_capacity, inactive, record_event}

-- The errors that reach `classifyExecutionFailure`. An executor's error may wrap the sink's, which
-- `errors.Is` finds.
pub data RunFailure : Type 0 where
  recording : RecordError → RunFailure
  executing : Executor.ErrorCode → Option RecordError → RunFailure
  guarding : RunFailure

is_event_capacity : Option RecordError → Bool
is_event_capacity (some run_capacity) = true
is_event_capacity (some inactive) = false
is_event_capacity none = false

classify_code : Executor.ErrorCode → Detail
classify_code Executor.executable_changed = detail_for tool_changed
classify_code Executor.output_limit = detail_for output_limit
classify_code _ = detail_for execution_failed

unfoldable pub classify_execution_failure : RunFailure → Detail
unfolding is_event_capacity classify_code
classify_execution_failure (recording e) =
    if is_event_capacity (some e) then detail_for event_capacity else detail_for execution_failed
classify_execution_failure (executing c cause) =
    if is_event_capacity cause then detail_for event_capacity else classify_code c
classify_execution_failure guarding = detail_for execution_failed

unfoldable pub status_from_executor : Executor.Status → Status
status_from_executor Executor.exited = exited
status_from_executor Executor.cancelled = cancelled
status_from_executor Executor.timed_out = timed_out
status_from_executor Executor.failed = failed

-- Standard output held back for the guard.
pub record Quarantine : Type 0 where
  pub held : Text
  pub too_large : Bool

unfoldable pub hold : Quarantine → Text → Quarantine
hold q bytes =
    if ltb (max_input_bytes - length q.held) (length bytes)
    then record { held = []; too_large = true }
    else if not q.too_large
    then record q { held = q.held ++ bytes }
    else q

-- The sink given to the executor, with a guard: only the start event passes.
unfoldable pub guarded_event :
    {J : Type 0}
    → Manager J
    → Quarantine
    → Text
    → Executor.Event
    → EventType
    → Manager J × Quarantine
guarded_event m q run_id e run_started = ((record_event m run_id e).0, q)
guarded_event m q run_id e stdout_chunk = (m, hold q e.bytes)
guarded_event m q run_id e _ = (m, q)

-- The guard of a plan, if the manager has guards and the plan one of them.
unfoldable pub guard_of : Config → Plan → Option Guard
guard_of c plan = elim c.output_guard [ none ↦ none | some g ↦ g plan ]

unfoldable pub deliver :
    {J : Type 0}
    → Bool
    → Text
    → Manager J
    → Quarantine
    → List Executor.Event
    → Manager J × Quarantine
deliver guarded run_id m q [] = (m, q)
deliver false run_id m q (e ∷ rest) = deliver false run_id (record_event m run_id e).0 q rest
deliver true run_id m q (e ∷ rest) =
    let (m', q') = guarded_event m q run_id e e.kind in deliver true run_id m' q' rest

unfoldable pub is_clean_exit : Option RunFailure → ExecResult → Bool
is_clean_exit (some f) result = false
is_clean_exit none result = elim result.status [
  | Executor.exited ↦ elim result.exit_code [ pos n ↦ n == 0 | negsuc n ↦ false ]
  | _ ↦ false
]

abbrev failure_of : Option RecordError → Option RunFailure
failure_of none = none
failure_of (some e) = some (recording e)

abbrev first_failure : Option RunFailure → Option RecordError → Option RunFailure
first_failure (some f) e = some f
first_failure none e = failure_of e

-- What the guard approves is recorded as one event.
unfoldable pub release_held :
    {J : Type 0} → Manager J → Text → Guard → Quarantine → ℕ → Manager J × Option RunFailure
release_held m run_id guard q now =
    if q.too_large then (m, some guarding) else elim (guard q.held) [
      | none ↦ (m, some guarding)
      | some approved ↦
          let (m', e) = record_event m run_id (record {
            run_id = run_id;
            kind = stdout_chunk;
            timestamp = now;
            bytes = approved;
            exit_code = none;
          }) in
          if is_empty approved then (m, none) else (m', failure_of e)
    ]

terminal_type : Option RunFailure → Executor.Status → EventType
terminal_type (some f) s = run_failed
terminal_type none Executor.exited = run_exited
terminal_type none Executor.cancelled = run_cancelled
terminal_type none Executor.timed_out = run_timed_out
terminal_type none Executor.failed = run_failed

terminal_code : EventType → ℤ → Option ℤ
terminal_code run_exited n = some n
terminal_code _ n = none

-- The terminal event of a guarded run, with its exit code if it exited.
unfoldable pub record_terminal :
    {J : Type 0}
    → Manager J
    → Text
    → Option RunFailure
    → ExecResult
    → ℕ
    → Manager J × Option RunFailure
unfolding terminal_type terminal_code
record_terminal m run_id failure result now =
    let kind = terminal_type failure result.status in
    let (m', e) = record_event m run_id (record {
      run_id = run_id;
      kind = kind;
      timestamp = now;
      bytes = [];
      exit_code = terminal_code kind result.exit_code;
    }) in
    (m', first_failure failure e)

-- The block `if guard != nil` behind the run.
unfoldable pub finish_guarded :
    {J : Type 0}
    → Manager J
    → Text
    → Guard
    → Quarantine
    → Option RunFailure
    → ExecResult
    → ℕ
    → Manager J × Option RunFailure
finish_guarded m run_id guard q failure result now =
    if is_clean_exit failure result
    then (let (m', f) = release_held m run_id guard q now in record_terminal m' run_id f result now)
    else record_terminal m run_id failure result now

-- The structured result of a run whose plan declares one.
structured_value :
    Go → (ℕ → Bool) → Record → StructuredOutput → Option RunFailure → ExecResult → Outcome
structured_value go context r spec (some f) result =
    unavailable_outcome r.structured_renderer structured_failed
structured_value go context r spec none result = elim result.status [
  | Executor.cancelled ↦ unavailable_outcome r.structured_renderer structured_cancelled
  | Executor.timed_out ↦ unavailable_outcome r.structured_renderer structured_timed_out
  | Executor.failed ↦ unavailable_outcome r.structured_renderer structured_failed
  | Executor.exited ↦
      if not (elim result.exit_code [ pos n ↦ n == 0 | negsuc n ↦ false ])
      then unavailable_outcome r.structured_renderer nonzero_exit
      else if r.structured_too_large
      then invalid_outcome r.structured_renderer output_too_large
      else parse go context r.structured_stdout spec r.structured_renderer
]

unfoldable pub parsed_result :
    Go → (ℕ → Bool) → Record → Option RunFailure → ExecResult → Option Outcome
unfolding structured_value
parsed_result go context r failure result = elim r.structured_spec [
  | none ↦ none
  | some spec ↦ some (structured_value go context r spec failure result)
]

abbrev time_or_keep : ℕ → Option ℕ → Option ℕ
time_or_keep zero old = old
time_or_keep (suc t) old = some (suc t)

abbrev code_or_keep : Executor.Status → ℤ → Option ℤ → Option ℤ
code_or_keep Executor.exited n old = some n
code_or_keep _ n old = old

-- The two cases of the last `switch`.
unfoldable pub conclude : Record → Option RunFailure → ExecResult → ℕ → Record
conclude r (some f) result now = record r {
  status = failed;
  failure = some (classify_execution_failure f);
  ended_at = some now;
  exit_code = none;
}
conclude r none result now = record r {
  status = status_from_executor result.status;
  started_at = time_or_keep result.started_at r.started_at;
  ended_at = time_or_keep result.ended_at r.ended_at;
  exit_code = code_or_keep result.status result.exit_code r.exit_code;
}

-- What is left of a finished run: its result, and nothing of the parser's input.
unfoldable pub close_record : Record → Option Outcome → Record
close_record r parsed = record r {
  cancel_set = false;
  context_cancelled = true;
  structured_result = parsed;
  structured_spec = none;
  structured_renderer = [];
  structured_stdout = [];
  structured_too_large = false;
  signals = suc r.signals;
  is_done = true;
}

unfoldable pub status_text : Status → Text
status_text running = lit "running"
status_text exited = lit "exited"
status_text cancelled = lit "cancelled"
status_text timed_out = lit "timed-out"
status_text failed = lit "failed"

module _ {J : Type 0} (sink : AuditSink J) where
  unfoldable pub completed_event : Record → AuditEvent
  completed_event r = record {
    run_id = r.run_id;
    action = lit "completed";
    pack_id = [];
    command_id = [];
    risk = [];
    target_label = [];
    target = [];
    effect = [];
    scope = [];
    status = status_text r.status;
    exit_code = r.exit_code;
  }

  -- A completion that cannot be written blocks every later mutation.
  unfoldable pub log_completed : Manager J → Record → Manager J
  unfolding completed_event
  log_completed m r = elim m.audit [
    | none ↦ m
    | some j ↦
        let (j', logged) = sink.append j (completed_event r) in
        record m { audit = some j'; audit_failed = m.audit_failed || not logged }
  ]

  unfoldable pub settle_record :
      Manager J → Record → Option RunFailure → ExecResult → Option Outcome → ℕ → Manager J
  settle_record m r failure result parsed now =
      let done = conclude r failure result now in
      let logged = if r.audited then log_completed m done else m in
      record logged {
        active = m.active - 1;
        runs = insert r.run_id (close_record done parsed) logged.runs;
      }

  -- The last locked part of `execute`.
  unfoldable pub settle :
      Manager J → Text → Option RunFailure → ExecResult → Option Outcome → ℕ → Manager J
  settle m run_id failure result parsed now = elim (lookup run_id m.runs) [
    | none ↦ m
    | some r ↦ if is_running r.status then settle_record m r failure result parsed now else m
  ]

  abbrev pub release_waiter : Manager J → Manager J
  release_waiter m = record m { waiting = m.waiting - 1 }

  -- The rest of `execute` behind the guard's block.
  unfoldable pub complete :
      Go → (ℕ → Bool) → Manager J → Text → Option RunFailure → ExecResult → ℕ → Manager J
  complete go context m run_id failure result now = elim (lookup run_id m.runs) [
    | none ↦ release_waiter m
    | some r ↦
        release_waiter
          (settle m run_id failure result (parsed_result go context r failure result) now)
  ]

  -- `execute` with no other call between its parts.
  unfoldable pub execute :
      Go
      → (ℕ → Bool)
      → Manager J
      → Text
      → Plan
      → List Executor.Event
      → Option RunFailure
      → ExecResult
      → ℕ
      → Manager J
  execute go context m run_id plan events failure result now =
      let (m', q) =
        deliver (is_some (guard_of m.config plan)) run_id m
          (record { held = []; too_large = false }) events in
      elim (guard_of m.config plan) [
        | none ↦ complete go context m' run_id failure result now
        | some g ↦
            let (m'', failure') = finish_guarded m' run_id g q failure result now in
            complete go context m'' run_id failure' result now
      ]
