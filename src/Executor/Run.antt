-- ===== src/Executor/Run.antt =====
-- internal/executor/executor.go: `Run`. What the process, the clock and the contexts do is its input.
use cliharbor.Prelude.{
  ℕ, Bool, true, false, not, ◌&&◌, ◌||◌, Option, none, some, List, [], ◌∷◌, if◌then◌else◌,
}
use cliharbor.Prelude.Int.{ℤ, pos, negsuc}
use cliharbor.Prelude.Result.{ok, err, ◌>>◌}
use cliharbor.Prelude.Text.{Text, is_empty}
use cliharbor.Host.{Host}
use cliharbor.Discovery.Files.{Files}
use cliharbor.Planner.{Plan}
use cliharbor.Executor.{
  Event, EventType, ExecResult, Status, ErrorCode, exited, cancelled, timed_out, failed,
  run_started, stdout_chunk, stderr_chunk, run_exited, run_cancelled, run_timed_out, run_failed,
  invalid_plan, start_failed, wait_failed,
}
use cliharbor.Executor.Writer.{Stream, Writer, emit, write}
use cliharbor.Executor.Plans.{validate_plan, revalidate_executable}

pub data ContextError : Type 0 where
  deadline_exceeded canceled : ContextError

-- `cmd.Wait`: no error; an exit error with its code; the delay of the output, with the code of the
-- process if it has ended; another error.
pub data Waited : Type 0 where
  clean_exit other_error : Waited
  exit_error : ℤ → Waited
  wait_delay : Option ℤ → Waited

-- One call of a stream's `Write`. The chunks of one call carry one time.
pub record Written : Type 0 where
  pub to_stdout : Bool
  pub bytes : Text
  pub time : ℕ

-- What happens around one run; `time` is the clock at the failures before the start.
pub record Script : Type 0 where
  pub new_run_id : Option Text
  pub ended_before : Option ContextError
  pub makes_dir : Bool
  pub controls : Bool
  pub configures : Bool
  pub starts : Bool
  pub attaches : Bool
  pub ended_at_start : Option ContextError
  pub time : ℕ
  pub started_at : ℕ
  pub writes : List Written
  pub waited : Waited
  pub closes : Bool
  pub ended_at : ℕ
  pub cancellation_applied : Bool
  pub run_context : Option ContextError
  pub context : Option ContextError

pub record Settings : Type 0 where
  pub chunk_bytes : ℕ
  pub max_output : ℕ

pub record Outcome (S : Type 0) : Type 0 where
  pub sink : S
  pub result : ExecResult
  pub error : Option ErrorCode

abbrev pub minus_one : ℤ
minus_one = negsuc 0

-- The zero `Result`; its status, the empty string, is `failed` here.
abbrev zero_result : ExecResult
zero_result = record {
  run_id = [];
  status = failed;
  started_at = 0;
  ended_at = 0;
  exit_code = pos 0;
}

abbrev pub result_of : Text → Status → ℕ → ℕ → ℤ → ExecResult
result_of run_id status started ended code = record {
  run_id = run_id;
  status = status;
  started_at = started;
  ended_at = ended;
  exit_code = code;
}

abbrev pub event_of : Text → EventType → ℕ → Text → Option ℤ → Event
event_of run_id kind time bytes code = record {
  run_id = run_id;
  kind = kind;
  timestamp = time;
  bytes = bytes;
  exit_code = code;
}

unfoldable pub status_for_context_error : ContextError → Status
status_for_context_error deadline_exceeded = timed_out
status_for_context_error canceled = cancelled

abbrev pub is_deadline : Option ContextError → Bool
is_deadline (some deadline_exceeded) = true
is_deadline _ = false

abbrev pub is_canceled : Option ContextError → Bool
is_canceled (some canceled) = true
is_canceled _ = false

-- The two writers, and whether each is still read: a failed write ends the copying of its stream.
pub record Pipes : Type 0 where
  pub out : Writer
  pub out_open : Bool
  pub problems : Writer
  pub problems_open : Bool

abbrev pub is_open : Option ErrorCode → Bool
is_open none = true
is_open (some c) = false

abbrev start_error : Script → Text → Status × Option ErrorCode
start_error script run_id = elim script.ended_at_start [
  | some e ↦ (status_for_context_error e, none)
  | none ↦ (failed, some start_failed)
]

abbrev pub exit_code_of : Waited → Option ℤ
exit_code_of clean_exit = some (pos 0)
exit_code_of (exit_error code) = some code
exit_code_of (wait_delay (some code)) = some code
exit_code_of (wait_delay none) = none
exit_code_of other_error = none

abbrev pub new_pipes : Settings → Pipes
new_pipes settings = record {
  out = record {
    kind = stdout_chunk;
    chunk_bytes = settings.chunk_bytes;
    max_bytes = settings.max_output;
    total = 0;
  };
  out_open = true;
  problems = record {
    kind = stderr_chunk;
    chunk_bytes = settings.chunk_bytes;
    max_bytes = settings.max_output;
    total = 0;
  };
  problems_open = true;
}

module _ {S : Type 0} (deliver : S → Event → S × Bool) where
  unfoldable pub write_out : Text → Pipes → Stream S → Written → Pipes × Stream S
  write_out run_id p s w =
      if w.to_stdout
      then (if p.out_open
          then (let (out', s', failure) =
                write deliver p.out (λ b. event_of run_id stdout_chunk w.time b none) s w.bytes in
              (record p { out = out'; out_open = is_open failure }, s'))
          else (p, s))
      else (if p.problems_open
          then (let (problems', s', failure) =
                write deliver p.problems (λ b. event_of run_id stderr_chunk w.time b none) s
                  w.bytes in
              (record p { problems = problems'; problems_open = is_open failure }, s'))
          else (p, s))

  unfoldable pub write_outs : Text → Pipes → Stream S → List Written → Stream S
  write_outs run_id p s [] = s
  write_outs run_id p s (w ∷ rest) =
      let (p', s') = write_out run_id p s w in write_outs run_id p' s' rest

  -- The last event that the executor sends whether or not it is taken, and the result.
  abbrev closing : Text → Script → Stream S → EventType → Status → Option ErrorCode → Outcome S
  closing run_id script s kind status error = record {
    sink = (emit deliver s (event_of run_id kind script.ended_at [] none)).0.sink;
    result = result_of run_id status script.started_at script.ended_at minus_one;
    error = error;
  }

  unfoldable pub exit_with : Text → Script → Stream S → ℤ → Outcome S
  exit_with run_id script s code =
      let (s', refused) =
        emit deliver s (event_of run_id run_exited script.ended_at [] (some code)) in
      elim refused [
        | some c ↦ record {
          sink = s'.sink;
          result = result_of run_id failed script.started_at script.ended_at code;
          error = some c;
        }
        | none ↦ record {
          sink = s'.sink;
          result = result_of run_id exited script.started_at script.ended_at code;
          error = none;
        }
      ]

  -- A process that was not cancelled: by its exit code.
  unfoldable pub judge_exit : Text → Script → Stream S → Outcome S
  unfolding exit_with
  judge_exit run_id script s = elim (exit_code_of script.waited) [
    | none ↦ closing run_id script s run_failed failed (some wait_failed)
    | some code ↦ exit_with run_id script s code
  ]

  -- Behind `cmd.Wait`.
  unfoldable pub after_wait : Text → Script → Stream S → Outcome S
  unfolding judge_exit
  after_wait run_id script s = elim s.first [
    | some c ↦ record {
      sink = s.sink;
      result = result_of run_id failed script.started_at script.ended_at minus_one;
      error = some c;
    }
    | none ↦
        if not script.closes
        then record {
          sink = s.sink;
          result = result_of run_id failed script.started_at script.ended_at minus_one;
          error = some wait_failed;
        }
        else if script.cancellation_applied && is_deadline script.run_context
        then closing run_id script s run_timed_out timed_out none
        else if script.cancellation_applied
            && (is_canceled script.run_context || is_canceled script.context)
        then closing run_id script s run_cancelled cancelled none
        else judge_exit run_id script s
  ]

  abbrev stopped : S → Text → Status → ℕ → Option ErrorCode → Outcome S
  stopped sink run_id status time error = record {
    sink = sink;
    result = result_of run_id status time time minus_one;
    error = error;
  }

  -- A process that is running and attached.
  unfoldable pub run_started_process : Settings → Script → Text → S → Outcome S
  unfolding after_wait write_outs
  run_started_process settings script run_id sink =
      let fresh : Stream S = record { sink = sink; first = none; cancels = 0 } in
      let (s, refused) =
        emit deliver fresh (event_of run_id run_started script.started_at [] none) in
      elim refused [
        | some c ↦ record {
          sink = s.sink;
          result = result_of run_id failed script.started_at script.ended_at minus_one;
          error = some c;
        }
        | none ↦ after_wait run_id script (write_outs run_id (new_pipes settings) s script.writes)
      ]

  -- `controller.afterStart` failed: the gate is closed, so the process is still read until its end,
  -- though no start was sent.
  unfoldable pub unattached : Settings → Script → Text → S → Outcome S
  unfolding write_outs
  unattached settings script run_id sink =
      let fresh : Stream S = record { sink = sink; first = none; cancels = 0 } in
      stopped (write_outs run_id (new_pipes settings) fresh script.writes).sink run_id
        (start_error script run_id).0 script.time (start_error script run_id).1

  -- From the run's identifier to the start of the process.
  unfoldable pub launch : Settings → Script → Text → S → Outcome S
  unfolding run_started_process unattached
  launch settings script run_id sink = elim script.ended_before [
    | some e ↦ stopped sink run_id (status_for_context_error e) script.time none
    | none ↦
        if not script.makes_dir
        then record { sink = sink; result = zero_result; error = some start_failed }
        else if not script.controls
        then stopped sink run_id failed 0 (some start_failed)
        else if not script.configures
        then stopped sink run_id failed script.time (some start_failed)
        else if not script.starts
        then stopped sink run_id (start_error script run_id).0 script.time
            (start_error script run_id).1
        else if not script.attaches
        then unattached settings script run_id sink
        else run_started_process settings script run_id sink
  ]

  unfoldable pub run : Host → Text → Files → Settings → Script → Plan → S → Outcome S
  unfolding launch
  run host goos files settings script plan sink =
      elim (validate_plan host plan >> revalidate_executable host goos files plan) [
        | err c ↦ record { sink = sink; result = zero_result; error = some c }
        | ok u ↦ elim script.new_run_id [
          | none ↦ record { sink = sink; result = zero_result; error = some invalid_plan }
          | some run_id ↦
              if is_empty run_id
              then record { sink = sink; result = zero_result; error = some invalid_plan }
              else launch settings script run_id sink
        ]
      ]
