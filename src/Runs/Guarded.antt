-- ===== src/Runs/Guarded.antt =====
-- internal/runs/manager.go: what of a guarded process reaches the manager.
use cliharbor.Prelude.{
  ◌≤◌, ◌<◌, ◌≡◌, ◌⊎◌, true, false, Option, none, some, List, [], ◌∷◌, ◌++◌, length, ltb, ◌==◌,
  if◌then◌else◌,
}
use cliharbor.Prelude.Int.{pos, negsuc}
use cliharbor.Prelude.Text.{Text}
use cliharbor.Go.{Go}
use cliharbor.Executor.{ExecResult, EventType, run_started, stdout_chunk}
use cliharbor.Executor
use cliharbor.Structured.{max_input_bytes}
use cliharbor.Runs.{Manager, Guard}
use cliharbor.Runs.Events.{record_event}
use cliharbor.Runs.Execute.{RunFailure, Quarantine}

abbrev starts_of : EventType → Executor.Event → List Executor.Event
starts_of run_started e = e ∷ []
starts_of _ e = []

-- The start events of a process.
abbrev pub starts : List Executor.Event → List Executor.Event
starts [] = []
starts (e ∷ es) = starts_of e.kind e ++ starts es

abbrev output_of : EventType → Text → Text
output_of stdout_chunk b = b
output_of _ b = []

-- All that a process wrote to its standard output.
abbrev pub stdout_of : List Executor.Event → Text
stdout_of [] = []
stdout_of (e ∷ es) = output_of e.kind e.bytes ++ stdout_of es

-- What the guard lets through of a text: nothing of one above the limit of the parser.
abbrev pub released : Guard → Text → Option Text
released g t = if ltb max_input_bytes (length t) then none else g t

-- What may be seen of the standard output of a guarded run: of a run that exited with 0, what the
-- guard lets through, and nothing of any other.
abbrev pub visible : Guard → Option RunFailure → ExecResult → List Executor.Event → Option Text
visible g failure result es = elim failure [
  | some f ↦ none
  | none ↦ elim result.status [
    | Executor.exited ↦ elim result.exit_code [
      | pos n ↦ if n == 0 then released g (stdout_of es) else none
      | negsuc n ↦ none
    ]
    | _ ↦ none
  ]
]

abbrev Held : Text → Quarantine → Type 0
Held t q =
    ((q.too_large ≡ false) × (q.held ≡ t) × (length t ≤ max_input_bytes))
    ⊎ ((q.too_large ≡ true) × (max_input_bytes < length t))

-- The guard's answer on what was held back.
abbrev answer_of : Guard → Quarantine → Option Text
answer_of g q = if q.too_large then none else g q.held

module _ {J : Type 0} where
  abbrev record_all : Text → Manager J → List Executor.Event → Manager J
  record_all id m [] = m
  record_all id m (e ∷ es) = record_all id (record_event m id e).0 es
