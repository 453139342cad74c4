-- ===== src/Runs/Events.antt =====
-- internal/runs/manager.go: `recordEvent` and `cloneEventsAfter`. Counters keep their 64-bit
-- wrap-around.
use cliharbor.Prelude.{
  ℕ, suc, ◌-◌, Bool, true, false, not, ◌&&◌, Option, none, some, List, [], ◌∷◌, ◌++◌, length, ltb,
  leb, if◌then◌else◌, is_none, is_some,
}
use cliharbor.Prelude.Int.{add64, signed_lt64}
use cliharbor.Prelude.Text.{Text, is_empty}
use cliharbor.Prelude.Dict.{lookup, insert}
use cliharbor.Executor.{EventType, run_started, stdout_chunk}
use cliharbor.Executor
use cliharbor.Structured.{max_input_bytes}
use cliharbor.Runs.{Event, Record, Manager, is_running}

abbrev pub event_overhead_bytes : ℕ
event_overhead_bytes = 64

pub data RecordError : Type 0 where
  inactive event_capacity : RecordError

abbrev pub is_stdout : EventType → Bool
is_stdout stdout_chunk = true
is_stdout _ = false

abbrev pub is_started : EventType → Bool
is_started run_started = true
is_started _ = false

-- What an event is charged: its payload and the overhead, or nothing without a payload.
abbrev pub charge : Text → ℕ
charge bytes = if is_empty bytes then 0 else add64 (length bytes) event_overhead_bytes

-- Standard output is also kept for the structured parser, up to its limit.
unfoldable pub keep_stdout : Record → Executor.Event → Record
keep_stdout r e =
    if is_some r.structured_spec
      && (is_stdout e.kind && (not (is_empty e.bytes) && not r.structured_too_large))
    then if ltb (max_input_bytes - length r.structured_stdout) (length e.bytes)
      then record r { structured_too_large = true; structured_stdout = [] }
      else record r { structured_stdout = r.structured_stdout ++ e.bytes }
    else r

-- The event in the run's log, the charge, and the signal to those who wait.
unfoldable pub store_event : Record → Executor.Event → Record
store_event r e = record r {
  next_seq = add64 r.next_seq 1;
  events =
      r.events
      ++ record {
        sequence = add64 r.next_seq 1;
        kind = e.kind;
        timestamp = e.timestamp;
        payload = e.bytes;
        exit_code = e.exit_code;
      }
        ∷ [];
  event_bytes = if is_empty e.bytes then r.event_bytes else add64 r.event_bytes (charge e.bytes);
  signals = suc r.signals;
  started_at = if is_started e.kind && is_none r.started_at then some e.timestamp else r.started_at;
}

-- `recordEvent` on a record that is still running.
unfoldable pub append_event : ℕ → Record → Executor.Event → Record × Option RecordError
append_event max_event_bytes r e =
    if not (is_running r.status)
    then (r, some inactive)
    else if signed_lt64 max_event_bytes (add64 r.event_bytes (charge e.bytes))
    then (r, some event_capacity)
    else (store_event (keep_stdout r e) e, none)

-- A run that is no longer in the map has finished: only finished runs are evicted.
unfoldable pub record_event :
    {J : Type 0} → Manager J → Text → Executor.Event → Manager J × Option RecordError
record_event m run_id e = elim (lookup run_id m.runs) [
  | none ↦ (m, some inactive)
  | some r ↦
      let (r', error) = append_event m.config.max_event_bytes_per_run r e in
      (record m { runs = insert run_id r' m.runs }, error)
]

-- The loop of `cloneEventsAfter` skips the events up to the cursor.
unfoldable pub clone_events_after : List Event → ℕ → List Event
clone_events_after [] after = []
clone_events_after (e ∷ rest) after =
    let later = clone_events_after rest after in if leb e.sequence after then later else e ∷ rest
