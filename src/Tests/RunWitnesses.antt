-- ===== src/Tests/RunWitnesses.antt =====
-- internal/runs/manager.go: one change, approved, admitted and run to its end.
use cliharbor.Prelude.{
  suc, ◌^◌, ◌≤◌, ◌<◌, ◌≡◌, ◌⊎◌, refl, true, false, Option, none, some, List, [], ◌∷◌, ◌++◌, take,
  length, arith,
}
use cliharbor.Prelude.Result.{ok}
use cliharbor.Prelude.Text.{lit, text_eq}
use cliharbor.Prelude.Dict.{lookup, insert}
use cliharbor.Audit.{AuditEvent}
use cliharbor.Executor.{run_started, stdout_chunk}
use cliharbor.Approvals.{valid_run_id, requires_approval}
use cliharbor.Approvals.Table.{prune, issue, consume}
use cliharbor.Runs.{Manager, Event, is_running}
use cliharbor.Runs.New.{with_defaults, fresh_manager, new_manager}
use cliharbor.Runs.Retention.{make_room}
use cliharbor.Runs.Events.{append_event, clone_events_after}
use cliharbor.Runs.Start.{open_approval, admit, authorize, accept, new_record}
use cliharbor.Runs.Execute.{settle}
use cliharbor.Runs.Room.{RunsInv, Roomy, make_room-Roomy}
use cliharbor.Runs.Approved.{Answered, authorize-Answered}
use cliharbor.Runs.Admission.{Admitted, Refused, admit-outcome}
use cliharbor.Runs.Invariant.{Inv}
use cliharbor.Runs.Machine.{Reach, Step, reachable-Inv}
use cliharbor.Runs.Logged.{AllLogged}
use cliharbor.Runs.Evidence.{reachable-AllLogged}
use cliharbor.Runs.EventLog.{
  LogInv, logged_at, append_event-LogInv, append_event-lifecycle, clone_events_after_complete,
}
use cliharbor.Tests.Data.{
  run_id, approval_id, fingerprint, list_sink, options, registry, snapshot, change_plan,
  open_record, submission, first_manager, open_manager, running_manager, run_record, started_event,
  output_event, result,
}

abbrev no_entries : Option (List AuditEvent)
no_entries = some []

built : new_manager true false (some registry) snapshot options no_entries ≡ ok first_manager
unfolding new_manager with_defaults
built = refl

good_run_id : valid_run_id run_id ≡ true
unfolding valid_run_id
good_run_id = refl

good_approval_id : valid_run_id approval_id ≡ true
unfolding valid_run_id
good_approval_id = refl

to_running : Reach list_sink first_manager running_manager
to_running =
    Reach.next (Reach.next Reach.here (Step.opens approval_id open_record 5 good_approval_id))
      (Step.admits run_id change_plan fingerprint (some submission) 6 good_run_id)

abbrev ended_manager : Manager (List AuditEvent)
ended_manager = settle list_sink running_manager run_id none result none 9

history : Reach list_sink first_manager ended_manager
history = Reach.next to_running (Step.settles run_id none result none 9)

reachable-Inv_example : Inv ended_manager
reachable-Inv_example =
    reachable-Inv list_sink true false (some registry) snapshot options no_entries built history

reachable-AllLogged_example : AllLogged list_sink ended_manager
reachable-AllLogged_example =
    reachable-AllLogged list_sink true false (some registry) snapshot options no_entries built
      history

open_Inv : Inv open_manager
open_Inv =
    reachable-Inv list_sink true false (some registry) snapshot options no_entries built
      (Reach.next Reach.here (Step.opens approval_id open_record 5 good_approval_id))

authorize-Answered_example :
    Answered list_sink open_manager run_id change_plan fingerprint
      (some submission)
      6
      (authorize list_sink open_manager run_id change_plan fingerprint (some submission) 6)
authorize-Answered_example =
    authorize-Answered list_sink open_manager run_id change_plan fingerprint (some submission) 6
      open_Inv.table

admit-outcome_example :
    Admitted list_sink open_manager run_id change_plan fingerprint
      (some submission)
      6
      open_Inv
      (admit list_sink open_manager run_id change_plan fingerprint (some submission) 6)
    ⊎ Refused list_sink open_manager run_id change_plan fingerprint
        (some submission)
        6
        open_Inv
        (admit list_sink open_manager run_id change_plan fingerprint (some submission) 6)
admit-outcome_example =
    admit-outcome list_sink open_manager run_id change_plan fingerprint (some submission) 6 open_Inv

empty_log : LogInv 200 run_record
unfolding new_record
empty_log = record { numbered = tt; counted = refl; charged = refl; within = omega arith }

few : suc run_record.next_seq < 2 ^ 64
unfolding new_record
few = omega arith

append_event-LogInv_example : LogInv 200 (append_event 200 run_record output_event).0
append_event-LogInv_example =
    append_event-LogInv 200 run_record output_event (omega arith) (omega arith) few empty_log

live : is_running run_record.status ≡ true
unfolding new_record
live = refl

append_event-lifecycle_example :
    ((append_event 200 run_record started_event).1 ≡ none)
    × ((append_event 200 run_record started_event).0.events ≡ [] ++ logged_at 1 started_event ∷ [])
    × ((append_event 200 run_record started_event).0.event_bytes ≡ 0)
unfolding new_record
append_event-lifecycle_example =
    append_event-lifecycle 200 run_record started_event (omega arith) few empty_log live refl

abbrev two_events : List Event
two_events =
    record { sequence = 1; kind = run_started; timestamp = 6; payload = []; exit_code = none }
    ∷ record {
      sequence = 2;
      kind = stdout_chunk;
      timestamp = 7;
      payload = lit "removed";
      exit_code = none;
    }
    ∷ []

clone_events_after_complete_example :
    take 1 two_events ++ clone_events_after two_events 1 ≡ two_events
clone_events_after_complete_example = clone_events_after_complete two_events 1 (refl, (refl, tt))

running_runs : RunsInv running_manager.runs running_manager.order running_manager.active
running_runs =
    (reachable-Inv list_sink true false (some registry) snapshot options no_entries built
      to_running).runs

slots : running_manager.active < running_manager.config.max_retained
unfolding admit authorize open_approval fresh_manager with_defaults lookup requires_approval consume
    valid_run_id prune issue insert text_eq accept make_room
slots = omega arith

rounds : length running_manager.order ≤ 1
unfolding admit authorize open_approval fresh_manager with_defaults lookup requires_approval consume
    valid_run_id prune issue insert text_eq accept make_room
rounds = omega arith

make_room-Roomy_example :
    ((make_room 1 running_manager).1 ≡ true) × Roomy running_manager (make_room 1 running_manager).0
make_room-Roomy_example = make_room-Roomy 1 running_manager running_runs slots rounds
