-- ===== src/Tests/HandlerWitnesses.antt =====
-- internal/runs/manager.go: a change that is previewed, started with its approval, and two guarded
-- processes of which the same is seen.
use cliharbor.Prelude.{◌≡◌, refl, true, false, some, List, [], ◌∷◌, arith}
use cliharbor.Prelude.Result.{ok}
use cliharbor.Prelude.Text.{lit, text_eq}
use cliharbor.Prelude.Dict.{lookup, insert, delete}
use cliharbor.Prelude.Sort.{mem_text}
use cliharbor.Go.{is_trimmed, safe_runes}
use cliharbor.Audit.{AuditEvent}
use cliharbor.Executor
use cliharbor.Executor.{stdout_chunk}
use cliharbor.Approvals.{
  ApprovalChallenge, ExecutionContext, explicit, requires_approval, approval_fingerprint,
  validate_execution_context, safe_context_text, valid_run_id,
}
use cliharbor.Approvals.Table.{consume, prune, issue, redeem}
use cliharbor.Runs.{Manager, Request, Guard}
use cliharbor.Runs.New.{Options, with_defaults, fresh_manager, new_manager}
use cliharbor.Runs.Retention.{make_room}
use cliharbor.Runs.Start.{
  PreviewResult, preview_of, open_approval, plan_request, execution_context_for, start, start_plan,
  start_fingerprint, admit, authorize, log_approved, accept, add_run, new_record,
}
use cliharbor.Runs.Invariant.{Inv}
use cliharbor.Runs.Machine.{Reach, Step, reachable-Inv}
use cliharbor.Runs.Started.{Started, start-Started}
use cliharbor.Tests.Data.{
  run_id, approval_id, fingerprint, list_sink, options, open_record, submission, ascii_go, digest,
  output_event,
}
use cliharbor.Tests.ValidationWitnesses.{packs, tools, remove_plan, planned}

abbrev context : ExecutionContext
context = record { fields = record { label = lit "Directory"; value = lit "w" } ∷ [] }

abbrev own_options : Options
own_options = record options {
  resolve_execution_context = some (λ plan. some context);
  output_guard = some (λ plan. some (λ t. some (lit "ok")));
}

abbrev first : Manager (List AuditEvent)
first = fresh_manager packs false tools (with_defaults own_options) (some [])

abbrev request : Request
request = record {
  pack_id = lit "tf";
  command_id = lit "rm";
  values = (lit "name", lit "a") ∷ [];
  approval = some submission;
}

abbrev challenge : ApprovalChallenge
challenge = record { id = approval_id; expires_at = 105; mode = explicit; required_text = [] }

abbrev shown : PreviewResult
shown = preview_of remove_plan (some context) (some challenge)

valid_context : validate_execution_context ascii_go context ≡ true
unfolding validate_execution_context safe_context_text is_trimmed safe_runes mem_text text_eq
valid_context = refl

resolved : execution_context_for ascii_go first.config remove_plan ≡ ok context
unfolding execution_context_for requires_approval fresh_manager with_defaults
resolved = rw valid_context refl

bound : start_fingerprint list_sink ascii_go digest first.config remove_plan ≡ ok fingerprint
unfolding start_fingerprint requires_approval approval_fingerprint
bound = rw resolved refl

abbrev ready : Manager (List AuditEvent)
ready = (open_approval first approval_id open_record 5).0

built : new_manager true false (some packs) tools own_options (some []) ≡ ok first
unfolding new_manager with_defaults
built = refl

good_approval_id : valid_run_id approval_id ≡ true
unfolding valid_run_id
good_approval_id = refl

ready_Inv : Inv ready
ready_Inv =
    reachable-Inv list_sink true false (some packs) tools own_options (some []) built
      (Reach.next Reach.here (Step.opens approval_id open_record 5 good_approval_id))

planned_by_ready : plan_request ascii_go ready ready.discovery request ≡ ok remove_plan
unfolding open_approval fresh_manager plan_request
planned_by_ready = ground (arith, planned)

bound_by_ready :
    start_fingerprint list_sink ascii_go digest ready.config remove_plan ≡ ok fingerprint
unfolding open_approval fresh_manager
bound_by_ready = bound

admitted :
    (admit list_sink ready run_id remove_plan fingerprint (some submission) 6).1
    ≡ ok (new_record list_sink run_id remove_plan)
unfolding admit authorize open_approval fresh_manager with_defaults lookup requires_approval consume
    valid_run_id prune issue redeem insert delete text_eq log_approved accept make_room add_run
admitted = refl

planned_start :
    (start_plan list_sink ascii_go digest ready remove_plan (some submission) (some run_id) 6).1
    ≡ ok (new_record list_sink run_id remove_plan)
unfolding start_plan valid_run_id
planned_start = ground (arith, bound_by_ready, admitted)

begun :
    (start list_sink ascii_go digest ready request (some run_id) 6).1
    ≡ ok (new_record list_sink run_id remove_plan)
unfolding start open_approval fresh_manager with_defaults
begun = ground (arith, planned_by_ready, planned_start)

start-Started_example :
    Started list_sink ascii_go digest ready request
      (some run_id)
      6
      (start list_sink ascii_go digest ready request (some run_id) 6).0
      (new_record list_sink run_id remove_plan)
start-Started_example =
    start-Started list_sink ascii_go digest ready request (some run_id) 6
      (new_record list_sink run_id remove_plan) ready_Inv begun

abbrev running : Manager (List AuditEvent)
running = (admit list_sink ready run_id remove_plan fingerprint (some submission) 6).0

abbrev secret_event : Executor.Event
secret_event = record output_event { bytes = lit "secret" }

abbrev guard : Guard
guard = λ t. some (lit "ok")
