-- ===== src/Tests/Data.antt =====
-- A change plan, its approval, an audit sink that keeps its events in a list, and a manager.
use cliharbor.Prelude.{◌≡◌, refl, true, false, none, some, List, [], ◌∷◌}
use cliharbor.Prelude.Int.{pos}
use cliharbor.Prelude.Text.{Text, lit}
use cliharbor.Go.{Go, end_of_input}
use cliharbor.Packs.{unset, raw_output, single, change}
use cliharbor.Packs.Registry.{Registry}
use cliharbor.Discovery.{Snapshot}
use cliharbor.Planner.{Plan}
use cliharbor.Audit.{AuditEvent, AuditSink}
use cliharbor.Executor.{run_exited, run_started, stdout_chunk}
use cliharbor.Executor
use cliharbor.Approvals.{ApprovalRecord, ApprovalSubmission, explicit, typed, Digest}
use cliharbor.Approvals.Table.{Table}
use cliharbor.Runs.{Manager, Record, Request}
use cliharbor.Runs.New.{Options, with_defaults, fresh_manager}
use cliharbor.Runs.Start.{open_approval, admit, new_record}

abbrev pub run_id : Text
run_id = lit "00000000000000000000000000000001"

abbrev pub approval_id : Text
approval_id = lit "0000000000000000000000000000000a"

abbrev pub other_id : Text
other_id = lit "0000000000000000000000000000000b"

pub accepted : (e : AuditEvent) (j : List AuditEvent) → true ≡ false → (e ∷ j) ≡ j
accepted e j h = cc h

-- An accepting sink, whose journal is the list of its events.
abbrev pub list_sink : AuditSink (List AuditEvent)
list_sink = record {
  append = λ j e. (e ∷ j, true);
  recorded = λ j. j;
  append_success = λ j e h. refl;
  append_failure = λ j e h. accepted e j h;
}

abbrev pub change_plan : Plan
change_plan = record {
  pack_id = lit "terraform";
  pack_version = lit "1.0.0";
  command_id = lit "state-rm";
  tool_id = lit "terraform";
  executable_path = lit "/usr/bin/terraform";
  executable_name = lit "terraform";
  identity = record { info = some 1; size = 10; mod_time = 1; digest = lit "d" };
  tool_version = lit "1.9.0";
  args = lit "state" ∷ lit "rm" ∷ [];
  stdin = [];
  stdin_sensitive = false;
  risk = change;
  impact = some (record {
    target_label = lit "Resource";
    target = lit "null_resource.a";
    effect = lit "forgets a resource";
    scope = single;
  });
  output = record {
    mode = raw_output;
    renderer = lit "raw";
    structured = none;
    sensitivity = record {
      contains_secrets = false;
      persist_raw_output = false;
      reveal_by_default = false;
    };
  };
  requirements = record { requires_auth = false; auth_mode = unset };
}

abbrev pub options : Options
options = record {
  max_active = pos 1;
  max_retained = pos 2;
  timeout = pos 0;
  wait_delay = pos 0;
  chunk_bytes = pos 0;
  max_output_bytes_per_stream = pos 16;
  max_event_bytes_per_run = pos 200;
  approval_ttl = pos 100;
  max_approvals = pos 2;
  resolve_execution_context = none;
  output_guard = none;
}

abbrev pub registry : Registry
registry = record { packs = []; by_id = [] }

abbrev pub snapshot : Snapshot
snapshot = record { tools = []; by_ref = [] }

abbrev pub fingerprint : Text
fingerprint = lit "fingerprint"

abbrev pub open_record : ApprovalRecord
open_record = record {
  fingerprint = fingerprint;
  expires_at = 105;
  issued_at = 5;
  mode = explicit;
  required_text = [];
}

abbrev pub later_record : ApprovalRecord
later_record = record {
  fingerprint = lit "another";
  expires_at = 107;
  issued_at = 7;
  mode = typed;
  required_text = lit "delete";
}

abbrev pub submission : ApprovalSubmission
submission = record { id = approval_id; confirmation = [] }

abbrev pub table : Table
table = (other_id, later_record) ∷ (approval_id, open_record) ∷ []

-- Before anything happened, with an approval open, and with the run admitted.
abbrev pub first_manager : Manager (List AuditEvent)
first_manager = fresh_manager registry false snapshot (with_defaults options) (some [])

abbrev pub open_manager : Manager (List AuditEvent)
open_manager = (open_approval first_manager approval_id open_record 5).0

abbrev pub running_manager : Manager (List AuditEvent)
running_manager =
    (admit list_sink open_manager run_id change_plan fingerprint (some submission) 6).0

abbrev pub run_record : Record
run_record = new_record list_sink run_id change_plan

abbrev pub started_event : Executor.Event
started_event = record {
  run_id = run_id;
  kind = run_started;
  timestamp = 6;
  bytes = [];
  exit_code = none;
}

abbrev pub output_event : Executor.Event
output_event = record {
  run_id = run_id;
  kind = stdout_chunk;
  timestamp = 7;
  bytes = lit "removed";
  exit_code = none;
}

abbrev pub result : Executor.ExecResult
result = record {
  run_id = run_id;
  status = Executor.exited;
  started_at = 6;
  ended_at = 8;
  exit_code = pos 0;
}

abbrev pub digest : Digest
digest = λ p. some fingerprint

abbrev pub request : Request
request = record {
  pack_id = lit "terraform";
  command_id = lit "state-rm";
  values = [];
  approval = some submission;
}

-- ASCII only.
abbrev pub ascii_go : Go
ascii_go = record {
  valid_utf8 = λ t. true;
  trim_space = λ t. t;
  runes = λ t. t;
  is_control = λ r. false;
  is_format = λ r. false;
  decode_string = λ t. some (t, []);
  decode_int64 = λ t. none;
  decode_bool = λ t. none;
  decode_strings = λ t. none;
  json_rest = λ t. end_of_input;
  json_tokens = λ t. [];
  json_quote = λ t. t;
  format_int = λ n. [];
  match_pattern = λ p t. some true;
  split_placeholders = λ t. [];
}
