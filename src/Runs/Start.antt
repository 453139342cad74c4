-- ===== src/Runs/Start.antt =====
-- internal/runs/manager.go: `Preview` and `Start`, with the parts of internal/runs/approval.go that
-- need the manager. Random identifiers, the time and the resolved context enter as arguments; each
-- part that the code runs under the lock is a function of its own.
use cliharbor.Prelude.{
  ℕ, suc, ◌+◌, true, false, not, ◌||◌, Option, none, some, List, [], ◌∷◌, ◌++◌, length, leb,
  if◌then◌else◌, is_some,
}
use cliharbor.Prelude.Result.{Result, ok, err, ◌>>=◌, ◌>>◌, fail_if, or_fail}
use cliharbor.Prelude.Text.{Text, lit}
use cliharbor.Prelude.Dict.{lookup, insert}
use cliharbor.Go.{Go}
use cliharbor.Packs.{Risk}
use cliharbor.Discovery.{Snapshot}
use cliharbor.Planner.{
  Plan, PlanError, unknown_pack, unknown_command, unknown_input, missing_input, invalid_input,
  stale_discovery, risk_policy, auth_policy, output_policy, invalid_plan_state, MutationImpact,
}
use cliharbor.Planner
use cliharbor.Planner.Build.{build}
use cliharbor.Audit.{AuditEvent, AuditSink, risk_text, scope_text}
use cliharbor.Approvals.{
  ApprovalChallenge, ApprovalSubmission, ApprovalRecord, ExecutionContext, Digest,
  requires_approval, approval_requirement, approval_fingerprint, validate_execution_context,
  valid_run_id,
}
use cliharbor.Approvals.Table.{issue, consume}
use cliharbor.Runs.{
  Manager, Record, Request, Config, running, Error, ErrorCode, coded, internal, invalid_request,
  tool_unavailable, tool_changed, policy_blocked, context_unavailable, approval_required, capacity,
  closed, audit_unavailable, build_plan, fingerprint_approval, generate_approval_id,
  generate_run_id, duplicate_run_id,
}
use cliharbor.Runs.Retention.{make_room}

abbrev pub failed_with : ErrorCode → Error
failed_with c = coded c []

unfoldable pub classify_planner_error : PlanError → Error
classify_planner_error e = elim e.code [
  | unknown_pack ↦ coded invalid_request e.path
  | unknown_command ↦ coded invalid_request e.path
  | unknown_input ↦ coded invalid_request e.path
  | missing_input ↦ coded invalid_request e.path
  | invalid_input ↦ coded invalid_request e.path
  | Planner.tool_unavailable ↦ failed_with tool_unavailable
  | stale_discovery ↦ failed_with tool_changed
  | risk_policy ↦ failed_with policy_blocked
  | auth_policy ↦ failed_with policy_blocked
  | output_policy ↦ failed_with policy_blocked
  | invalid_plan_state ↦ internal build_plan
]

unfoldable pub plan_request : {J : Type 0} → Go → Manager J → Snapshot → Request → Result Error Plan
plan_request go m snapshot r =
    elim (build go (some m.registry) snapshot
      (record { pack_id = r.pack_id; command_id = r.command_id; values = r.values })) [
        | ok plan ↦ ok plan
        | err e ↦ err (classify_planner_error e)
      ]

abbrev no_context : ExecutionContext
no_context = record { fields = [] }

-- `executionContextFor`
unfoldable pub execution_context_for : Go → Config → Plan → Result Error ExecutionContext
execution_context_for go c plan = if not (requires_approval plan) then ok no_context else (do
  resolve ← or_fail c.resolve_execution_context (failed_with context_unavailable)
  context ← or_fail (resolve plan) (failed_with context_unavailable)
  fail_if (not (validate_execution_context go context)) (failed_with context_unavailable)
  ok context)

-- The locked part of `issueApproval`.
unfoldable pub open_approval :
    {J : Type 0} → Manager J → Text → ApprovalRecord → ℕ → Manager J × Option Error
open_approval m id r now =
    if m.is_closed || m.context_done
    then (m, some (failed_with closed))
    else (record m { approvals = issue m.config.max_approvals now id r m.approvals }, none)

unfoldable pub issue_approval :
    {J : Type 0}
    → Digest
    → Manager J
    → Plan
    → ExecutionContext
    → Option Text
    → ℕ
    → Manager J × Result Error ApprovalChallenge
issue_approval digest m plan context new_id now = elim (approval_requirement plan) [
  | none ↦ (m, err (failed_with policy_blocked))
  | some (mode, text) ↦ elim (approval_fingerprint digest plan context) [
    | none ↦ (m, err (internal fingerprint_approval))
    | some fingerprint ↦ elim new_id [
      | none ↦ (m, err (internal generate_approval_id))
      | some id ↦
          let expiry : ℕ = now + m.config.approval_ttl in
          let r : ApprovalRecord = record {
            fingerprint = fingerprint;
            expires_at = expiry;
            issued_at = now;
            mode = mode;
            required_text = text;
          } in
          let (m', failure) = open_approval m id r now in
          if not (valid_run_id id) then (m, err (internal generate_approval_id)) else elim failure [
            | some e ↦ (m, err e)
            | none ↦ (
              m',
              ok (record { id = id; expires_at = expiry; mode = mode; required_text = text }),
            )
          ]
    ]
  ]
]

-- `Preview`: what of a plan is shown, without the executable's path and identity.
pub record PreviewResult : Type 0 where
  pub pack_id : Text
  pub command_id : Text
  pub tool_id : Text
  pub tool_version : Text
  pub executable_name : Text
  pub args : List Text
  pub stdin : Text
  pub risk : Risk
  pub impact : Option MutationImpact
  pub context : Option ExecutionContext
  pub approval : Option ApprovalChallenge

abbrev pub preview_of : Plan → Option ExecutionContext → Option ApprovalChallenge → PreviewResult
preview_of plan context approval = record {
  pack_id = plan.pack_id;
  command_id = plan.command_id;
  tool_id = plan.tool_id;
  tool_version = plan.tool_version;
  executable_name = plan.executable_name;
  args = plan.args;
  stdin = if plan.stdin_sensitive then [] else plan.stdin;
  risk = plan.risk;
  impact = plan.impact;
  context = context;
  approval = approval;
}

unfoldable pub preview_plan :
    {J : Type 0}
    → Go
    → Digest
    → Manager J
    → Plan
    → Option Text
    → ℕ
    → Manager J × Result Error PreviewResult
preview_plan go digest m plan new_id now =
    if requires_approval plan
    then elim (execution_context_for go m.config plan) [
      | err e ↦ (m, err e)
      | ok context ↦
          let (m', issued) = issue_approval digest m plan context new_id now in
          elim issued [
            | err e ↦ (m', err e)
            | ok challenge ↦ (m', ok (preview_of plan (some context) (some challenge)))
          ]
    ]
    else (m, ok (preview_of plan none none))

unfoldable pub preview :
    {J : Type 0}
    → Go
    → Digest
    → Manager J
    → Request
    → Option Text
    → ℕ
    → Manager J × Result Error PreviewResult
preview go digest m r new_id now =
    if m.is_closed || m.context_done
    then (m, err (failed_with closed))
    else elim (plan_request go m m.discovery r) [
      | err e ↦ (m, err e)
      | ok plan ↦ preview_plan go digest m plan new_id now
    ]

module _ {J : Type 0} (sink : AuditSink J) where
  unfoldable pub approved_event : Text → Plan → MutationImpact → AuditEvent
  approved_event run_id plan impact = record {
    run_id = run_id;
    action = lit "approved";
    pack_id = plan.pack_id;
    command_id = plan.command_id;
    risk = risk_text plan.risk;
    target_label = impact.target_label;
    target = impact.target;
    effect = impact.effect;
    scope = scope_text impact.scope;
    status = [];
    exit_code = none;
  }

  -- The audit record comes first: where it cannot be written nothing starts, now or later.
  unfoldable pub log_approved : Manager J → J → AuditEvent → Manager J × Option Error
  log_approved m j e =
      let (j', logged) = sink.append j e in
      if logged
      then (record m { audit = some j' }, none)
      else (record m { audit = some j'; audit_failed = true }, some (failed_with audit_unavailable))

  -- The block `if requiresApproval(plan)` of `Start`.
  unfoldable pub authorize :
      Manager J → Text → Plan → Text → Option ApprovalSubmission → ℕ → Manager J × Option Error
  unfolding approved_event log_approved
  authorize m run_id plan fingerprint submission now =
      if not (requires_approval plan)
      then (m, none)
      else if m.audit_failed
      then (m, some (failed_with audit_unavailable))
      else elim m.audit [
        | none ↦ (m, some (failed_with audit_unavailable))
        | some j ↦
            let (table, granted) = consume fingerprint submission now m.approvals in
            let spent : Manager J = record m { approvals = table } in
            if not granted
            then (spent, some (failed_with approval_required))
            else elim plan.impact [
              | none ↦ (spent, some (failed_with policy_blocked))
              | some impact ↦ log_approved spent j (approved_event run_id plan impact)
            ]
      ]

  unfoldable pub new_record : Text → Plan → Record
  new_record run_id plan = record {
    run_id = run_id;
    pack_id = plan.pack_id;
    command_id = plan.command_id;
    tool_id = plan.tool_id;
    tool_version = plan.tool_version;
    status = running;
    started_at = none;
    ended_at = none;
    exit_code = none;
    events = [];
    event_bytes = 0;
    next_seq = 0;
    cancel_set = true;
    context_cancelled = false;
    is_done = false;
    signals = 0;
    structured_spec = plan.output.structured;
    structured_renderer = plan.output.renderer;
    structured_stdout = [];
    structured_too_large = false;
    structured_result = none;
    failure = none;
    audited = requires_approval plan;
  }

  unfoldable pub add_run : Manager J → Record → Manager J
  add_run m r = record m {
    runs = insert r.run_id r m.runs;
    order = m.order ++ r.run_id ∷ [];
    active = suc m.active;
    waiting = suc m.waiting;
  }

  -- Room is made only once the run is accepted.
  unfoldable pub accept : Manager J → Text → Plan → Manager J × Result Error Record
  unfolding new_record add_run
  accept m run_id plan =
      let (roomy, room) = make_room (length m.order) m in
      if room
      then (add_run roomy (new_record run_id plan), ok (new_record run_id plan))
      else (roomy, err (failed_with capacity))

  -- The second locked part of `Start`.
  unfoldable pub admit :
      Manager J
      → Text
      → Plan
      → Text
      → Option ApprovalSubmission
      → ℕ
      → Manager J × Result Error Record
  admit m run_id plan fingerprint submission now =
      if m.is_closed || m.context_done
      then (m, err (failed_with closed))
      else if leb m.config.max_active m.active
      then (m, err (failed_with capacity))
      else if is_some (lookup run_id m.runs)
      then (m, err (internal duplicate_run_id))
      else (let (m', refused) = authorize m run_id plan fingerprint submission now in
          elim refused [ some e ↦ (m', err e) | none ↦ accept m' run_id plan ])

  -- The fingerprint of a plan that needs an approval; any other plan has the zero value.
  unfoldable pub start_fingerprint : Go → Digest → Config → Plan → Result Error Text
  start_fingerprint go digest c plan = if not (requires_approval plan) then ok [] else (do
    context ← execution_context_for go c plan
    or_fail (approval_fingerprint digest plan context) (internal fingerprint_approval))

  unfoldable pub start_plan :
      Go
      → Digest
      → Manager J
      → Plan
      → Option ApprovalSubmission
      → Option Text
      → ℕ
      → Manager J × Result Error Record
  start_plan go digest m plan submission new_id now =
      elim (start_fingerprint go digest m.config plan) [
        | err e ↦ (m, err e)
        | ok fingerprint ↦ elim new_id [
          | none ↦ (m, err (internal generate_run_id))
          | some run_id ↦
              if not (valid_run_id run_id)
              then (m, err (internal generate_run_id))
              else admit m run_id plan fingerprint submission now
        ]
      ]

  -- `Start` with no other call between its two locked parts.
  unfoldable pub start :
      Go → Digest → Manager J → Request → Option Text → ℕ → Manager J × Result Error Record
  start go digest m r new_id now =
      if m.is_closed || m.context_done
      then (m, err (failed_with closed))
      else if leb m.config.max_active m.active
      then (m, err (failed_with capacity))
      else elim (plan_request go m m.discovery r) [
        | err e ↦ (m, err e)
        | ok plan ↦ start_plan go digest m plan r.approval new_id now
      ]
