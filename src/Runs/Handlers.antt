-- ===== src/Runs/Handlers.antt =====
-- The whole handlers `Start`, `Preview` and `execute` are runs of the machine, so its invariants
-- hold after each.
use cliharbor.Prelude.{
  ℕ, ◌+◌, ◌≡◌, refl, subst, ◌⊎◌, inl, inr, Bool, true, false, ◌||◌, Option, none, List, [], ◌∷◌,
  leb, arith, Bool-cases, Option-cases,
}
use cliharbor.Prelude.Result.{Result, ok, err}
use cliharbor.Prelude.Text.{Text, is_empty}
use cliharbor.Prelude.Dict.{lookup}
use cliharbor.Go.{Go}
use cliharbor.Planner.{Plan}
use cliharbor.Audit.{AuditSink}
use cliharbor.Executor.{
  ExecResult, EventType, run_started, stdout_chunk, stderr_chunk, run_exited, run_cancelled,
  run_timed_out, run_failed,
}
use cliharbor.Executor
use cliharbor.Approvals.{
  ApprovalMode, ApprovalRecord, ApprovalSubmission, ExecutionContext, Digest, requires_approval,
  approval_requirement, approval_fingerprint, valid_run_id,
}
use cliharbor.Runs.{Manager, Request, Error, Guard}
use cliharbor.Runs.Events.{record_event}
use cliharbor.Runs.Start.{
  plan_request, execution_context_for, open_approval, issue_approval, preview_plan, preview,
  start_fingerprint, start_plan, start,
}
use cliharbor.Runs.Execute.{
  parsed_result, RunFailure, Quarantine, guarded_event, guard_of, deliver, is_clean_exit,
  release_held, record_terminal, finish_guarded, complete, execute,
}
use cliharbor.Runs.Machine.{Step, Reach, Reach-trans}

Result-cases {ℓ} :
    {E : Type 0} {A : Type ℓ} (r : Result E A) → ((e : E) × (r ≡ err e)) ⊎ ((a : A) × (r ≡ ok a))
Result-cases (ok a) = inr (a, refl)
Result-cases (err e) = inl (e, refl)

module _ {J : Type 0} (sink : AuditSink J) where
  one : {m n : Manager J} → Step sink m n → Reach sink m n
  one st = Reach.next Reach.here st

  start_plan-Reach :
      (go : Go) (digest : Digest) (m : Manager J) (plan : Plan)
      (submission : Option ApprovalSubmission) (new_id : Option Text) (now : ℕ)
      → Reach sink m (start_plan sink go digest m plan submission new_id now).0
  unfolding start_plan
  start_plan-Reach go digest m plan submission new_id now =
      elim (Result-cases (start_fingerprint sink go digest m.config plan)) [
        | inl (e, failed) ↦ subst (Reach sink m) (ground arith) Reach.here
        | inr (fingerprint, done) ↦ elim (Option-cases new_id) [
          | inl absent ↦ subst (Reach sink m) (ground arith) Reach.here
          | inr (id, given) ↦ elim (Bool-cases (valid_run_id id)) [
            | inr bad ↦ subst (Reach sink m) (ground arith) Reach.here
            | inl good ↦
                subst (Reach sink m) (ground arith)
                  (one (Step.admits id plan fingerprint submission now good))
          ]
        ]
      ]

  -- What `Start` does to the manager is a sequence of steps of the machine.
  start-Reach :
      (go : Go) (digest : Digest) (m : Manager J) (r : Request) (new_id : Option Text) (now : ℕ)
      → Reach sink m (start sink go digest m r new_id now).0
  unfolding start
  start-Reach go digest m r new_id now = elim (Bool-cases (m.is_closed || m.context_done)) [
    | inl gone ↦ rw gone Reach.here
    | inr here ↦ elim (Bool-cases (leb m.config.max_active m.active)) [
      | inl no_slot ↦ rw (here, no_slot) Reach.here
      | inr slot ↦ elim (Result-cases (plan_request go m m.discovery r)) [
        | inl (e, failed) ↦ subst (Reach sink m) (ground arith) Reach.here
        | inr (plan, done) ↦
            subst (Reach sink m) (ground arith)
              (start_plan-Reach go digest m plan r.approval new_id now)
      ]
    ]
  ]

  issue_approval-Reach :
      (digest : Digest) (m : Manager J) (plan : Plan) (context : ExecutionContext)
      (new_id : Option Text) (now : ℕ)
      → Reach sink m (issue_approval digest m plan context new_id now).0
  unfolding issue_approval
  issue_approval-Reach digest m plan context new_id now =
      elim (Option-cases (approval_requirement plan)) [
        | inl absent ↦ subst (Reach sink m) (ground arith) Reach.here
        | inr ((mode, text), needed) ↦
            elim (Option-cases (approval_fingerprint digest plan context)) [
              | inl absent ↦ subst (Reach sink m) (ground arith) Reach.here
              | inr (fingerprint, encoded) ↦ elim (Option-cases new_id) [
                | inl absent ↦ subst (Reach sink m) (ground arith) Reach.here
                | inr (id, given) ↦ elim (Bool-cases (valid_run_id id)) [
                  | inr bad ↦ subst (Reach sink m) (ground arith) Reach.here
                  | inl good ↦ elim (Option-cases (opened mode text fingerprint id).1) [
                    | inr (e, failed) ↦ subst (Reach sink m) (ground arith) Reach.here
                    | inl done ↦
                        subst (Reach sink m) (ground arith)
                          (one (Step.opens id (fresh mode text fingerprint) now good))
                  ]
                ]
              ]
            ]
      ]
    where
      fresh : ApprovalMode → Text → Text → ApprovalRecord
      fresh mode text fingerprint = record {
        fingerprint = fingerprint;
        expires_at = now + m.config.approval_ttl;
        issued_at = now;
        mode = mode;
        required_text = text;
      }

      opened : ApprovalMode → Text → Text → Text → Manager J × Option Error
      opened mode text fingerprint id = open_approval m id (fresh mode text fingerprint) now

  preview_plan-Reach :
      (go : Go) (digest : Digest) (m : Manager J) (plan : Plan) (new_id : Option Text) (now : ℕ)
      → Reach sink m (preview_plan go digest m plan new_id now).0
  unfolding preview_plan
  preview_plan-Reach go digest m plan new_id now = elim (Bool-cases (requires_approval plan)) [
    | inr read_only ↦ rw read_only Reach.here
    | inl needed ↦ elim (Result-cases (execution_context_for go m.config plan)) [
      | inl (e, failed) ↦ subst (Reach sink m) (ground arith) Reach.here
      | inr (context, found) ↦
          elim (Result-cases (issue_approval digest m plan context new_id now).1) [
            | inl (e, refused) ↦
                subst (Reach sink m) (ground arith)
                  (issue_approval-Reach digest m plan context new_id now)
            | inr (challenge, issued) ↦
                subst (Reach sink m) (ground arith)
                  (issue_approval-Reach digest m plan context new_id now)
          ]
    ]
  ]

  -- What `Preview` does to the manager is a sequence of steps of the machine.
  preview-Reach :
      (go : Go) (digest : Digest) (m : Manager J) (r : Request) (new_id : Option Text) (now : ℕ)
      → Reach sink m (preview go digest m r new_id now).0
  unfolding preview
  preview-Reach go digest m r new_id now = elim (Bool-cases (m.is_closed || m.context_done)) [
    | inl gone ↦ rw gone Reach.here
    | inr here ↦ elim (Result-cases (plan_request go m m.discovery r)) [
      | inl (e, failed) ↦ subst (Reach sink m) (ground arith) Reach.here
      | inr (plan, done) ↦
          subst (Reach sink m) (ground arith) (preview_plan-Reach go digest m plan new_id now)
    ]
  ]

  guarded_event-Reach :
      (m : Manager J) (q : Quarantine) (id : Text) (e : Executor.Event) (kind : EventType)
      → Reach sink m (guarded_event m q id e kind).0
  unfolding guarded_event
  guarded_event-Reach m q id e run_started = one (Step.records id e)
  guarded_event-Reach m q id e _ = Reach.here

  deliver-Reach :
      (guarded : Bool) (id : Text) (m : Manager J) (q : Quarantine) (events : List Executor.Event)
      → Reach sink m (deliver guarded id m q events).0
  unfolding deliver
  deliver-Reach guarded id m q [] = Reach.here
  deliver-Reach false id m q (e ∷ rest) =
      Reach-trans sink (one (Step.records id e))
        (deliver-Reach false id (record_event m id e).0 q rest)
  deliver-Reach true id m q (e ∷ rest) = Reach-trans sink (guarded_event-Reach m q id e e.kind) (
      deliver-Reach true id (guarded_event m q id e e.kind).0 (guarded_event m q id e e.kind).1
        rest)

  release_held-Reach :
      (m : Manager J) (id : Text) (guard : Guard) (q : Quarantine) (now : ℕ)
      → Reach sink m (release_held m id guard q now).0
  unfolding release_held
  release_held-Reach m id guard q now = elim (Bool-cases q.too_large) [
    | inl over ↦ subst (Reach sink m) (ground arith) Reach.here
    | inr fits ↦ elim (Option-cases (guard q.held)) [
      | inl denied ↦ subst (Reach sink m) (ground arith) Reach.here
      | inr (approved, given) ↦ elim (Bool-cases (is_empty approved)) [
        | inl nothing ↦ subst (Reach sink m) (ground arith) Reach.here
        | inr something ↦
            subst (Reach sink m) (ground arith) (one (Step.records id (shown approved)))
      ]
    ]
  ]
    where
      shown : Text → Executor.Event
      shown approved = record {
        run_id = id;
        kind = stdout_chunk;
        timestamp = now;
        bytes = approved;
        exit_code = none;
      }

  record_terminal-Reach :
      (m : Manager J) (id : Text) (failure : Option RunFailure) (result : ExecResult) (now : ℕ)
      → Reach sink m (record_terminal m id failure result now).0
  unfolding record_terminal
  record_terminal-Reach m id failure result now = one (Step.records id _)

  finish_guarded-Reach :
      (m : Manager J) (id : Text) (guard : Guard) (q : Quarantine) (failure : Option RunFailure)
      (result : ExecResult) (now : ℕ)
      → Reach sink m (finish_guarded m id guard q failure result now).0
  unfolding finish_guarded
  finish_guarded-Reach m id guard q failure result now =
      elim (Bool-cases (is_clean_exit failure result)) [
        | inr other ↦ rw other (record_terminal-Reach m id failure result now)
        | inl clean ↦ rw clean (
            Reach-trans sink (release_held-Reach m id guard q now)
              (record_terminal-Reach _ id _ result now))
      ]

  complete-Reach :
      (go : Go) (context : ℕ → Bool) (m : Manager J) (id : Text) (failure : Option RunFailure)
      (result : ExecResult) (now : ℕ)
      → Reach sink m (complete sink go context m id failure result now)
  unfolding complete
  complete-Reach go context m id failure result now = elim (Option-cases (lookup id m.runs)) [
    | inl absent ↦ subst (Reach sink m) (ground arith) (one Step.returns)
    | inr (r, found) ↦ subst (Reach sink m) (ground arith) (
        Reach.next
          (one (Step.settles id failure result (parsed_result go context r failure result) now))
          Step.returns)
  ]

  -- What `execute` does to the manager is a sequence of steps of the machine, guarded or not.
  execute-Reach :
      (go : Go) (context : ℕ → Bool) (m : Manager J) (id : Text) (plan : Plan)
      (events : List Executor.Event) (failure : Option RunFailure) (result : ExecResult) (now : ℕ)
      → Reach sink m (execute sink go context m id plan events failure result now)
  unfolding execute
  execute-Reach go context m id plan events failure result now =
      elim (Option-cases (guard_of m.config plan)) [
        | inl absent ↦ subst (Reach sink m) (ground arith) (
            Reach-trans sink (deliver-Reach false id m start events)
              (complete-Reach go context _ id failure result now))
        | inr (g, given) ↦
            let held = deliver true id m start events in
            let shown = finish_guarded held.0 id g held.1 failure result now in
            subst (Reach sink m) (ground arith) (
              Reach-trans sink (deliver-Reach true id m start events) (
                Reach-trans sink (finish_guarded-Reach held.0 id g held.1 failure result now)
                  (complete-Reach go context shown.0 id shown.1 result now)))
      ]
    where
      start : Quarantine
      start = record { held = []; too_large = false }
