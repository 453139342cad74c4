-- ===== src/Runs/Settled.antt =====
-- The end of a run keeps the invariant of the manager.
use cliharbor.Prelude.{
  ℕ, ◌-◌, ◌<◌, ◌≡◌, refl, sym, subst, ap, ◌∙◌, inl, inr, true, false, not, ◌||◌, Option, none, some,
  List, if◌then◌else◌, arith, Bool-cases, Option-cases,
}
use cliharbor.Prelude.Text.{Text}
use cliharbor.Prelude.Dict.{Dict, lookup, insert}
use cliharbor.Audit.{AuditSink}
use cliharbor.Executor.{ExecResult}
use cliharbor.Structured.{Outcome}
use cliharbor.Approvals.Bound.{TableInv}
use cliharbor.Runs.{Record, Manager, is_running}
use cliharbor.Runs.Execute.{
  RunFailure, conclude, status_from_executor, close_record, completed_event, log_completed,
  settle_record, settle,
}
use cliharbor.Runs.Counting.{one_if, running_count-delete}
use cliharbor.Runs.Room.{RunsInv}
use cliharbor.Runs.Authorization.{SameRuns, unchanged_but-SameRuns}
use cliharbor.Runs.Invariant.{Inv, IsOwn, Inv-SameRuns}
use cliharbor.Runs.Steps.{replace-Inv}

module _ {J : Type 0} (sink : AuditSink J) where
  -- A run that ended is no longer running.
  conclude_ended :
      (r : Record) (failure : Option RunFailure) (result : ExecResult) (now : ℕ)
      → is_running (conclude r failure result now).status ≡ false
  unfolding conclude status_from_executor
  conclude_ended r none result now = ground arith
  conclude_ended r (some f) result now = refl

  conclude-run_id :
      (r : Record) (failure : Option RunFailure) (result : ExecResult) (now : ℕ)
      → (conclude r failure result now).run_id ≡ r.run_id
  unfolding conclude
  conclude-run_id r none result now = refl
  conclude-run_id r (some f) result now = refl

  -- The audit record of a completion changes the journal and its flag alone.
  log_completed-SameRuns :
      (m : Manager J) (r : Record)
      → TableInv m.config.max_approvals m.approvals
      → SameRuns sink m (log_completed sink m r)
  unfolding log_completed
  log_completed-SameRuns m r t = elim (Option-cases m.audit) [
    | inl absent ↦
        subst (SameRuns sink m) (ground arith)
          (unchanged_but-SameRuns sink m m.approvals m.audit m.audit_failed t)
    | inr (j, present) ↦ subst (SameRuns sink m) (ground arith) (
        unchanged_but-SameRuns sink m m.approvals (some (sink.append j (completed_event sink r)).0)
          (m.audit_failed || not (sink.append j (completed_event sink r)).1) t)
  ]

  logged-SameRuns :
      (m : Manager J) (r done : Record)
      → TableInv m.config.max_approvals m.approvals
      → SameRuns sink m (if r.audited then log_completed sink m done else m)
  logged-SameRuns m r done t = elim (Bool-cases r.audited) [
    | inl audited ↦ rw audited (log_completed-SameRuns m done t)
    | inr unaudited ↦
        rw unaudited (unchanged_but-SameRuns sink m m.approvals m.audit m.audit_failed t)
  ]

  -- While a run is running, `active` is not 0, and its decrement is exact.
  one_running :
      (runs : Dict Record) (id : Text) (r : Record) {order : List Text} (active : ℕ)
      → RunsInv runs order active
      → lookup id runs ≡ some r
      → is_running r.status ≡ true
      → 0 < active
  one_running runs id r active v found live =
      omega (arith, running_count-delete id r runs v.distinct found, v.counted, ap one_if live)

  settle_record-Inv :
      (m : Manager J) (id : Text) (r : Record) (failure : Option RunFailure) (result : ExecResult)
      (parsed : Option Outcome) (now : ℕ)
      → Inv m
      → lookup id m.runs ≡ some r
      → is_running r.status ≡ true
      → Inv (settle_record sink m r failure result parsed now)
  unfolding settle_record close_record
  settle_record-Inv m id r failure result parsed now v found live =
      let done = conclude r failure result now in
      let logged : Manager J = if r.audited then log_completed sink m done else m in
      let same = logged-SameRuns m r done v.table in
      let named : r.run_id ≡ id = (v.own id r found).0 in
      let ended = conclude_ended r failure result now in
      let own : IsOwn id (close_record done parsed) =
        (conclude-run_id r failure result now ∙ named, sym (ap not ended)) in
      subst
        (λ k. Inv (record logged {
          active = m.active - 1;
          runs = insert k (close_record done parsed) logged.runs;
        }))
        (sym named)
        (replace-Inv logged id r (close_record done parsed) (m.active - 1)
          (Inv-SameRuns sink m logged v same) (rw same.same_runs found) own
          (rw (live, ended, same.same_active)
            (omega (arith, one_running m.runs id r m.active v.runs found live)))
          (rw same.same_active (omega arith)))

  pub settle-Inv :
      (m : Manager J) (id : Text) (failure : Option RunFailure) (result : ExecResult)
      (parsed : Option Outcome) (now : ℕ)
      → Inv m
      → Inv (settle sink m id failure result parsed now)
  unfolding settle
  settle-Inv m id failure result parsed now v = elim (Option-cases (lookup id m.runs)) [
    | inl absent ↦ rw (absent, settle) v
    | inr (r, found) ↦ elim (Bool-cases (is_running r.status)) [
      | inr ended ↦ subst Inv (ground arith) v
      | inl live ↦
          subst Inv (ground arith) (settle_record-Inv m id r failure result parsed now v found live)
    ]
  ]
