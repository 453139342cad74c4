-- ===== src/Runs/Authorization.antt =====
-- The outcomes of the approval block of `Start`, one constructor for each, with what decides it.
use cliharbor.Prelude.{
  ℕ, ◌≡◌, refl, sym, subst, ◌⊎◌, inl, inr, Bool, true, false, Option, none, some, arith, Bool-cases,
  Option-cases,
}
use cliharbor.Prelude.Text.{Text}
use cliharbor.Planner.{Plan, MutationImpact}
use cliharbor.Audit.{AuditSink}
use cliharbor.Approvals.{ApprovalSubmission, requires_approval}
use cliharbor.Approvals.Table.{Table, consume}
use cliharbor.Approvals.Bound.{TableInv}
use cliharbor.Approvals.Consumption.{consume-TableInv}
use cliharbor.Runs.{Manager, Error, policy_blocked, approval_required, audit_unavailable}
use cliharbor.Runs.Start.{failed_with, approved_event, log_approved, authorize}

module _ {J : Type 0} (sink : AuditSink J) where
  -- The manager after the table was asked for an approval.
  abbrev pub spent : Manager J → Text → Option ApprovalSubmission → ℕ → Manager J
  spent m fingerprint submission now = record m {
    approvals = (consume fingerprint submission now m.approvals).0;
  }

  abbrev pub IsGranted : Manager J → Text → Option ApprovalSubmission → ℕ → Type 0
  IsGranted m fingerprint submission now = (consume fingerprint submission now m.approvals).1 ≡ true

  pub data Authorization (m : Manager J) (run_id : Text) (plan : Plan) (fingerprint : Text)
      (submission : Option ApprovalSubmission) (now : ℕ) (out : Manager J × Option Error)
      : Type 0 where
    unneeded :
        requires_approval plan ≡ false
        → out ≡ (m, none)
        → Authorization m run_id plan fingerprint submission now out
    unavailable :
        requires_approval plan ≡ true
        → (m.audit_failed ≡ true) ⊎ (m.audit ≡ none)
        → out ≡ (m, some (failed_with audit_unavailable))
        → Authorization m run_id plan fingerprint submission now out
    denied :
        requires_approval plan ≡ true
        → m.audit_failed ≡ false
        → (consume fingerprint submission now m.approvals).1 ≡ false
        → out ≡ (spent m fingerprint submission now, some (failed_with approval_required))
        → Authorization m run_id plan fingerprint submission now out
    blocked :
        requires_approval plan ≡ true
        → m.audit_failed ≡ false
        → IsGranted m fingerprint submission now
        → plan.impact ≡ none
        → out ≡ (spent m fingerprint submission now, some (failed_with policy_blocked))
        → Authorization m run_id plan fingerprint submission now out
    unlogged :
        (j : J) (impact : MutationImpact)
        → requires_approval plan ≡ true
        → m.audit_failed ≡ false
        → m.audit ≡ some j
        → IsGranted m fingerprint submission now
        → plan.impact ≡ some impact
        → (sink.append j (approved_event sink run_id plan impact)).1 ≡ false
        → out ≡ (
          record (spent m fingerprint submission now) {
            audit = some (sink.append j (approved_event sink run_id plan impact)).0;
            audit_failed = true;
          },
          some (failed_with audit_unavailable),
        )
        → Authorization m run_id plan fingerprint submission now out
    logged :
        (j : J) (impact : MutationImpact)
        → requires_approval plan ≡ true
        → m.audit_failed ≡ false
        → m.audit ≡ some j
        → IsGranted m fingerprint submission now
        → plan.impact ≡ some impact
        → (sink.append j (approved_event sink run_id plan impact)).1 ≡ true
        → out ≡ (
          record (spent m fingerprint submission now) {
            audit = some (sink.append j (approved_event sink run_id plan impact)).0;
          },
          none,
        )
        → Authorization m run_id plan fingerprint submission now out

  module _ (m : Manager J) (run_id : Text) (plan : Plan) (fingerprint : Text)
      (submission : Option ApprovalSubmission) (now : ℕ) where
    -- The append, once the approval is granted.
    log-Authorization :
        (j : J) (impact : MutationImpact)
        → requires_approval plan ≡ true
        → m.audit_failed ≡ false
        → m.audit ≡ some j
        → IsGranted m fingerprint submission now
        → plan.impact ≡ some impact
        → Authorization m run_id plan fingerprint submission now (
            log_approved sink
              (spent m fingerprint submission now)
              j
              (approved_event sink run_id plan impact))
    unfolding log_approved
    log-Authorization j impact r f a g i =
        elim (Bool-cases (sink.append j (approved_event sink run_id plan impact)).1) [
          | inl done ↦ logged j impact r f a g i done (rw done)
          | inr lost ↦ unlogged j impact r f a g i lost (rw lost)
        ]

    -- Every call of the block ends in one of these six outcomes.
    pub authorize-Authorization :
        Authorization m run_id plan fingerprint submission now
          (authorize sink m run_id plan fingerprint submission now)
    unfolding authorize
    authorize-Authorization = elim (Bool-cases (requires_approval plan)) [
      | inr read_only ↦ unneeded read_only (rw read_only)
      | inl needed ↦ elim (Bool-cases m.audit_failed) [
        | inl broken ↦ unavailable needed (inl broken) (rw (needed, broken))
        | inr sound ↦ elim (Option-cases m.audit) [
          | inl missing ↦ unavailable needed (inr missing) (ground arith)
          | inr (j, present) ↦
              elim (Bool-cases (consume fingerprint submission now m.approvals).1) [
                | inr no_grant ↦ denied needed sound no_grant (ground arith)
                | inl grant ↦ elim (Option-cases plan.impact) [
                  | inl missing ↦ blocked needed sound grant missing (ground arith)
                  | inr (impact, given) ↦
                      subst (Authorization m run_id plan fingerprint submission now) (ground arith)
                        (log-Authorization j impact needed sound present grant given)
                ]
              ]
        ]
      ]
    ]

  -- What the block leaves alone, and the table's invariant that it keeps.
  pub record SameRuns (m m' : Manager J) : Type 0 where
    pub same_runs : m'.runs ≡ m.runs
    pub same_order : m'.order ≡ m.order
    pub same_active : m'.active ≡ m.active
    pub same_config : m'.config ≡ m.config
    pub table : TableInv m.config.max_approvals m'.approvals

  abbrev pub unchanged_but :
      (m : Manager J) (table : Table) (audit : Option J) (audit_failed : Bool) → Manager J
  unchanged_but m table audit audit_failed = record m {
    approvals = table;
    audit = audit;
    audit_failed = audit_failed;
  }

  used :
      (m : Manager J) (fingerprint : Text) (submission : Option ApprovalSubmission) (now : ℕ)
      → TableInv m.config.max_approvals m.approvals
      → TableInv m.config.max_approvals (consume fingerprint submission now m.approvals).0
  used m fingerprint submission now v =
      consume-TableInv m.config.max_approvals fingerprint submission now m.approvals v

  pub unchanged_but-SameRuns :
      (m : Manager J) (table : Table) (audit : Option J) (audit_failed : Bool)
      → TableInv m.config.max_approvals table
      → SameRuns m (unchanged_but m table audit audit_failed)
  unchanged_but-SameRuns m table audit audit_failed t = record {
    same_runs = refl;
    same_order = refl;
    same_active = refl;
    same_config = refl;
    table = t;
  }

  pub Authorization-SameRuns :
      (m : Manager J) (run_id : Text) (plan : Plan) (fingerprint : Text)
      (submission : Option ApprovalSubmission) (now : ℕ) (out : Manager J × Option Error)
      → TableInv m.config.max_approvals m.approvals
      → Authorization m run_id plan fingerprint submission now out
      → SameRuns m out.0
  Authorization-SameRuns m run_id plan fingerprint submission now out v (unneeded _ e) =
      subst (λ o. SameRuns m o.0) (sym e)
        (unchanged_but-SameRuns m m.approvals m.audit m.audit_failed v)
  Authorization-SameRuns m run_id plan fingerprint submission now out v (unavailable _ _ e) =
      subst (λ o. SameRuns m o.0) (sym e)
        (unchanged_but-SameRuns m m.approvals m.audit m.audit_failed v)
  Authorization-SameRuns m run_id plan fingerprint submission now out v (denied _ _ _ e) =
      subst (λ o. SameRuns m o.0) (sym e)
        (unchanged_but-SameRuns m (consume fingerprint submission now m.approvals).0 m.audit
          m.audit_failed (used m fingerprint submission now v))
  Authorization-SameRuns m run_id plan fingerprint submission now out v (blocked _ _ _ _ e) =
      subst (λ o. SameRuns m o.0) (sym e)
        (unchanged_but-SameRuns m (consume fingerprint submission now m.approvals).0 m.audit
          m.audit_failed (used m fingerprint submission now v))
  Authorization-SameRuns m run_id plan fingerprint submission now out v
        (unlogged j i _ _ _ _ _ _ e) =
      subst (λ o. SameRuns m o.0) (sym e)
        (unchanged_but-SameRuns m (consume fingerprint submission now m.approvals).0
          (some (sink.append j (approved_event sink run_id plan i)).0) true
          (used m fingerprint submission now v))
  Authorization-SameRuns m run_id plan fingerprint submission now out v (logged j i _ _ _ _ _ _ e) =
      subst (λ o. SameRuns m o.0) (sym e)
        (unchanged_but-SameRuns m (consume fingerprint submission now m.approvals).0
          (some (sink.append j (approved_event sink run_id plan i)).0) m.audit_failed
          (used m fingerprint submission now v))
