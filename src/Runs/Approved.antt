-- ===== src/Runs/Approved.antt =====
-- The approval block of `Start`: what it answers against what the audit sink and the table then hold.
use cliharbor.Prelude.{
  ℕ, ◌≡◌, refl, sym, subst, ◌∙◌, ap, ◌⊎◌, inl, inr, true, false, Option, none, some, List, ◌∷◌, [],
}
use cliharbor.Prelude.Text.{Text, lit}
use cliharbor.Planner.{Plan, MutationImpact}
use cliharbor.Audit.{AuditEvent, AuditSink}
use cliharbor.Approvals.{ApprovalSubmission, requires_approval}
use cliharbor.Approvals.Bound.{TableInv}
use cliharbor.Approvals.Consumption.{Granted, consume-Granted}
use cliharbor.Runs.{Manager, Error, policy_blocked, approval_required, audit_unavailable}
use cliharbor.Runs.Start.{failed_with, approved_event, authorize}
use cliharbor.Runs.Authorization.{
  Authorization, unneeded, unavailable, denied, blocked, unlogged, logged, authorize-Authorization,
}

module _ {J : Type 0} (sink : AuditSink J) where
  abbrev pub recorded_of : Option J → List AuditEvent
  recorded_of none = []
  recorded_of (some j) = sink.recorded j

  -- An approval that was used up, and an entry of the sink that says so.
  pub record Evidenced (m : Manager J) (run_id : Text) (plan : Plan) (fingerprint : Text)
      (submission : Option ApprovalSubmission) (now : ℕ) (m' : Manager J) : Type 0 where
    pub impact : MutationImpact
    pub has_impact : plan.impact ≡ some impact
    pub journal : J
    pub had : m.audit ≡ some journal
    pub entry : AuditEvent
    pub approves : (entry.run_id ≡ run_id) × (entry.action ≡ lit "approved")
    pub of_command : (entry.pack_id ≡ plan.pack_id) × (entry.command_id ≡ plan.command_id)
    pub of_target : (entry.target ≡ impact.target) × (entry.effect ≡ impact.effect)
    pub recorded : recorded_of m'.audit ≡ entry ∷ sink.recorded journal
    pub used : Granted fingerprint now m.approvals submission m'.approvals

  -- The answer of the block: no approval was needed and nothing changed; or it was needed and is
  -- evidenced; or it is refused with an error, and the sink holds what it held.
  abbrev pub Answered :
      (m : Manager J) (run_id : Text) (plan : Plan) (fingerprint : Text)
      (submission : Option ApprovalSubmission) (now : ℕ)
      → Manager J × Option Error
      → Type 0
  Answered m run_id plan fingerprint submission now out =
      ((requires_approval plan ≡ false) × (out ≡ (m, none)))
      ⊎ (((requires_approval plan ≡ true)
            × (out.1 ≡ none)
            × Evidenced m run_id plan fingerprint submission now out.0)
          ⊎ ((requires_approval plan ≡ true)
              × ((e : Error) × (out.1 ≡ some e))
              × (recorded_of out.0.audit ≡ recorded_of m.audit)))

  Authorization-Answered :
      (m : Manager J) (run_id : Text) (plan : Plan) (fingerprint : Text)
      (submission : Option ApprovalSubmission) (now : ℕ) (out : Manager J × Option Error)
      → TableInv m.config.max_approvals m.approvals
      → Authorization sink m run_id plan fingerprint submission now out
      → Answered m run_id plan fingerprint submission now out
  unfolding approved_event
  Authorization-Answered m run_id plan fingerprint submission now out v (unneeded n e) = inl (n, e)
  Authorization-Answered m run_id plan fingerprint submission now out v (unavailable n _ e) =
      inr (
        inr
          (n, (failed_with audit_unavailable, ap (λ o. o.1) e), ap (λ o. recorded_of o.0.audit) e))
  Authorization-Answered m run_id plan fingerprint submission now out v (denied n _ _ e) =
      inr (
        inr
          (n, (failed_with approval_required, ap (λ o. o.1) e), ap (λ o. recorded_of o.0.audit) e))
  Authorization-Answered m run_id plan fingerprint submission now out v (blocked n _ _ _ e) =
      inr
        (inr (n, (failed_with policy_blocked, ap (λ o. o.1) e), ap (λ o. recorded_of o.0.audit) e))
  Authorization-Answered m run_id plan fingerprint submission now out v
        (unlogged j i n _ present _ _ lost e) =
      inr (
        inr (
          n,
          (failed_with audit_unavailable, ap (λ o. o.1) e),
          ap (λ o. recorded_of o.0.audit) e
              ∙ sink.append_failure j (approved_event sink run_id plan i) lost
              ∙ sym (ap recorded_of present),
        ))
  Authorization-Answered m run_id plan fingerprint submission now out v
        (logged j i n _ present granted given done e) =
      inr (
        inl (
          n,
          ap (λ o. o.1) e,
          record {
            impact = i;
            has_impact = given;
            journal = j;
            had = present;
            entry = approved_event sink run_id plan i;
            approves = (refl, refl);
            of_command = (refl, refl);
            of_target = (refl, refl);
            recorded =
                ap (λ o. recorded_of o.0.audit) e
                ∙ sink.append_success j (approved_event sink run_id plan i) done;
            used =
                subst (Granted fingerprint now m.approvals submission)
                  (sym (ap (λ o. o.0.approvals) e))
                  (consume-Granted m.config.max_approvals fingerprint submission now m.approvals v
                    granted);
          },
        ))

  -- On a manager whose approvals satisfy their invariant: where a plan needs no approval, the
  -- approval block of `Start` changes nothing. Where it needs one, it passes only with a submission
  -- that names an open approval of this fingerprint, in time and confirmed, which is then gone, and
  -- with one new entry in the audit sink that approves this run, command, target and effect. In any
  -- other case it answers an error and the audit sink holds what it held.
  pub authorize-Answered :
      (m : Manager J) (run_id : Text) (plan : Plan) (fingerprint : Text)
      (submission : Option ApprovalSubmission) (now : ℕ)
      → TableInv m.config.max_approvals m.approvals
      → Answered m run_id plan fingerprint submission now
          (authorize sink m run_id plan fingerprint submission now)
  authorize-Answered m run_id plan fingerprint submission now v =
      Authorization-Answered m run_id plan fingerprint submission now _ v
        (authorize-Authorization sink m run_id plan fingerprint submission now)
