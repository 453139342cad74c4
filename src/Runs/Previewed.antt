-- ===== src/Runs/Previewed.antt =====
-- A preview is good for the start that it announces.
use cliharbor.Prelude.{ℕ, ◌+◌, ◌≡◌, true, some}
use cliharbor.Prelude.Text.{Text}
use cliharbor.Go.{Go}
use cliharbor.Planner.{Plan}
use cliharbor.Approvals.{
  Digest, ApprovalMode, ApprovalChallenge, ApprovalRecord, ExecutionContext, approval_requirement,
  approval_fingerprint, valid_run_id,
}
use cliharbor.Approvals.Table.{issue}
use cliharbor.Runs.{Manager}

-- The approval that a preview opens.
abbrev opened : Text → ℕ → ℕ → ApprovalMode → Text → ApprovalRecord
opened fingerprint now ttl mode text = record {
  fingerprint = fingerprint;
  expires_at = now + ttl;
  issued_at = now;
  mode = mode;
  required_text = text;
}

module _ {J : Type 0} (go : Go) (digest : Digest) where
  -- What an approval that was issued says of the challenge and of the table.
  record Issued (m : Manager J) (plan : Plan) (context : ExecutionContext) (now : ℕ)
      (m' : Manager J) (c : ApprovalChallenge) : Type 0 where
    pub fingerprint : Text
    pub bound : approval_fingerprint digest plan context ≡ some fingerprint
    pub required : approval_requirement plan ≡ some (c.mode, c.required_text)
    pub well_formed : valid_run_id c.id ≡ true
    pub expiry : c.expires_at ≡ now + m.config.approval_ttl
    pub table :
        m'.approvals
        ≡ issue m.config.max_approvals now c.id
            (opened fingerprint now m.config.approval_ttl c.mode c.required_text)
            m.approvals
