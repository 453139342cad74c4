-- ===== src/Approvals/Table.antt =====
-- internal/runs/approval.go: the table of open approvals under the manager's lock. Go visits a map
-- in any order; the loops below go through the entries in the order of the list.
use cliharbor.Prelude.{
  ℕ, Bool, true, false, not, ◌&&◌, ◌||◌, Option, none, some, [], ◌∷◌, length, ltb, leb, ◌==◌,
  if◌then◌else◌,
}
use cliharbor.Prelude.Text.{Text, text_eq, text_lt, is_empty}
use cliharbor.Prelude.Dict.{Dict, lookup, insert, delete}
use cliharbor.Approvals.{no_mode, explicit, typed, ApprovalSubmission, ApprovalRecord, valid_run_id}

abbrev pub Table : Type 0
Table = Dict ApprovalRecord

-- `pruneApprovalsLocked`: an approval is gone from the moment of its expiry on.
unfoldable pub prune : ℕ → Table → Table
prune now [] = []
prune now ((id, r) ∷ rest) =
    let others = prune now rest in if not (ltb now r.expires_at) then others else (id, r) ∷ others

-- Issued before, or at the same time under a smaller identifier.
unfoldable pub is_older : Text → ℕ → Text → ℕ → Bool
is_older id at oldest_id oldest = ltb at oldest || (at == oldest && text_lt id oldest_id)

-- The loop of `evictOldestApprovalLocked`: the oldest so far and its time. The empty identifier
-- stands for "none yet".
unfoldable pub oldest_from : Text → ℕ → Table → Text
oldest_from oldest_id oldest [] = oldest_id
oldest_from oldest_id oldest ((id, r) ∷ rest) =
    let takes_over = is_empty oldest_id || is_older id r.issued_at oldest_id oldest in
    oldest_from (if takes_over then id else oldest_id) (if takes_over then r.issued_at else oldest)
      rest

unfoldable pub evict_oldest : Table → Table
unfolding oldest_from
evict_oldest t = let id = oldest_from [] 0 t in if is_empty id then t else delete id t

-- The part of `issueApproval` under the lock, once the manager is known to be open.
unfoldable pub issue : ℕ → ℕ → Text → ApprovalRecord → Table → Table
issue max_approvals now id r t =
    let pruned = prune now t in
    insert id r (if leb max_approvals (length pruned) then evict_oldest pruned else pruned)

abbrev confirmed : ApprovalRecord → Text → Bool
confirmed r confirmation = elim r.mode [
  | typed ↦ text_eq confirmation r.required_text
  | explicit ↦ is_empty confirmation
  | no_mode ↦ true
]

-- An approval found for the submission: used up, withdrawn, or kept for another attempt.
unfoldable pub redeem : Text → ApprovalSubmission → ApprovalRecord → Table → Table × Bool
redeem fingerprint s r t =
    if not (text_eq r.fingerprint fingerprint)
    then (delete s.id t, false)
    else if not (confirmed r s.confirmation)
    then (t, false)
    else (delete s.id t, true)

-- `consumeApprovalLocked`: the new table, and whether the approval was granted.
unfoldable pub consume : Text → Option ApprovalSubmission → ℕ → Table → Table × Bool
unfolding redeem
consume fingerprint submission now t =
    let pruned = prune now t in
    elim submission [
      | none ↦ (pruned, false)
      | some s ↦ if not (valid_run_id s.id) then (pruned, false) else elim (lookup s.id pruned) [
        | none ↦ (pruned, false)
        | some r ↦ redeem fingerprint s r pruned
      ]
    ]
