-- ===== src/Tests/TableWitnesses.antt =====
-- internal/runs/approval.go: a table of two open approvals, asked for the older of them.
use cliharbor.Prelude.{◌≡◌, ◌≢◌, refl, true, false, some, arith}
use cliharbor.Prelude.Text.{lit, text_eq, is_empty}
use cliharbor.Prelude.Dict.{lookup, delete}
use cliharbor.Approvals.{valid_run_id}
use cliharbor.Approvals.Table.{prune, evict_oldest, issue, redeem, consume}
use cliharbor.Approvals.Bound.{TableInv}
use cliharbor.Approvals.Eviction.{Evicts, evict_oldest-Evicts, issue-TableInv}
use cliharbor.Approvals.Consumption.{
  Matches, Granted, consume-Granted, consume_complete, consume-single_use, consume_mismatch,
}
use cliharbor.Tests.Data.{approval_id, run_id, fingerprint, open_record, submission, table}

one_table : TableInv 2 table
unfolding lookup text_eq
one_table = record {
  distinct = (refl, (refl, tt));
  named = (refl, (refl, tt));
  bounded = omega arith;
}

granted : (consume fingerprint (some submission) 6 table).1 ≡ true
unfolding consume prune redeem valid_run_id lookup delete text_eq
granted = refl

matches : Matches fingerprint 6 table submission
unfolding lookup text_eq
matches = record {
  approval = open_record;
  is_entry = refl;
  in_time = omega arith;
  same_plan = refl;
  is_confirmed = (λ h. refl, λ h. refl);
}

consume-Granted_example :
    Granted fingerprint 6 table (some submission) (consume fingerprint (some submission) 6 table).0
consume-Granted_example = consume-Granted 2 fingerprint (some submission) 6 table one_table granted

valid_id : valid_run_id approval_id ≡ true
unfolding valid_run_id
valid_id = refl

consume_complete_example : (consume fingerprint (some submission) 6 table).1 ≡ true
consume_complete_example = consume_complete fingerprint submission 6 table valid_id matches

consume-single_use_example :
    (consume fingerprint (some submission) 7 (consume fingerprint (some submission) 6 table).0).1
    ≡ false
consume-single_use_example =
    consume-single_use 2 fingerprint fingerprint submission submission 6 7 table one_table granted
      refl

another_plan : open_record.fingerprint ≢ lit "another"
another_plan = λ e. cc e

is_open : lookup approval_id table ≡ some open_record
unfolding lookup text_eq
is_open = refl

has_name : is_empty run_id ≡ false
has_name = refl

consume_mismatch_example :
    ((consume (lit "another") (some submission) 6 table).1 ≡ false)
    × ((consume fingerprint
          (some submission)
          7
          (consume (lit "another") (some submission) 6 table).0).1
        ≡ false)
consume_mismatch_example =
    consume_mismatch (lit "another") fingerprint submission submission 6 7 table open_record
      valid_id is_open (omega arith) another_plan refl

evict_oldest-Evicts_example : Evicts table (evict_oldest table)
evict_oldest-Evicts_example =
    evict_oldest-Evicts table one_table.distinct one_table.named (omega arith)

issue-TableInv_example : TableInv 2 (issue 2 8 run_id open_record table)
issue-TableInv_example =
    issue-TableInv 2 8 run_id open_record table (omega arith) has_name one_table
