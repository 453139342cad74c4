-- ===== src/Tests/JournaledWitness.antt =====
-- A change that is previewed and started by a manager on the journal.
use cliharbor.Prelude.{◌≡◌, refl, true, false, some, [], ◌∷◌, inl}
use cliharbor.Prelude.Result.{ok}
use cliharbor.Prelude.Text.{text_eq}
use cliharbor.Prelude.Dict.{lookup, insert, delete}
use cliharbor.Audit.{AuditSink, risk_text, scope_text}
use cliharbor.Audit.Entry.{is_approved, valid_event, valid_entry, calculate_hash}
use cliharbor.Audit.Journal.{draft, append, append_entry, append_line, write_line, is_next}
use cliharbor.Audit.Sink.{Journal, journal_sink}
use cliharbor.Approvals.{valid_run_id, requires_approval}
use cliharbor.Approvals.Table.{consume, redeem, prune, issue}
use cliharbor.Runs.{Manager}
use cliharbor.Runs.New.{new_manager, with_defaults, fresh_manager}
use cliharbor.Runs.Retention.{make_room}
use cliharbor.Runs.Start.{
  open_approval, admit, authorize, log_approved, approved_event, accept, new_record, add_run,
}
use cliharbor.Runs.Machine.{Reach, Step}
use cliharbor.Runs.Journaled.{Journaled, reachable-Journaled}
use cliharbor.Tests.Data.{
  run_id, approval_id, fingerprint, options, registry, snapshot, change_plan, open_record,
  submission,
}
use cliharbor.Tests.JournalWitnesses.{
  codec, codec-Faithful, empty_store, disk, empty-Consistent, is_known, is_known_event,
}

abbrev new_journal : Journal codec
new_journal = record {
  store = empty_store;
  answers = (5, disk) ∷ [];
  sound = inl (empty-Consistent, refl);
}

abbrev sink : AuditSink (Journal codec)
sink = journal_sink codec codec-Faithful

abbrev first_manager : Manager (Journal codec)
first_manager = fresh_manager registry false snapshot (with_defaults options) (some new_journal)

abbrev open_manager : Manager (Journal codec)
open_manager = (open_approval first_manager approval_id open_record 5).0

abbrev running_manager : Manager (Journal codec)
running_manager = (admit sink open_manager run_id change_plan fingerprint (some submission) 6).0

built :
    new_manager true false (some registry) snapshot options (some new_journal) ≡ ok first_manager
unfolding new_manager with_defaults
built = refl

good_run_id : valid_run_id run_id ≡ true
unfolding valid_run_id
good_run_id = refl

good_approval_id : valid_run_id approval_id ≡ true
unfolding valid_run_id
good_approval_id = refl

history : Reach sink first_manager running_manager
history =
    Reach.next (Reach.next Reach.here (Step.opens approval_id open_record 5 good_approval_id))
      (Step.admits run_id change_plan fingerprint (some submission) 6 good_run_id)

run_found : lookup run_id running_manager.runs ≡ some (new_record sink run_id change_plan)
unfolding lookup insert delete admit accept add_run make_room open_approval issue authorize
    log_approved approved_event new_record consume redeem prune with_defaults fresh_manager
    valid_run_id requires_approval append draft append_entry append_line write_line is_known
    is_known_event is_approved valid_event valid_entry is_next calculate_hash risk_text scope_text
    text_eq
run_found = refl

audited : (new_record sink run_id change_plan).audited ≡ true
unfolding new_record requires_approval
audited = refl

reachable-Journaled_example : Journaled codec running_manager.audit run_id
reachable-Journaled_example =
    reachable-Journaled codec codec-Faithful true false (some registry) snapshot options
      (some new_journal) run_id (new_record sink run_id change_plan) built history run_found audited
