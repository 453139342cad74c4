-- ===== src/Tests/JournalWitnesses.antt =====
-- internal/audittrail/store.go: an empty journal takes the approval of a change. The lines are a
-- toy encoding of one known entry.
use cliharbor.Prelude.{
  ◌≡◌, refl, subst, ◌⊎◌, inl, inr, Bool, true, false, all, ltb, ◌&&◌, is_none, none, some, [], ◌∷◌,
  ◌++◌, ◌==◌, if◌then◌else◌, arith, Bool-cases,
}
use cliharbor.Prelude.Text.{Text, lit, text_eq, text_eq_iff, text_eq_refl}
use cliharbor.Prelude.Dict.{lookup, insert}
use cliharbor.Audit.{AuditEvent}
use cliharbor.Audit.Entry.{Entry, Codec, is_approved, valid_event, valid_entry, calculate_hash}
use cliharbor.Audit.Journal.{
  Store, DiskAnswer, draft, sealed, read_entries, append, append_entry, append_line, write_line,
  is_next, read_lines, split_lines,
}
use cliharbor.Audit.Lines.{NoNewline}
use cliharbor.Audit.Chain.{has_utf8, Faithful, Consistent, append-Consistent, append-records}
use cliharbor.Tests.Data.{run_id}

abbrev approved : AuditEvent
approved = record {
  run_id = run_id;
  action = lit "approved";
  pack_id = lit "terraform";
  command_id = lit "state-rm";
  risk = lit "change";
  target_label = lit "Resource";
  target = lit "null_resource.a";
  effect = lit "forgets a resource";
  scope = lit "single";
  status = [];
  exit_code = none;
}

abbrev first_entry : Entry
first_entry = record {
  sequence = 1;
  previous_hash = [];
  hash = lit "digest";
  time = 5;
  event = approved;
  undo = lit "not-available";
}

unfoldable pub is_known_event : AuditEvent → Bool
is_known_event e =
    text_eq e.run_id approved.run_id
    && (text_eq e.action approved.action
        && (text_eq e.pack_id approved.pack_id
            && (text_eq e.command_id approved.command_id
                && (text_eq e.risk approved.risk
                    && (text_eq e.target_label approved.target_label
                        && (text_eq e.target approved.target
                            && (text_eq e.effect approved.effect
                                && (text_eq e.scope approved.scope
                                    && (text_eq e.status approved.status
                                        && is_none e.exit_code)))))))))

unfoldable pub is_known : Entry → Bool
unfolding is_known_event
is_known e =
    e.sequence == 1
    && (text_eq e.previous_hash []
        && (text_eq e.hash (lit "digest")
            && (e.time == 5 && (text_eq e.undo (lit "not-available") && is_known_event e.event))))

known_event : (e : AuditEvent) → is_known_event e ≡ true → e ≡ approved
unfolding is_known_event
known_event e h = ground (
  arith,
  h,
  text_eq_iff e.run_id approved.run_id,
  text_eq_iff e.action approved.action,
  text_eq_iff e.pack_id approved.pack_id,
  text_eq_iff e.command_id approved.command_id,
  text_eq_iff e.risk approved.risk,
  text_eq_iff e.target_label approved.target_label,
  text_eq_iff e.target approved.target,
  text_eq_iff e.effect approved.effect,
  text_eq_iff e.scope approved.scope,
  text_eq_iff e.status approved.status,
)

known : (e : Entry) → is_known e ≡ true → e ≡ first_entry
unfolding is_known
known e h =
    let same : e.event ≡ approved = known_event e.event (ground (arith, h)) in
    ground (
      arith,
      h,
      same,
      text_eq_iff e.previous_hash [],
      text_eq_iff e.hash (lit "digest"),
      text_eq_iff e.undo (lit "not-available"),
    )

-- One line for the one entry; nothing else is encoded. ASCII stands for UTF-8.
abbrev pub codec : Codec
codec = record {
  encode = λ e. if is_known e then some (lit "entry") else none;
  decode = λ t. if text_eq t (lit "entry") then some first_entry else none;
  digest = λ e. lit "digest";
  is_utf8 = λ t. all (λ c. ltb c 128) t;
}

plain_line : NoNewline (lit "entry")
plain_line = (refl, (refl, (refl, (refl, (refl, tt)))))

pub codec-Faithful : Faithful codec
codec-Faithful = record { decodes = decodes_known; one_line = one_line }
  where
    decodes_known :
        (e : Entry) (raw : Text)
        → has_utf8 codec e ≡ true
        → codec.encode e ≡ some raw
        → codec.decode raw ≡ some e
    decodes_known e raw utf8 h = elim (Bool-cases (is_known e)) [
      | inl k ↦ ground (arith, h, k, known e k, text_eq_refl (lit "entry"))
      | inr k ↦ absurd (ground (arith, h, k))
    ]

    one_line : (e : Entry) (raw : Text) → codec.encode e ≡ some raw → NoNewline raw
    one_line e raw h = elim (Bool-cases (is_known e)) [
      | inl k ↦
          let same : lit "entry" ≡ raw = ground (arith, h, k) in subst NoNewline same plain_line
      | inr k ↦ absurd (ground (arith, h, k))
    ]

abbrev pub empty_store : Store
empty_store = record {
  is_open = true;
  content = [];
  entries = [];
  seen = [];
  size = 0;
  failed = false;
}

abbrev pub disk : DiskAnswer
disk = record { written = 6; write_failed = false; sync_failed = false }

pub empty-Consistent : Consistent codec empty_store
unfolding read_entries read_lines split_lines
empty-Consistent = record { verifies = refl; ended = tt; sized = refl }

-- The event is recorded.
append_run : append codec empty_store approved 5 disk ≡ (
  record {
    is_open = true;
    content = lit "entry" ++ 10 ∷ [];
    entries = first_entry ∷ [];
    seen = (run_id, true) ∷ [];
    size = 6;
    failed = false;
  },
  true,
)
unfolding append draft append_entry append_line write_line is_known valid_entry is_next
    calculate_hash lookup insert is_approved text_eq valid_event
append_run = refl

ascii_entry : has_utf8 codec (sealed codec (draft empty_store approved 5)) ≡ true
unfolding has_utf8 draft calculate_hash
ascii_entry = refl

append-Consistent_example :
    (Consistent codec (append codec empty_store approved 5 disk).0
      × ((append codec empty_store approved 5 disk).0.failed ≡ false))
    ⊎ (((append codec empty_store approved 5 disk).0.failed ≡ true)
        × ((append codec empty_store approved 5 disk).0.entries ≡ []))
append-Consistent_example =
    append-Consistent codec empty_store approved 5 disk codec-Faithful ascii_entry empty-Consistent
      refl

append-records_example : (append codec empty_store approved 5 disk).0.entries ≡ (
    if (append codec empty_store approved 5 disk).1
    then [] ++ sealed codec (draft empty_store approved 5) ∷ []
    else [])
append-records_example = append-records codec empty_store approved 5 disk
