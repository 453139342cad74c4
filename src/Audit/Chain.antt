-- ===== src/Audit/Chain.antt =====
-- The journal verifies: what `Append` writes is what `readEntries` accepts.
use cliharbor.Prelude.{
  ℕ, suc, ◌+◌, ◌≡◌, refl, sym, subst, ap, ◌∙◌, ◌⊎◌, inl, inr, Bool, true, false, not, ◌&&◌, ◌||◌,
  all, some, List, [], ◌∷◌, ◌++◌, length, length-append, take, leb, ltb, ◌==◌, if◌then◌else◌, arith,
  Bool-cases, Option-cases,
}
use cliharbor.Prelude.Text.{Text, text_eq, text_eq_refl}
use cliharbor.Audit.{AuditEvent}
use cliharbor.Audit.Entry.{
  Entry, Codec, max_entries, max_bytes, max_line, valid_entry, calculate_hash,
}
use cliharbor.Audit.Journal.{
  Store, DiskAnswer, last_hash, newline, draft, is_next, write_line, append_entry, append,
  append_line, sealed, extended, split_lines, check_line, read_lines, read_entries,
}
use cliharbor.Audit.Lines.{
  EndsLine, NoNewline, split_lines-append, split_lines-one, chop_newline-append, EndsLine-append,
  read_lines-append,
}

-- The texts of an entry are valid UTF-8.
unfoldable pub has_utf8 : Codec → Entry → Bool
has_utf8 codec e = all codec.is_utf8 (
    e.previous_hash ∷ e.hash ∷ e.event.run_id ∷ e.event.action ∷ e.event.pack_id
    ∷ e.event.command_id ∷ e.event.risk ∷ e.event.target_label ∷ e.event.target ∷ e.event.effect
    ∷ e.event.scope ∷ e.event.status ∷ e.undo ∷ [])

unfoldable pub all_utf8 : Codec → List Entry → Bool
all_utf8 codec [] = true
all_utf8 codec (e ∷ es) = has_utf8 codec e && all_utf8 codec es

-- What encoding/json is documented to do: the line of an entry has no newline, and that of an entry
-- in valid UTF-8 decodes to the entry again. Other bytes are replaced by U+FFFD.
pub record Faithful (codec : Codec) : Type 0 where
  pub decodes :
      (e : Entry) (raw : Text)
      → has_utf8 codec e ≡ true
      → codec.encode e ≡ some raw
      → codec.decode raw ≡ some e
  pub one_line : (e : Entry) (raw : Text) → codec.encode e ≡ some raw → NoNewline raw

-- The file of an open journal verifies, and gives the entries that are in memory.
pub record Consistent (codec : Codec) (s : Store) : Type 0 where
  pub verifies : read_entries codec s.content ≡ some (s.entries, s.seen)
  pub ended : EndsLine s.content
  pub sized : s.size ≡ length s.content

check_line-append :
    (codec : Codec) (s : Store) (event : AuditEvent) (now : ℕ) (raw : Text)
    → Faithful codec
    → has_utf8 codec (sealed codec (draft s event now)) ≡ true
    → codec.encode (sealed codec (draft s event now)) ≡ some raw
    → ltb max_line (suc (length raw)) ≡ false
    → leb max_entries (length s.entries) ≡ false
    → valid_entry (draft s event now) ≡ true
    → is_next s.seen event ≡ true
    → check_line codec s.entries s.seen (raw ++ newline ∷ [])
      ≡ some (sealed codec (draft s event now))
unfolding check_line draft calculate_hash valid_entry
check_line-append codec s event now raw faithful utf8 encoded short room valid follows =
    let e : Entry = sealed codec (draft s event now) in
    let fits : ltb max_line (length (raw ++ newline ∷ [])) ≡ false =
      ground (arith, short, length-append raw (newline ∷ [])) in
    let numbered : (e.sequence == suc (length s.entries)) ≡ true = ground arith in
    let linked : text_eq e.previous_hash (last_hash s.entries) ≡ true =
      text_eq_refl (last_hash s.entries) in
    let hashed : text_eq e.hash (calculate_hash codec e) ≡ true =
      text_eq_refl (calculate_hash codec e) in
    ground (
      arith,
      fits,
      chop_newline-append raw,
      faithful.decodes e raw utf8 encoded,
      room,
      numbered,
      linked,
      valid,
      hashed,
      follows,
    )

extended-Consistent :
    (codec : Codec) (s : Store) (event : AuditEvent) (now : ℕ) (raw : Text)
    → Faithful codec
    → Consistent codec s
    → codec.encode (sealed codec (draft s event now)) ≡ some raw
    → check_line codec s.entries s.seen (raw ++ newline ∷ [])
      ≡ some (sealed codec (draft s event now))
    → Consistent codec (extended s (sealed codec (draft s event now)) (raw ++ newline ∷ []))
unfolding read_entries
extended-Consistent codec s event now raw faithful c encoded checked = record {
  verifies =
      ap (read_lines codec [] []) (
        split_lines-append s.content (raw ++ newline ∷ []) c.ended
        ∙ ap (λ t. split_lines s.content ++ t)
            (split_lines-one raw (faithful.one_line _ raw encoded)))
      ∙ read_lines-append codec [] s.entries [] s.seen (split_lines s.content) _ _ c.verifies
          checked;
  ended = EndsLine-append s.content raw;
  sized = ground (arith, c.sized, length-append s.content (raw ++ newline ∷ []));
}

-- The line continues the chain, if the entry survives its encoding.
abbrev Continues : Codec → Store → AuditEvent → ℕ → Text → Type 0
Continues codec s event now raw =
    Faithful codec
    → has_utf8 codec (sealed codec (draft s event now)) ≡ true
    → check_line codec s.entries s.seen (raw ++ newline ∷ [])
      ≡ some (sealed codec (draft s event now))

-- Every way through `Append` below its guards.
data AppendResult (codec : Codec) (s : Store) (event : AuditEvent) (now : ℕ)
    : Store × Bool → Type 0 where
  refused : AppendResult codec s event now (s, false)
  torn :
      (part : Text)
      → AppendResult codec s event now
          (record s { content = s.content ++ part; failed = true }, false)
  appended :
      (raw : Text)
      → codec.encode (sealed codec (draft s event now)) ≡ some raw
      → Continues codec s event now raw
      → AppendResult codec s event now
          (extended s (sealed codec (draft s event now)) (raw ++ newline ∷ []), true)

write_line-AppendResult :
    (codec : Codec) (s : Store) (event : AuditEvent) (now : ℕ) (raw : Text) (disk : DiskAnswer)
    → codec.encode (sealed codec (draft s event now)) ≡ some raw
    → Continues codec s event now raw
    → AppendResult codec s event now
        (write_line s (sealed codec (draft s event now)) (raw ++ newline ∷ []) disk)
unfolding write_line
write_line-AppendResult codec s event now raw disk encoded checked =
    elim (Bool-cases (disk.write_failed || not (disk.written == length (raw ++ newline ∷ [])))) [
      | inl e ↦ rw e (torn (take disk.written (raw ++ newline ∷ [])))
      | inr e ↦ rw e (elim (Bool-cases disk.sync_failed) [
        | inl f ↦ rw f (torn (take disk.written (raw ++ newline ∷ [])))
        | inr f ↦ rw f (appended raw encoded checked)
      ])
    ]

append_entry-AppendResult :
    (codec : Codec) (s : Store) (event : AuditEvent) (now : ℕ) (disk : DiskAnswer)
    → leb max_entries (length s.entries) ≡ false
    → valid_entry (draft s event now) ≡ true
    → is_next s.seen event ≡ true
    → AppendResult codec s event now (append_entry codec s (draft s event now) disk)
unfolding append_entry append_line
append_entry-AppendResult codec s event now disk room valid follows =
    elim (Option-cases (codec.encode (sealed codec (draft s event now)))) [
      | inl e ↦
          subst
            (λ o.
              AppendResult codec s event now
                (append_line s (sealed codec (draft s event now)) disk o))
            (sym e) (refused)
      | inr (raw, e) ↦
          subst
            (λ o.
              AppendResult codec s event now
                (append_line s (sealed codec (draft s event now)) disk o))
            (sym e)
            (elim (Bool-cases
              (ltb max_line (suc (length raw)) || ltb max_bytes (s.size + suc (length raw)))) [
                | inl f ↦ subst (AppendResult codec s event now) (ground (arith, f)) refused
                | inr f ↦ subst (AppendResult codec s event now) (ground (arith, f)) (
                    write_line-AppendResult codec s event now raw disk e (λ faithful utf8.
                      check_line-append codec s event now raw faithful utf8 e (ground (arith, f))
                        room valid follows))
              ])
    ]

append-AppendResult :
    (codec : Codec) (s : Store) (event : AuditEvent) (now : ℕ) (disk : DiskAnswer)
    → AppendResult codec s event now (append codec s event now disk)
unfolding append
append-AppendResult codec s event now disk = elim (Bool-cases (s.failed || not s.is_open)) [
  | inl e ↦ rw e refused
  | inr e ↦ rw e (elim (Bool-cases (leb max_entries (length s.entries) || leb max_bytes s.size)) [
    | inl f ↦ rw f refused
    | inr f ↦ rw f (elim (Bool-cases (valid_entry (draft s event now))) [
      | inr g ↦ rw g refused
      | inl g ↦ rw g (elim (Bool-cases (is_next s.seen event)) [
        | inr h ↦ rw h refused
        | inl h ↦ rw h (append_entry-AppendResult codec s event now disk (ground (arith, f)) g h)
      ])
    ])
  ])
]

AppendResult-Consistent :
    (codec : Codec) (s : Store) (event : AuditEvent) (now : ℕ) (o : Store × Bool)
    → Faithful codec
    → has_utf8 codec (sealed codec (draft s event now)) ≡ true
    → Consistent codec s
    → s.failed ≡ false
    → AppendResult codec s event now o
    → (Consistent codec o.0 × (o.0.failed ≡ false))
      ⊎ ((o.0.failed ≡ true) × (o.0.entries ≡ s.entries))
AppendResult-Consistent codec s event now _ faithful utf8 c sound refused = inl (c, sound)
AppendResult-Consistent codec s event now _ faithful utf8 c sound (torn part) = inr (refl, refl)
AppendResult-Consistent codec s event now _ faithful utf8 c sound (appended raw encoded checked) =
    inl
      (extended-Consistent codec s event now raw faithful c encoded (checked faithful utf8), sound)

-- Where encoding/json keeps entries in valid UTF-8, a call of `Append` that would record such an
-- entry, on a sound journal that verifies, leaves a sound journal whose file, read again, verifies
-- and gives the entries in memory, or else a journal that has failed and has no new entry.
pub append-Consistent :
    (codec : Codec) (s : Store) (event : AuditEvent) (now : ℕ) (disk : DiskAnswer)
    → Faithful codec
    → has_utf8 codec (sealed codec (draft s event now)) ≡ true
    → Consistent codec s
    → s.failed ≡ false
    → (Consistent codec (append codec s event now disk).0
        × ((append codec s event now disk).0.failed ≡ false))
      ⊎ (((append codec s event now disk).0.failed ≡ true)
          × ((append codec s event now disk).0.entries ≡ s.entries))
append-Consistent codec s event now disk faithful utf8 c sound =
    AppendResult-Consistent codec s event now (append codec s event now disk) faithful utf8 c sound
      (append-AppendResult codec s event now disk)

-- A journal is sound if its file, read again, gives its entries, or if it has failed, or if an entry
-- is not in valid UTF-8.
abbrev pub Sound : Codec → Store → Type 0
Sound codec s =
    (Consistent codec s × (s.failed ≡ false))
    ⊎ ((s.failed ≡ true) ⊎ (all_utf8 codec s.entries ≡ false))

all_utf8-old :
    (codec : Codec) (es : List Entry) (e : Entry)
    → all_utf8 codec es ≡ false
    → all_utf8 codec (es ++ e ∷ []) ≡ false
unfolding all_utf8
all_utf8-old codec [] e h = absurd (cc h)
all_utf8-old codec (x ∷ es) e h = ground (arith, h, all_utf8-old codec es e)

all_utf8-new :
    (codec : Codec) (es : List Entry) (e : Entry)
    → has_utf8 codec e ≡ false
    → all_utf8 codec (es ++ e ∷ []) ≡ false
unfolding all_utf8
all_utf8-new codec [] e h = ground (arith, h)
all_utf8-new codec (x ∷ es) e h = ground (arith, all_utf8-new codec es e h)

AppendResult-Sound :
    (codec : Codec) (s : Store) (event : AuditEvent) (now : ℕ) (o : Store × Bool)
    → Faithful codec
    → Sound codec s
    → AppendResult codec s event now o
    → Sound codec o.0
AppendResult-Sound codec s event now _ faithful v refused = v
AppendResult-Sound codec s event now _ faithful v (torn part) = inr (inl refl)
AppendResult-Sound codec s event now _ faithful (inr (inl down)) (appended raw encoded checked) =
    inr (inl down)
AppendResult-Sound codec s event now _ faithful (inr (inr bad)) (appended raw encoded checked) =
    inr (inr (all_utf8-old codec s.entries (sealed codec (draft s event now)) bad))
AppendResult-Sound codec s event now _ faithful (inl (c, up)) (appended raw encoded checked) =
    elim (Bool-cases (has_utf8 codec (sealed codec (draft s event now)))) [
      | inl utf8 ↦
          inl (
            extended-Consistent codec s event now raw faithful c encoded (checked faithful utf8),
            up,
          )
      | inr bad ↦ inr (inr (all_utf8-new codec s.entries (sealed codec (draft s event now)) bad))
    ]

-- `Append` keeps a journal sound.
pub append-Sound :
    (codec : Codec) (s : Store) (event : AuditEvent) (now : ℕ) (disk : DiskAnswer)
    → Faithful codec
    → Sound codec s
    → Sound codec (append codec s event now disk).0
append-Sound codec s event now disk faithful v =
    AppendResult-Sound codec s event now (append codec s event now disk) faithful v
      (append-AppendResult codec s event now disk)

AppendResult-records :
    (codec : Codec) (s : Store) (event : AuditEvent) (now : ℕ) (o : Store × Bool)
    → AppendResult codec s event now o
    → o.0.entries ≡ (if o.1 then s.entries ++ sealed codec (draft s event now) ∷ [] else s.entries)
AppendResult-records codec s event now _ refused = refl
AppendResult-records codec s event now _ (torn part) = refl
AppendResult-records codec s event now _ (appended raw encoded checked) = refl

-- `Append` reports success exactly when it has recorded the
-- event: with success the journal has one more entry, the event's, and with an error its entries
-- are the same.
pub append-records :
    (codec : Codec) (s : Store) (event : AuditEvent) (now : ℕ) (disk : DiskAnswer)
    → (append codec s event now disk).0.entries ≡ (
        if (append codec s event now disk).1
        then s.entries ++ sealed codec (draft s event now) ∷ []
        else s.entries)
append-records codec s event now disk =
    AppendResult-records codec s event now (append codec s event now disk)
      (append-AppendResult codec s event now disk)
