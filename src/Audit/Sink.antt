-- ===== src/Audit/Sink.antt =====
-- The journal of internal/audittrail/store.go as the audit sink of internal/runs/manager.go. The clock
-- and the disk answer each call from a list; where it has ended, the call fails.
use cliharbor.Prelude.{ℕ, ◌≡◌, refl, ap, ◌∙◌, Bool, true, false, List, [], ◌∷◌, ◌++◌, if◌then◌else◌}
use cliharbor.Audit.{AuditEvent, AuditSink}
use cliharbor.Audit.Entry.{Entry, Codec}
use cliharbor.Audit.Journal.{Store, DiskAnswer, append, draft, sealed}
use cliharbor.Audit.Chain.{Faithful, Sound, append-Sound, append-records}

-- An open journal with the answers to come.
pub record Journal (codec : Codec) : Type 0 where
  pub store : Store
  pub answers : List (ℕ × DiskAnswer)
  pub sound : Sound codec store

abbrev pub newest_first : List AuditEvent → List Entry → List AuditEvent
newest_first later [] = later
newest_first later (e ∷ es) = newest_first (e.event ∷ later) es

newest_first-snoc :
    (later : List AuditEvent) (es : List Entry) (e : Entry)
    → newest_first later (es ++ e ∷ []) ≡ e.event ∷ newest_first later es
newest_first-snoc later [] e = refl
newest_first-snoc later (x ∷ es) e = newest_first-snoc (x.event ∷ later) es e

module _ (codec : Codec) (faithful : Faithful codec) where
  abbrev pub append_next : List (ℕ × DiskAnswer) → Journal codec → AuditEvent → Journal codec × Bool
  append_next [] j event = (j, false)
  append_next ((now, disk) ∷ rest) j event = (
    record {
      store = (append codec j.store event now disk).0;
      answers = rest;
      sound = append-Sound codec j.store event now disk faithful j.sound;
    },
    (append codec j.store event now disk).1,
  )

  abbrev pub recorded_in : Journal codec → List AuditEvent
  recorded_in j = newest_first [] j.store.entries

  pub append_next-success :
      (answers : List (ℕ × DiskAnswer)) (j : Journal codec) (event : AuditEvent)
      → (append_next answers j event).1 ≡ true
      → recorded_in (append_next answers j event).0 ≡ event ∷ recorded_in j
  unfolding draft
  append_next-success [] j event h = absurd (cc h)
  append_next-success ((now, disk) ∷ rest) j event h =
      let grown : (append codec j.store event now disk).0.entries
          ≡ j.store.entries ++ sealed codec (draft j.store event now) ∷ [] =
        append-records codec j.store event now disk
        ∙ ap
            (λ b.
              if b
              then j.store.entries ++ sealed codec (draft j.store event now) ∷ []
              else j.store.entries)
            h in
      ap (newest_first []) grown
      ∙ newest_first-snoc [] j.store.entries (sealed codec (draft j.store event now))

  pub append_next-failure :
      (answers : List (ℕ × DiskAnswer)) (j : Journal codec) (event : AuditEvent)
      → (append_next answers j event).1 ≡ false
      → recorded_in (append_next answers j event).0 ≡ recorded_in j
  append_next-failure [] j event h = refl
  append_next-failure ((now, disk) ∷ rest) j event h = ap (newest_first []) (
      append-records codec j.store event now disk
      ∙ ap
          (λ b.
            if b
            then j.store.entries ++ sealed codec (draft j.store event now) ∷ []
            else j.store.entries)
          h)

  -- The journal keeps the laws of the sink.
  abbrev pub journal_sink : AuditSink (Journal codec)
  journal_sink = record {
    append = λ j event. append_next j.answers j event;
    recorded = recorded_in;
    append_success = λ j event h. append_next-success j.answers j event h;
    append_failure = λ j event h. append_next-failure j.answers j event h;
  }
