-- ===== src/Runs/Journaled.antt =====
-- internal/runs/manager.go with internal/audittrail/store.go: the run manager on the journal.
use cliharbor.Prelude.{◌≡◌, refl, ◌⊎◌, inl, inr, Bool, true, Option, none, some, List, [], ◌∷◌}
use cliharbor.Prelude.Result.{ok}
use cliharbor.Prelude.Text.{Text, lit}
use cliharbor.Prelude.Dict.{lookup}
use cliharbor.Packs.Registry.{Registry}
use cliharbor.Discovery.{Snapshot}
use cliharbor.Audit.{AuditEvent}
use cliharbor.Audit.Entry.{Entry, Codec}
use cliharbor.Audit.Chain.{Faithful, Sound}
use cliharbor.Audit.Sink.{Journal, journal_sink, newest_first}
use cliharbor.Runs.{Manager, Record}
use cliharbor.Runs.New.{Options, new_manager}
use cliharbor.Runs.Logged.{HasApproval, IsEvidenced}
use cliharbor.Runs.Evidence.{reachable-AllLogged}
use cliharbor.Runs.Machine.{Reach}

-- An entry of the journal approves the run.
abbrev pub Approves : Text → List Entry → Type 0
Approves id [] = ⊥
Approves id (e ∷ es) = ((e.event.run_id ≡ id) × (e.event.action ≡ lit "approved")) ⊎ Approves id es

HasApproval-Approves :
    (id : Text) (later : List AuditEvent) (es : List Entry)
    → HasApproval id (newest_first later es)
    → Approves id es ⊎ HasApproval id later
HasApproval-Approves id later [] h = inr h
HasApproval-Approves id later (e ∷ es) h = elim (HasApproval-Approves id (e.event ∷ later) es h) [
  | inl a ↦ inl (inr a)
  | inr (inl here) ↦ inl (inl here)
  | inr (inr there) ↦ inr there
]

-- A journal that approves the run, and that has failed, or whose file, read again, gives its entries,
-- or that holds an entry not in valid UTF-8.
pub record Journaled (codec : Codec) (audit : Option (Journal codec)) (id : Text) : Type 0 where
  pub journal : Journal codec
  pub kept : audit ≡ some journal
  pub approved : Approves id journal.store.entries
  pub sound : Sound codec journal.store

-- Where encoding/json keeps entries in valid UTF-8, in every state that a new manager on a sound
-- journal reaches, each run that came of a change or a destructive plan has an entry of the journal
-- that approves it; and the journal has failed, or holds an entry that is not in valid UTF-8, or its
-- file, read again, verifies and gives these entries.
pub reachable-Journaled :
    (codec : Codec) (faithful : Faithful codec) (parent done : Bool) (registry : Option Registry)
    (snapshot : Snapshot) (o : Options) (audit : Option (Journal codec))
    {m n : Manager (Journal codec)} (id : Text) (r : Record)
    → new_manager parent done registry snapshot o audit ≡ ok m
    → Reach (journal_sink codec faithful) m n
    → lookup id n.runs ≡ some r
    → r.audited ≡ true
    → Journaled codec n.audit id
reachable-Journaled codec faithful parent done registry snapshot o audit {n = n} id r made path
      found mutation =
    journaled n.audit (
      (reachable-AllLogged (journal_sink codec faithful) parent done registry snapshot o audit made
          path).evidence
        id r found mutation)
  where
    journaled :
        (kept : Option (Journal codec))
        → IsEvidenced (journal_sink codec faithful) kept id
        → Journaled codec kept id
    journaled none e = absurd e
    journaled (some j) e = elim (HasApproval-Approves id [] j.store.entries e) [
      | inl a ↦ record { journal = j; kept = refl; approved = a; sound = j.sound }
      | inr never ↦ absurd never
    ]
