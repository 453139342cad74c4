-- ===== src/Runs/Logged.antt =====
-- Which runs have their approval in the audit sink, and that the end of a run keeps it so.
use cliharbor.Prelude.{
  ℕ, ◌-◌, ◌≡◌, refl, sym, subst, ap, ◌∙◌, ◌⊎◌, inl, inr, Bool, true, not, ◌||◌, Option, none, some,
  List, [], ◌∷◌, arith, Bool-cases, Option-cases,
}
use cliharbor.Prelude.Text.{Text, lit, text_eq, text_eq_iff}
use cliharbor.Prelude.Dict.{Dict, lookup, insert, lookup-insert}
use cliharbor.Audit.{AuditEvent, AuditSink}
use cliharbor.Executor.{ExecResult}
use cliharbor.Structured.{Outcome}
use cliharbor.Runs.{Record, Manager, is_running}
use cliharbor.Runs.Execute.{
  RunFailure, conclude, close_record, completed_event, log_completed, settle_record, settle,
}
use cliharbor.Runs.Invariant.{Inv}

-- An approval of the run among the audit events.
abbrev pub HasApproval : Text → List AuditEvent → Type 0
HasApproval id [] = ⊥
HasApproval id (e ∷ rest) = ((e.run_id ≡ id) × (e.action ≡ lit "approved")) ⊎ HasApproval id rest

module _ {J : Type 0} (sink : AuditSink J) where
  -- The journal holds an approval of the run.
  abbrev pub IsEvidenced : Option J → Text → Type 0
  IsEvidenced none id = ⊥
  IsEvidenced (some j) id = HasApproval id (sink.recorded j)

  -- Each run that came of a mutation has its approval in the journal.
  abbrev pub AllEvidenced : Dict Record → Option J → Type 0
  AllEvidenced runs audit =
      (id : Text) (r : Record) → lookup id runs ≡ some r → r.audited ≡ true → IsEvidenced audit id

  -- An append, accepted or not, loses no record.
  pub append-HasApproval :
      (j : J) (e : AuditEvent) (id : Text)
      → HasApproval id (sink.recorded j)
      → HasApproval id (sink.recorded (sink.append j e).0)
  append-HasApproval j e id h = elim (Bool-cases (sink.append j e).1) [
    | inl taken ↦ rw (sink.append_success j e taken) (inr h)
    | inr lost ↦ rw (sink.append_failure j e lost) h
  ]

  pub append-AllEvidenced :
      (runs : Dict Record) (j : J) (e : AuditEvent)
      → AllEvidenced runs (some j)
      → AllEvidenced runs (some (sink.append j e).0)
  append-AllEvidenced runs j e h id r f a = append-HasApproval j e id (h id r f a)

  -- Replacing a record by one of the same origin.
  pub insert-AllEvidenced :
      (runs : Dict Record) (audit : Option J) (id : Text) (old r : Record)
      → lookup id runs ≡ some old
      → r.audited ≡ old.audited
      → AllEvidenced runs audit
      → AllEvidenced (insert id r runs) audit
  insert-AllEvidenced runs audit id old r f same h j s g a = elim (Bool-cases (text_eq id j)) [
    | inl e ↦
        let named : id ≡ j = (text_eq_iff id j).0 e in
        let found : r ≡ s = ground (arith, lookup-insert id j r runs) in
        subst (IsEvidenced audit) named
          (h id old f (sym same ∙ ap (λ (x : Record). x.audited) found ∙ a))
    | inr e ↦ h j s (ground (arith, lookup-insert id j r runs)) a
  ]

  -- Each run of the manager that came of a mutation has its approval in the journal.
  pub record AllLogged (m : Manager J) : Type 0 where
    pub evidence : AllEvidenced m.runs m.audit

  pub conclude-audited :
      (r : Record) (failure : Option RunFailure) (result : ExecResult) (now : ℕ)
      → (conclude r failure result now).audited ≡ r.audited
  unfolding conclude
  conclude-audited r none result now = refl
  conclude-audited r (some f) result now = refl

  pub settle_record-AllLogged :
      (m : Manager J) (r : Record) (failure : Option RunFailure) (result : ExecResult)
      (parsed : Option Outcome) (now : ℕ)
      → lookup r.run_id m.runs ≡ some r
      → AllLogged m
      → AllLogged (settle_record sink m r failure result parsed now)
  unfolding settle_record log_completed close_record
  settle_record-AllLogged m r failure result parsed now found h = elim (Bool-cases r.audited) [
    | inr no_audit ↦ subst AllLogged (ground arith) (kept m.audit m.audit_failed h.evidence)
    | inl audited ↦ elim (Option-cases m.audit) [
      | inl absent ↦ subst AllLogged (ground arith) (kept m.audit m.audit_failed h.evidence)
      | inr (j, present) ↦
          let (j', taken) = sink.append j (completed_event sink (conclude r failure result now)) in
          subst AllLogged (ground arith) (
            kept (some j') (m.audit_failed || not taken) (
              append-AllEvidenced m.runs j (completed_event sink (conclude r failure result now))
                (subst (AllEvidenced m.runs) present h.evidence)))
    ]
  ]
    where
      kept :
          (audit : Option J) (audit_failed : Bool)
          → AllEvidenced m.runs audit
          → AllLogged (record m {
            audit = audit;
            audit_failed = audit_failed;
            active = m.active - 1;
            runs = insert r.run_id (close_record (conclude r failure result now) parsed) m.runs;
          })
      kept audit audit_failed g = record {
        evidence =
            insert-AllEvidenced m.runs audit r.run_id r
              (close_record (conclude r failure result now) parsed) found
              (conclude-audited r failure result now) g;
      }

  pub settle-AllLogged :
      (m : Manager J) (id : Text) (failure : Option RunFailure) (result : ExecResult)
      (parsed : Option Outcome) (now : ℕ)
      → Inv m
      → AllLogged m
      → AllLogged (settle sink m id failure result parsed now)
  unfolding settle
  settle-AllLogged m id failure result parsed now v h = elim (Option-cases (lookup id m.runs)) [
    | inl absent ↦ rw (absent, settle) h
    | inr (r, found) ↦ elim (Bool-cases (is_running r.status)) [
      | inr ended ↦ subst AllLogged (ground arith) h
      | inl live ↦ subst AllLogged (ground arith) (
          settle_record-AllLogged m r failure result parsed now
            (subst (λ k. lookup k m.runs ≡ some r) (sym (v.own id r found).0) found) h)
    ]
  ]
