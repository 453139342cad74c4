-- ===== src/Runs/Evidence.antt =====
-- Nothing that changes anything runs without a durable audit record of its approval.
use cliharbor.Prelude.{
  ℕ, ◌≡◌, refl, sym, subst, ap, ◌∙◌, inl, inr, Bool, true, ◌&&◌, ◌||◌, Option, none, some, [],
  arith, Bool-cases, Option-cases,
}
use cliharbor.Prelude.Result.{Result, ok}
use cliharbor.Prelude.Text.{Text, text_eq, text_eq_iff}
use cliharbor.Prelude.Dict.{lookup, insert, lookup-insert, lookup_nil}
use cliharbor.Packs.Registry.{Registry}
use cliharbor.Discovery.{Snapshot}
use cliharbor.Runs.New.{Options, with_defaults, fresh_manager, new_manager}
use cliharbor.Planner.{Plan}
use cliharbor.Audit.{AuditSink}
use cliharbor.Executor.{ExecResult}
use cliharbor.Executor
use cliharbor.Approvals.{ApprovalSubmission, requires_approval, valid_run_id}
use cliharbor.Runs.{Record, Manager, Config, Error, is_running}
use cliharbor.Runs.Events.{append_event, record_event}
use cliharbor.Runs.Start.{approved_event, authorize, new_record, add_run, open_approval}
use cliharbor.Runs.Query.{cancel, shutdown}
use cliharbor.Runs.Room.{Roomy}
use cliharbor.Runs.Authorization.{
  SameRuns, Authorization, unneeded, unavailable, denied, blocked, unlogged, logged,
  authorize-Authorization,
}
use cliharbor.Runs.Invariant.{Inv}
use cliharbor.Runs.Admission.{
  Admission, shut, full, duplicate, refused, admitted, admit-Admission, Accepted, accept-Accepted,
  authorization-SameRuns,
}
use cliharbor.Runs.Steps.{append_event-SameRun, activated}
use cliharbor.Runs.Machine.{
  Step, admits, opens, records, settles, returns, cancels, activates, shuts, ends, Reach, here,
  next, Reach-Inv, new_manager-eq-ok, new_manager-Inv,
}
use cliharbor.Runs.Logged.{
  HasApproval, IsEvidenced, AllEvidenced, append-AllEvidenced, insert-AllEvidenced, AllLogged,
  settle-AllLogged,
}

module _ {J : Type 0} (sink : AuditSink J) where
  -- The approval block adds the approval of the run that it lets pass, and loses none.
  abbrev Passes : Manager J → Text → Plan → Manager J × Option Error → Type 0
  Passes m run_id plan out =
      AllEvidenced sink m.runs out.0.audit
      × (out.1 ≡ none → requires_approval plan ≡ true → IsEvidenced sink out.0.audit run_id)

  Authorization-Passes :
      (m : Manager J) (run_id : Text) (plan : Plan) (fingerprint : Text)
      (submission : Option ApprovalSubmission) (now : ℕ) (out : Manager J × Option Error)
      → AllLogged sink m
      → Authorization sink m run_id plan fingerprint submission now out
      → Passes m run_id plan out
  unfolding approved_event
  Authorization-Passes m run_id plan fingerprint submission now out h (unneeded r e) =
      subst (Passes m run_id plan) (sym e) (h.evidence, λ _ r'. cc)
  Authorization-Passes m run_id plan fingerprint submission now out h (unavailable _ _ e) =
      subst (Passes m run_id plan) (sym e) (h.evidence, λ f _. cc)
  Authorization-Passes m run_id plan fingerprint submission now out h (denied _ _ _ e) =
      subst (Passes m run_id plan) (sym e) (h.evidence, λ f _. cc)
  Authorization-Passes m run_id plan fingerprint submission now out h (blocked _ _ _ _ e) =
      subst (Passes m run_id plan) (sym e) (h.evidence, λ f _. cc)
  Authorization-Passes m run_id plan fingerprint submission now out h (unlogged j i _ _ a _ _ _ e) =
      subst (Passes m run_id plan) (sym e) (
        append-AllEvidenced sink m.runs j (approved_event sink run_id plan i)
            (subst (AllEvidenced sink m.runs) a h.evidence),
        λ f _. cc,
      )
  Authorization-Passes m run_id plan fingerprint submission now out h
        (logged j i _ _ a _ _ done e) =
      subst (Passes m run_id plan) (sym e) (
        append-AllEvidenced sink m.runs j (approved_event sink run_id plan i)
            (subst (AllEvidenced sink m.runs) a h.evidence),
        λ _ _.
            subst (HasApproval run_id)
              (sym (sink.append_success j (approved_event sink run_id plan i) done))
              (inl (refl, refl)),
      )

  module _ (m : Manager J) (run_id : Text) (plan : Plan) (fingerprint : Text)
      (submission : Option ApprovalSubmission) (now : ℕ) where
    -- The approval block's manager.
    abbrev after : Manager J
    after = (authorize sink m run_id plan fingerprint submission now).0

    passes :
        AllLogged sink m
        → Passes m run_id plan (authorize sink m run_id plan fingerprint submission now)
    passes h =
        Authorization-Passes m run_id plan fingerprint submission now _ h
          (authorize-Authorization sink m run_id plan fingerprint submission now)

    after-AllEvidenced : Inv m → AllLogged sink m → AllEvidenced sink after.runs after.audit
    after-AllEvidenced v h =
        subst (λ rs. AllEvidenced sink rs after.audit) (sym same.same_runs) (passes h).0
      where
        same : SameRuns sink m after
        same = authorization-SameRuns sink m run_id plan fingerprint submission now v

    added-AllLogged :
        (roomy : Manager J)
        → Inv m
        → AllLogged sink m
        → Roomy after roomy
        → (authorize sink m run_id plan fingerprint submission now).1 ≡ none
        → AllLogged sink (add_run sink roomy (new_record sink run_id plan))
    unfolding add_run new_record
    added-AllLogged roomy v h q granted =
        subst (λ x. AllLogged sink (add_run sink x (new_record sink run_id plan))) (sym q.rest)
          (record { evidence = evidence })
      where
        evidence :
            AllEvidenced sink (insert run_id (new_record sink run_id plan) roomy.runs) after.audit
        evidence j s g a = elim (Bool-cases (text_eq run_id j)) [
          | inl e ↦
              let found : new_record sink run_id plan ≡ s =
                ground (arith, lookup-insert run_id j (new_record sink run_id plan) roomy.runs) in
              let needed : requires_approval plan ≡ true =
                ap (λ (x : Record). x.audited) found ∙ a in
              subst (IsEvidenced sink after.audit) ((text_eq_iff run_id j).0 e)
                ((passes h).1 granted needed)
          | inr e ↦
              after-AllEvidenced v h j s
                (q.subset j s
                  (ground (arith, lookup-insert run_id j (new_record sink run_id plan) roomy.runs)))
                a
        ]

    Admission-AllLogged :
        (out : Manager J × Result Error Record)
        → Inv m
        → AllLogged sink m
        → Admission sink m run_id plan fingerprint submission now out
        → AllLogged sink out.0
    unfolding Accepted
    Admission-AllLogged out v h (shut _ e) = subst (λ o. AllLogged sink o.0) (sym e) h
    Admission-AllLogged out v h (full _ e) = subst (λ o. AllLogged sink o.0) (sym e) h
    Admission-AllLogged out v h (duplicate _ e) = subst (λ o. AllLogged sink o.0) (sym e) h
    Admission-AllLogged out v h (refused _ _ e) =
        subst (λ o. AllLogged sink o.0) (sym e) (record { evidence = after-AllEvidenced v h })
    Admission-AllLogged out v h (admitted _ free fresh granted e) =
        let (roomy, q, done, _) =
          accept-Accepted sink m run_id plan fingerprint submission now v free fresh in
        subst (λ o. AllLogged sink o.0) (sym (e ∙ done)) (added-AllLogged roomy v h q granted)

  -- A section that keeps the audit sink, and each run's origin.
  keep-AllLogged :
      (m : Manager J) (id : Text) (old r : Record)
      → lookup id m.runs ≡ some old
      → r.audited ≡ old.audited
      → AllLogged sink m
      → AllLogged sink (record m { runs = insert id r m.runs })
  keep-AllLogged m id old r f same h = record {
    evidence = insert-AllEvidenced sink m.runs m.audit id old r f same h.evidence;
  }

  record_event-AllLogged :
      (m : Manager J) (id : Text) (e : Executor.Event)
      → AllLogged sink m
      → AllLogged sink (record_event m id e).0
  unfolding record_event
  record_event-AllLogged m id e h = elim (Option-cases (lookup id m.runs)) [
    | inl absent ↦ rw (absent, record_event) h
    | inr (r, found) ↦
        let (r', _) = append_event m.config.max_event_bytes_per_run r e in
        rw (found, record_event)
          (keep-AllLogged m id r r' found
            (append_event-SameRun m.config.max_event_bytes_per_run r e).3 h)
  ]

  cancel-AllLogged : (m : Manager J) (id : Text) → AllLogged sink m → AllLogged sink (cancel m id).0
  unfolding cancel
  cancel-AllLogged m id h = elim (Option-cases (lookup id m.runs)) [
    | inl absent ↦ subst (AllLogged sink) (ground arith) h
    | inr (r, found) ↦ elim (Bool-cases (valid_run_id id && is_running r.status)) [
      | inl both ↦
          subst (AllLogged sink) (ground arith)
            (keep-AllLogged m id r (record r { context_cancelled = true }) found refl h)
      | inr other ↦ subst (AllLogged sink) (ground arith) h
    ]
  ]

  Step-AllLogged : {m n : Manager J} → Step sink m n → Inv m → AllLogged sink m → AllLogged sink n
  unfolding open_approval shutdown
  Step-AllLogged {m} (admits id plan fingerprint submission now good) v h =
      Admission-AllLogged m id plan fingerprint submission now _ v h
        (admit-Admission sink m id plan fingerprint submission now)
  Step-AllLogged {m} (opens id r now good) v h = elim (Bool-cases (m.is_closed || m.context_done)) [
    | inl gone ↦ rw gone h
    | inr open_still ↦ rw open_still (record { evidence = h.evidence })
  ]
  Step-AllLogged {m} (records id e) v h = record_event-AllLogged m id e h
  Step-AllLogged {m} (settles id failure result parsed now) v h =
      settle-AllLogged sink m id failure result parsed now v h
  Step-AllLogged returns v h = record { evidence = h.evidence }
  Step-AllLogged {m} (cancels id) v h = cancel-AllLogged m id h
  Step-AllLogged {m} (activates matches state) v h = elim (activated m matches state) [
    | inl e ↦ subst (AllLogged sink) (sym e) h
    | inr (d, e) ↦ subst (AllLogged sink) (sym e) (record { evidence = h.evidence })
  ]
  Step-AllLogged shuts v h = record { evidence = h.evidence }
  Step-AllLogged ends v h = record { evidence = h.evidence }

  pub Reach-AllLogged :
      {m n : Manager J} → Reach sink m n → Inv m → AllLogged sink m → AllLogged sink n
  Reach-AllLogged here v h = h
  Reach-AllLogged (next r st) v h = Step-AllLogged st (Reach-Inv sink r v) (Reach-AllLogged r v h)

  fresh_manager-AllLogged :
      (reg : Registry) (done : Bool) (snapshot : Snapshot) (c : Config) (audit : Option J)
      → AllLogged sink (fresh_manager reg done snapshot c audit)
  unfolding fresh_manager
  fresh_manager-AllLogged reg done snapshot c audit = record {
    evidence = λ id r e _. absurd (no_run id r e);
  }
    where
      no_run : (id : Text) (r : Record) → lookup id [] ≡ some r → ⊥
      no_run id r e = cc (lookup_nil {V = Record} id)

  -- In every state that a new manager reaches, each run that came of a change or a destructive plan
  -- has its approval recorded in the audit sink, under its own identifier.
  pub reachable-AllLogged :
      (parent done : Bool) (registry : Option Registry) (snapshot : Snapshot) (o : Options)
      (audit : Option J) {m n : Manager J}
      → new_manager parent done registry snapshot o audit ≡ ok m
      → Reach sink m n
      → AllLogged sink n
  reachable-AllLogged parent done registry snapshot o audit e r =
      let (reg, _, _, made, _, _) = new_manager-eq-ok parent done registry snapshot o audit e in
      Reach-AllLogged r (new_manager-Inv parent done registry snapshot o audit e) (
        subst (AllLogged sink) made
          (fresh_manager-AllLogged reg done snapshot (with_defaults o) audit))
