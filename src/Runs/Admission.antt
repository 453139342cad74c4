-- ===== src/Runs/Admission.antt =====
-- The outcomes of the second locked part of `Start`, and what they leave of the runs.
use cliharbor.Prelude.{
  ℕ, ◌≤◌, ◌<◌, ◌≡◌, sym, subst, ap, ◌∙◌, ◌⊎◌, suc, [], ◌∷◌, ◌++◌, inl, inr, true, false, ◌||◌,
  Option, none, some, leb, is_some, arith, Bool-cases, Option-cases,
}
use cliharbor.Prelude.Result.{Result, ok, err}
use cliharbor.Prelude.Text.{Text, text_eq_refl}
use cliharbor.Prelude.Dict.{lookup, insert, lookup-insert}
use cliharbor.Planner.{Plan}
use cliharbor.Audit.{AuditSink}
use cliharbor.Approvals.{ApprovalSubmission}
use cliharbor.Runs.{Record, Manager, Error, internal, closed, capacity, duplicate_run_id}
use cliharbor.Runs.Start.{failed_with, authorize, accept, admit, new_record, add_run}
use cliharbor.Runs.Room.{Roomy}
use cliharbor.Runs.Authorization.{SameRuns, authorize-Authorization, Authorization-SameRuns}
use cliharbor.Runs.Invariant.{Inv, Inv-SameRuns, accept_lem}

module _ {J : Type 0} (sink : AuditSink J) (m : Manager J) (run_id : Text) (plan : Plan)
    (fingerprint : Text) (submission : Option ApprovalSubmission) (now : ℕ) where
  -- What the approval block answers.
  abbrev pub authorization : Manager J × Option Error
  authorization = authorize sink m run_id plan fingerprint submission now

  pub data Admission (out : Manager J × Result Error Record) : Type 0 where
    shut :
        (m.is_closed || m.context_done) ≡ true → out ≡ (m, err (failed_with closed)) → Admission out
    full : m.config.max_active ≤ m.active → out ≡ (m, err (failed_with capacity)) → Admission out
    duplicate :
        is_some (lookup run_id m.runs) ≡ true
        → out ≡ (m, err (internal duplicate_run_id))
        → Admission out
    refused :
        (e : Error) → authorization.1 ≡ some e → out ≡ (authorization.0, err e) → Admission out
    admitted :
        (m.is_closed || m.context_done) ≡ false
        → m.active < m.config.max_active
        → lookup run_id m.runs ≡ none
        → authorization.1 ≡ none
        → out ≡ accept sink authorization.0 run_id plan
        → Admission out

  -- Every call of the second locked part of `Start` ends in one of these five outcomes.
  pub admit-Admission : Admission (admit sink m run_id plan fingerprint submission now)
  unfolding admit
  admit-Admission = elim (Bool-cases (m.is_closed || m.context_done)) [
    | inl gone ↦ shut gone (rw gone)
    | inr here ↦ elim (Bool-cases (leb m.config.max_active m.active)) [
      | inl no_slot ↦ full (ground arith) (rw (here, no_slot))
      | inr slot ↦ elim (Option-cases (lookup run_id m.runs)) [
        | inr (r, taken) ↦ duplicate (rw taken) (rw (here, slot, taken))
        | inl fresh ↦ elim (Option-cases authorization.1) [
          | inr (e, no_grant) ↦ refused e no_grant (rw (here, slot, fresh, no_grant))
          | inl granted ↦
              admitted here (ground arith) fresh granted (rw (here, slot, fresh, granted))
        ]
      ]
    ]
  ]

  module _ (v : Inv m) where
    pub authorization-SameRuns : SameRuns sink m authorization.0
    authorization-SameRuns =
        Authorization-SameRuns sink m run_id plan fingerprint submission now authorization v.table
          (authorize-Authorization sink m run_id plan fingerprint submission now)

    pub authorization-Inv : Inv authorization.0
    authorization-Inv = Inv-SameRuns sink m authorization.0 v authorization-SameRuns

    -- What an admitted run finds: room, and itself in the map.
    unfoldable pub Accepted : Manager J × Result Error Record → Type 0
    Accepted out =
        (roomy : Manager J) × Roomy authorization.0 roomy
        × (out
            ≡ (add_run sink roomy (new_record sink run_id plan), ok (new_record sink run_id plan)))
        × Inv (add_run sink roomy (new_record sink run_id plan))

    pub accept-Accepted :
        m.active < m.config.max_active
        → lookup run_id m.runs ≡ none
        → Accepted (accept sink authorization.0 run_id plan)
    unfolding Accepted
    accept-Accepted free fresh =
        accept_lem sink authorization.0 run_id plan authorization-Inv
          (rw (s.same_active, s.same_config) free) (rw s.same_runs fresh)
      where
        s : SameRuns sink m authorization.0
        s = authorization-SameRuns

    Admission-Inv : (out : Manager J × Result Error Record) → Admission out → Inv out.0
    unfolding Accepted
    Admission-Inv out (shut _ e) = subst (λ o. Inv o.0) (sym e) v
    Admission-Inv out (full _ e) = subst (λ o. Inv o.0) (sym e) v
    Admission-Inv out (duplicate _ e) = subst (λ o. Inv o.0) (sym e) v
    Admission-Inv out (refused _ _ e) = subst (λ o. Inv o.0) (sym e) authorization-Inv
    Admission-Inv out (admitted _ free fresh _ e) =
        let (roomy, _, q, after) = accept-Accepted free fresh in
        subst (λ o. Inv o.0) (sym (e ∙ q)) after

    -- The invariant holds after the call, whichever way it ends.
    pub admit-Inv : Inv (admit sink m run_id plan fingerprint submission now).0
    admit-Inv = Admission-Inv _ admit-Admission

    -- A run that was admitted: what held before, and its place in the manager.
    pub record Admitted (out : Manager J × Result Error Record) : Type 0 where
      pub is_open : (m.is_closed || m.context_done) ≡ false
      pub slot : m.active < m.config.max_active
      pub fresh : lookup run_id m.runs ≡ none
      pub authorized : authorization.1 ≡ none
      pub answer : out.1 ≡ ok (new_record sink run_id plan)
      pub roomy : Manager J
      pub room : Roomy authorization.0 roomy
      pub stored : out.0.runs ≡ insert run_id (new_record sink run_id plan) roomy.runs
      pub found : lookup run_id out.0.runs ≡ some (new_record sink run_id plan)
      pub newest : out.0.order ≡ roomy.order ++ run_id ∷ []
      pub counted : out.0.active ≡ suc m.active
      pub approvals : out.0.approvals ≡ authorization.0.approvals
      pub audit : out.0.audit ≡ authorization.0.audit

    -- Why a run is refused.
    abbrev pub Reason : Error → Type 0
    Reason e =
        ((m.is_closed || m.context_done) ≡ true)
        ⊎ ((m.config.max_active ≤ m.active)
            ⊎ ((is_some (lookup run_id m.runs) ≡ true) ⊎ (authorization.1 ≡ some e)))

    -- A run that was refused leaves the runs as they were.
    pub record Refused (out : Manager J × Result Error Record) : Type 0 where
      pub error : Error
      pub answer : out.1 ≡ err error
      pub reason : Reason error
      pub same_runs : out.0.runs ≡ m.runs
      pub same_order : out.0.order ≡ m.order
      pub same_active : out.0.active ≡ m.active

    Admission-cases :
        (out : Manager J × Result Error Record) → Admission out → Admitted out ⊎ Refused out
    unfolding Accepted add_run new_record
    Admission-cases out (shut gone e) = inr (record {
      error = failed_with closed;
      answer = ap (λ o. o.1) e;
      reason = inl gone;
      same_runs = ap (λ o. o.0.runs) e;
      same_order = ap (λ o. o.0.order) e;
      same_active = ap (λ o. o.0.active) e;
    })
    Admission-cases out (full no_slot e) = inr (record {
      error = failed_with capacity;
      answer = ap (λ o. o.1) e;
      reason = inr (inl no_slot);
      same_runs = ap (λ o. o.0.runs) e;
      same_order = ap (λ o. o.0.order) e;
      same_active = ap (λ o. o.0.active) e;
    })
    Admission-cases out (duplicate taken e) = inr (record {
      error = internal duplicate_run_id;
      answer = ap (λ o. o.1) e;
      reason = inr (inr (inl taken));
      same_runs = ap (λ o. o.0.runs) e;
      same_order = ap (λ o. o.0.order) e;
      same_active = ap (λ o. o.0.active) e;
    })
    Admission-cases out (refused c no_grant e) = inr (record {
      error = c;
      answer = ap (λ o. o.1) e;
      reason = inr (inr (inr no_grant));
      same_runs = ap (λ o. o.0.runs) e ∙ authorization-SameRuns.same_runs;
      same_order = ap (λ o. o.0.order) e ∙ authorization-SameRuns.same_order;
      same_active = ap (λ o. o.0.active) e ∙ authorization-SameRuns.same_active;
    })
    Admission-cases out (admitted here slot fresh granted e) =
        let (roomy, room, q, _) = accept-Accepted slot fresh in
        inl (record {
          is_open = here;
          slot = slot;
          fresh = fresh;
          authorized = granted;
          answer = ap (λ o. o.1) (e ∙ q);
          roomy = roomy;
          room = room;
          stored = ap (λ o. o.0.runs) (e ∙ q);
          found =
              ap (λ o. lookup run_id o.0.runs) (e ∙ q)
              ∙ lookup-insert run_id run_id (new_record sink run_id plan) roomy.runs
              ∙ ground (arith, text_eq_refl run_id);
          newest = ap (λ o. o.0.order) (e ∙ q);
          counted =
              ap (λ o. o.0.active) (e ∙ q)
              ∙ ap (λ (x : Manager J). suc x.active) room.rest
              ∙ ap suc authorization-SameRuns.same_active;
          approvals =
              ap (λ o. o.0.approvals) (e ∙ q) ∙ ap (λ (x : Manager J). x.approvals) room.rest;
          audit = ap (λ o. o.0.audit) (e ∙ q) ∙ ap (λ (x : Manager J). x.audit) room.rest;
        })

    -- From a state that satisfies the invariant, the second locked part of `Start` does one of two
    -- things. It admits the run: the manager was open with a free slot, the identifier was new and
    -- the approval block passed; the run is in the map as it was answered, last in the order and
    -- counted as active, and only finished runs made way for it. Or it answers an error, because
    -- the manager was closed, had no free slot, knew the identifier, or the approval block
    -- refused; and then the runs, their order and their count are as they were.
    pub admit-outcome :
        Admitted (admit sink m run_id plan fingerprint submission now)
        ⊎ Refused (admit sink m run_id plan fingerprint submission now)
    admit-outcome = Admission-cases _ admit-Admission
