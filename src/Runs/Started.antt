-- ===== src/Runs/Started.antt =====
-- What a `Start` that succeeds has done, from the request to the record.
use cliharbor.Prelude.{
  ℕ, ◌≡◌, refl, sym, subst, ◌∙◌, ap, ◌⊎◌, inl, inr, true, false, ◌||◌, Option, none, some, leb,
  arith, Bool-cases, Option-cases,
}
use cliharbor.Prelude.Result.{Result, ok, err}
use cliharbor.Prelude.Text.{Text}
use cliharbor.Prelude.Dict.{lookup}
use cliharbor.Go.{Go}
use cliharbor.Planner.{Plan}
use cliharbor.Audit.{AuditSink}
use cliharbor.Approvals.{
  Digest, ExecutionContext, ApprovalSubmission, requires_approval, approval_fingerprint,
  valid_run_id,
}
use cliharbor.Runs.{Manager, Record, Request, Error}
use cliharbor.Runs.Start.{
  plan_request, execution_context_for, start_fingerprint, start_plan, start, admit, authorize,
  new_record,
}
use cliharbor.Runs.Invariant.{Inv}
use cliharbor.Runs.Approved.{Evidenced, authorize-Answered}
use cliharbor.Runs.Admission.{admit-outcome}

pub Result-cases {ℓ} :
    {E : Type 0} {A : Type ℓ} (r : Result E A) → ((e : E) × (r ≡ err e)) ⊎ ((a : A) × (r ≡ ok a))
Result-cases (ok a) = inr (a, refl)
Result-cases (err e) = inl (e, refl)

module _ {J : Type 0} (sink : AuditSink J) (go : Go) (digest : Digest) where
  -- The approval of a plan, bound to the plan and its context by their fingerprint.
  pub record Approved (m : Manager J) (run_id : Text) (plan : Plan)
      (submission : Option ApprovalSubmission) (now : ℕ) (m' : Manager J) : Type 0 where
    pub context : ExecutionContext
    pub resolved : execution_context_for go m.config plan ≡ ok context
    pub fingerprint : Text
    pub bound : approval_fingerprint digest plan context ≡ some fingerprint
    pub evidence : Evidenced sink m run_id plan fingerprint submission now m'

  pub start_fingerprint-bound :
      (m : Manager J) (plan : Plan) (fingerprint : Text)
      → requires_approval plan ≡ true
      → start_fingerprint sink go digest m.config plan ≡ ok fingerprint
      → (context : ExecutionContext) × (execution_context_for go m.config plan ≡ ok context)
        × (approval_fingerprint digest plan context ≡ some fingerprint)
  unfolding start_fingerprint
  start_fingerprint-bound m plan fingerprint needed h =
      elim (Result-cases (execution_context_for go m.config plan)) [
        | inl (e, failed) ↦ absurd (ground (arith, h, needed, failed))
        | inr (context, found) ↦ elim (Option-cases (approval_fingerprint digest plan context)) [
          | inl absent ↦ absurd (ground (arith, h, needed, found, absent))
          | inr (f, given) ↦ (context, found, ground (arith, h, needed, found, given))
        ]
      ]

  -- A run that was started by a request.
  pub record Started (m : Manager J) (r : Request) (new_id : Option Text) (now : ℕ) (m' : Manager J)
      (answer : Record) : Type 0 where
    pub is_open : (m.is_closed || m.context_done) ≡ false
    pub plan : Plan
    pub planned : plan_request go m m.discovery r ≡ ok plan
    pub run_id : Text
    pub named : new_id ≡ some run_id
    pub well_formed : valid_run_id run_id ≡ true
    pub answered : answer ≡ new_record sink run_id plan
    pub found : lookup run_id m'.runs ≡ some answer
    pub approved : (requires_approval plan ≡ false) ⊎ Approved m run_id plan r.approval now m'

  same_answer :
      (out : Manager J × Result Error Record) (a b : Record) → out.1 ≡ ok a → out.1 ≡ ok b → a ≡ b
  same_answer out a b h k = ground (arith, h, k)

  Evidenced-moved :
      (m m' m'' : Manager J) (run_id : Text) (plan : Plan) (fingerprint : Text)
      (submission : Option ApprovalSubmission) (now : ℕ)
      → m''.approvals ≡ m'.approvals
      → m''.audit ≡ m'.audit
      → Evidenced sink m run_id plan fingerprint submission now m'
      → Evidenced sink m run_id plan fingerprint submission now m''
  Evidenced-moved m m' m'' run_id plan fingerprint submission now t a v = record {
    impact = v.impact;
    has_impact = v.has_impact;
    journal = v.journal;
    had = v.had;
    entry = v.entry;
    approves = v.approves;
    of_command = v.of_command;
    of_target = v.of_target;
    recorded = rw a v.recorded;
    used = rw t v.used;
  }

  admit-Approved :
      (m : Manager J) (run_id : Text) (plan : Plan) (fingerprint : Text)
      (submission : Option ApprovalSubmission) (now : ℕ) (m' : Manager J)
      → Inv m
      → start_fingerprint sink go digest m.config plan ≡ ok fingerprint
      → (authorize sink m run_id plan fingerprint submission now).1 ≡ none
      → m'.approvals ≡ (authorize sink m run_id plan fingerprint submission now).0.approvals
      → m'.audit ≡ (authorize sink m run_id plan fingerprint submission now).0.audit
      → (requires_approval plan ≡ false) ⊎ Approved m run_id plan submission now m'
  admit-Approved m run_id plan fingerprint submission now m' v h passed t a =
      elim (authorize-Answered sink m run_id plan fingerprint submission now v.table) [
        | inl (free, _) ↦ inl free
        | inr (inl (needed, _, evidence)) ↦
            let (context, found, bound) = start_fingerprint-bound m plan fingerprint needed h in
            inr (record {
              context = context;
              resolved = found;
              fingerprint = fingerprint;
              bound = bound;
              evidence = Evidenced-moved m _ m' run_id plan fingerprint submission now t a evidence;
            })
        | inr (inr (needed, (e, failed), _)) ↦ absurd (ground (arith, passed, failed))
      ]

  start_plan-admit :
      (m : Manager J) (plan : Plan) (submission : Option ApprovalSubmission) (new_id : Option Text)
      (now : ℕ) (answer : Record)
      → (start_plan sink go digest m plan submission new_id now).1 ≡ ok answer
      → (run_id : Text) × (fingerprint : Text) × (new_id ≡ some run_id)
        × (valid_run_id run_id ≡ true)
        × (start_fingerprint sink go digest m.config plan ≡ ok fingerprint)
        × (start_plan sink go digest m plan submission new_id now
            ≡ admit sink m run_id plan fingerprint submission now)
  unfolding start_plan
  start_plan-admit m plan submission new_id now answer h =
      elim (Result-cases (start_fingerprint sink go digest m.config plan)) [
        | inl (e, failed) ↦ absurd (ground (arith, h, failed))
        | inr (fingerprint, done) ↦ elim (Option-cases new_id) [
          | inl absent ↦ absurd (ground (arith, h, done, absent))
          | inr (id, given) ↦ elim (Bool-cases (valid_run_id id)) [
            | inr bad ↦ absurd (ground (arith, h, done, given, bad))
            | inl good ↦ (id, fingerprint, given, good, done, ground (arith, done, given, good))
          ]
        ]
      ]

  start-start_plan :
      (m : Manager J) (r : Request) (new_id : Option Text) (now : ℕ) (answer : Record)
      → (start sink go digest m r new_id now).1 ≡ ok answer
      → ((m.is_closed || m.context_done) ≡ false)
        × ((plan : Plan) × (plan_request go m m.discovery r ≡ ok plan)
            × (start sink go digest m r new_id now
                ≡ start_plan sink go digest m plan r.approval new_id now))
  unfolding start
  start-start_plan m r new_id now answer h = elim (Bool-cases (m.is_closed || m.context_done)) [
    | inl gone ↦ absurd (ground (arith, h, gone))
    | inr here ↦ elim (Bool-cases (leb m.config.max_active m.active)) [
      | inl no_slot ↦ absurd (ground (arith, h, here, no_slot))
      | inr slot ↦ elim (Result-cases (plan_request go m m.discovery r)) [
        | inl (e, failed) ↦ absurd (ground (arith, h, here, slot, failed))
        | inr (plan, done) ↦ (here, (plan, done, ground (arith, here, slot, done)))
      ]
    ]
  ]

  -- From a state that satisfies the invariant, where no other call comes between the two locked parts
  -- of `Start` and it answers a record: the manager was open, the planner built a plan from the
  -- request, the identifier is well-formed, and the record of this plan is in the map under it. If the
  -- plan changes anything, the submission of the request named an open approval of the fingerprint of
  -- this very plan in its resolved context, in time and confirmed; that approval is gone, and the
  -- audit sink has one new entry, which approves this run.
  pub start-Started :
      (m : Manager J) (r : Request) (new_id : Option Text) (now : ℕ) (answer : Record)
      → Inv m
      → (start sink go digest m r new_id now).1 ≡ ok answer
      → Started m r new_id now (start sink go digest m r new_id now).0 answer
  start-Started m r new_id now answer v h =
      let (here, (plan, planned, one)) = start-start_plan m r new_id now answer h in
      let h1 : (start_plan sink go digest m plan r.approval new_id now).1 ≡ ok answer =
        sym (ap (λ o. o.1) one) ∙ h in
      let (id, fingerprint, given, good, done, two) =
        start_plan-admit m plan r.approval new_id now answer h1 in
      let same : start sink go digest m r new_id now
          ≡ admit sink m id plan fingerprint r.approval now =
        one ∙ two in
      let h2 : (admit sink m id plan fingerprint r.approval now).1 ≡ ok answer =
        sym (ap (λ o. o.1) same) ∙ h in
      subst (λ (o : Manager J × Result Error Record). Started m r new_id now o.0 answer) (sym same)
        (elim (admit-outcome sink m id plan fingerprint r.approval now v) [
          | inr refusal ↦ absurd (ground (arith, h2, refusal.answer))
          | inl entry ↦
              let is : answer ≡ new_record sink id plan =
                same_answer (admit sink m id plan fingerprint r.approval now) answer
                  (new_record sink id plan) h2 entry.answer in
              record {
                is_open = here;
                plan = plan;
                planned = planned;
                run_id = id;
                named = given;
                well_formed = good;
                answered = is;
                found = entry.found ∙ ap some (sym is);
                approved =
                    admit-Approved m id plan fingerprint r.approval now
                      (admit sink m id plan fingerprint r.approval now).0 v done entry.authorized
                      entry.approvals entry.audit;
              }
        ])
