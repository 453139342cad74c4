-- ===== src/Runs/Machine.antt =====
-- The manager as a machine: each locked section is a step, and the goroutines of the server and of
-- the runs interleave their steps in any order. The handlers are runs of the machine.
use cliharbor.Prelude.{
  ℕ, ◌-◌, ◌≤◌, ◌<◌, ◌≡◌, refl, subst, inl, inr, Bool, true, Option, some, [], arith, Option-cases,
}
use cliharbor.Prelude.Int.{ℤ, positive_or}
use cliharbor.Prelude.Result.{ok}
use cliharbor.Prelude.Text.{Text}
use cliharbor.Prelude.Dict.{lookup, lookup_nil}
use cliharbor.Packs.Registry.{Registry}
use cliharbor.Discovery.{ToolState, Snapshot}
use cliharbor.Planner.{Plan}
use cliharbor.Audit.{AuditSink}
use cliharbor.Executor.{ExecResult}
use cliharbor.Executor
use cliharbor.Structured.{Outcome}
use cliharbor.Approvals.{ApprovalRecord, ApprovalSubmission, valid_run_id}
use cliharbor.Runs.{Record, Manager}
use cliharbor.Runs.New.{Options, with_defaults, min_event_bytes, fresh_manager, new_manager}
use cliharbor.Runs.Events.{record_event}
use cliharbor.Runs.Start.{open_approval, admit}
use cliharbor.Runs.Execute.{RunFailure, settle, release_waiter}
use cliharbor.Runs.Query.{cancel, shutdown, activate_tool}
use cliharbor.Runs.Invariant.{Inv}
use cliharbor.Runs.Admission.{admit-Inv}
use cliharbor.Runs.Steps.{
  record_event-Inv, cancel-Inv, shutdown-Inv, open_approval-Inv, activate_tool-Inv,
}
use cliharbor.Runs.Settled.{settle-Inv}

-- The context given to `NewManager` ends.
abbrev pub end_context : {J : Type 0} → Manager J → Manager J
end_context m = record m { context_done = true }

module _ {J : Type 0} (sink : AuditSink J) where
  pub data Step (m : Manager J) : Manager J → Type 0 where
    admits :
        (run_id : Text) (plan : Plan) (fingerprint : Text) (submission : Option ApprovalSubmission)
        (now : ℕ)
        → valid_run_id run_id ≡ true
        → Step m (admit sink m run_id plan fingerprint submission now).0
    opens :
        (id : Text) (r : ApprovalRecord) (now : ℕ)
        → valid_run_id id ≡ true
        → Step m (open_approval m id r now).0
    records : (id : Text) (e : Executor.Event) → Step m (record_event m id e).0
    settles :
        (id : Text) (failure : Option RunFailure) (result : ExecResult) (parsed : Option Outcome)
        (now : ℕ)
        → Step m (settle sink m id failure result parsed now)
    returns : Step m (release_waiter sink m)
    cancels : (id : Text) → Step m (cancel m id).0
    activates : (matches : Bool) (state : ToolState) → Step m (activate_tool m matches state).0
    shuts : Step m (shutdown m)
    ends : Step m (end_context m)

  pub data Reach (m : Manager J) : Manager J → Type 0 where
    here : Reach m m
    next : {n p : Manager J} → Reach m n → Step n p → Reach m p

  pub Reach-trans : {m n p : Manager J} → Reach m n → Reach n p → Reach m p
  Reach-trans r here = r
  Reach-trans r (next s st) = next (Reach-trans r s) st

  -- No field of the invariant speaks of the context or of the wait group.
  same_core :
      (m : Manager J) (done : Bool) (waiting : ℕ)
      → Inv m
      → Inv (record m { context_done = done; waiting = waiting })
  same_core m done waiting v = record {
    runs = v.runs;
    own = v.own;
    active_bounded = v.active_bounded;
    retained_bounded = v.retained_bounded;
    limits = v.limits;
    some_active = v.some_active;
    some_approvals = v.some_approvals;
    table = v.table;
  }

  -- Each step keeps the invariant.
  pub Step-Inv : {m n : Manager J} → Step m n → Inv m → Inv n
  Step-Inv {m} (admits run_id plan fingerprint submission now good) v =
      admit-Inv sink m run_id plan fingerprint submission now v
  Step-Inv {m} (opens id r now good) v = open_approval-Inv m id r now good v
  Step-Inv {m} (records id e) v = record_event-Inv m id e v
  Step-Inv {m} (settles id failure result parsed now) v =
      settle-Inv sink m id failure result parsed now v
  Step-Inv {m} returns v = same_core m m.context_done (m.waiting - 1) v
  Step-Inv {m} (cancels id) v = cancel-Inv m id v
  Step-Inv {m} (activates matches state) v = activate_tool-Inv m matches state v
  Step-Inv {m} shuts v = shutdown-Inv m v
  Step-Inv {m} ends v = same_core m true m.waiting v

  pub Reach-Inv : {m n : Manager J} → Reach m n → Inv m → Inv n
  Reach-Inv here v = v
  Reach-Inv (next r st) v = Step-Inv st (Reach-Inv r v)

positive_or-pos : (n : ℤ) (d : ℕ) → 0 < d → 0 < positive_or n d
positive_or-pos n d h = ground arith

-- What an accepted set of options says.
pub new_manager-eq-ok :
    {J : Type 0} (parent done : Bool) (registry : Option Registry) (snapshot : Snapshot)
    (o : Options) (audit : Option J) {m : Manager J}
    → new_manager parent done registry snapshot o audit ≡ ok m
    → (reg : Registry) × (registry ≡ some reg)
      × (parent ≡ true)
      × (fresh_manager reg done snapshot (with_defaults o) audit ≡ m)
      × ((with_defaults o).max_active ≤ (with_defaults o).max_retained)
      × (min_event_bytes (with_defaults o).max_output_bytes_per_stream
          ≤ (with_defaults o).max_event_bytes_per_run)
unfolding new_manager
new_manager-eq-ok parent done registry snapshot o audit h = elim (Option-cases registry) [
  | inl absent ↦ absurd (ground arith)
  | inr (reg, given) ↦ (reg, given, ground arith, ground arith, ground arith, ground arith)
]

fresh_manager-Inv :
    {J : Type 0} (reg : Registry) (done : Bool) (snapshot : Snapshot) (o : Options)
    (audit : Option J)
    → (with_defaults o).max_active ≤ (with_defaults o).max_retained
    → Inv (fresh_manager reg done snapshot (with_defaults o) audit)
unfolding fresh_manager with_defaults
fresh_manager-Inv reg done snapshot o audit h = record {
  runs = record { distinct = tt; in_order = refl; counted = refl };
  own = λ id r e. absurd (no_run id r e);
  active_bounded = omega arith;
  retained_bounded = omega arith;
  limits = h;
  some_active = positive_or-pos o.max_active 4 (omega arith);
  some_approvals = positive_or-pos o.max_approvals 64 (omega arith);
  table = record { distinct = tt; named = tt; bounded = omega arith };
}
  where
    no_run : (id : Text) (r : Record) → lookup id [] ≡ some r → ⊥
    no_run id r e = cc (lookup_nil id)

-- A new manager satisfies the invariant, whatever options it was given.
pub new_manager-Inv :
    {J : Type 0} (parent done : Bool) (registry : Option Registry) (snapshot : Snapshot)
    (o : Options) (audit : Option J) {m : Manager J}
    → new_manager parent done registry snapshot o audit ≡ ok m
    → Inv m
new_manager-Inv parent done registry snapshot o audit h =
    let (reg, _, _, e, limits, _) = new_manager-eq-ok parent done registry snapshot o audit h in
    subst Inv e (fresh_manager-Inv reg done snapshot o audit limits)

module _ {J : Type 0} (sink : AuditSink J) where
  -- Whatever calls are made of a new manager, and however their locked sections interleave: the
  -- order and the map of the runs agree, `active` is the number of running runs and at most the
  -- limit, the runs kept are at most the limit, and the approvals are at most the limit.
  pub reachable-Inv :
      (parent done : Bool) (registry : Option Registry) (snapshot : Snapshot) (o : Options)
      (audit : Option J) {m n : Manager J}
      → new_manager parent done registry snapshot o audit ≡ ok m
      → Reach sink m n
      → Inv n
  reachable-Inv parent done registry snapshot o audit e r =
      Reach-Inv sink r (new_manager-Inv parent done registry snapshot o audit e)
