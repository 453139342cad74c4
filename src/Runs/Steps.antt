-- ===== src/Runs/Steps.antt =====
-- The manager's other locked sections keep its invariant.
use cliharbor.Prelude.{
  ℕ, ◌+◌, ◌≤◌, ◌≡◌, refl, sym, subst, ap, ◌∙◌, ◌⊎◌, inl, inr, Bool, true, false, not, ◌||◌, some,
  [], ◌∷◌, arith, Bool-cases, Option-cases,
}
use cliharbor.Prelude.Int.{add64, signed_lt64}
use cliharbor.Prelude.Text.{Text, is_empty}
use cliharbor.Prelude.Dict.{lookup, insert}
use cliharbor.Executor.{ExecResult}
use cliharbor.Executor
use cliharbor.Discovery.{ToolState, Snapshot, new_snapshot}
use cliharbor.Discovery
use cliharbor.Approvals.{ApprovalRecord, valid_run_id}
use cliharbor.Approvals.Eviction.{issue-TableInv}
use cliharbor.Runs.{Record, Manager, is_running}
use cliharbor.Runs.Events.{charge, keep_stdout, store_event, append_event, record_event}
use cliharbor.Runs.Start.{open_approval}
use cliharbor.Runs.Query.{cancel, shutdown, replace_tool, is_activation, activate_tool}
use cliharbor.Runs.Counting.{one_if, is_live}
use cliharbor.Runs.Invariant.{Inv, IsOwn, replace-RunsInv, length-replace, insert-Owned}

-- An event leaves the run's name, status, completion and origin alone.
abbrev pub SameRun : Record → Record → Type 0
SameRun r s =
    (s.run_id ≡ r.run_id)
    × (s.status ≡ r.status)
    × (s.is_done ≡ r.is_done)
    × (s.audited ≡ r.audited)

keep_stdout-SameRun : (r : Record) (e : Executor.Event) → SameRun r (keep_stdout r e)
unfolding keep_stdout
keep_stdout-SameRun r e = ground arith

pub append_event-SameRun :
    (max : ℕ) (r : Record) (e : Executor.Event) → SameRun r (append_event max r e).0
unfolding append_event store_event
append_event-SameRun max r e = elim (Bool-cases (is_running r.status)) [
  | inr ended ↦ rw ended (refl, refl, refl, refl)
  | inl live ↦ elim (Bool-cases (signed_lt64 max (add64 r.event_bytes (charge e.bytes)))) [
    | inl over ↦ rw (live, over) (refl, refl, refl, refl)
    | inr fits ↦ rw (live, fits) (keep_stdout-SameRun r e)
  ]
]

pub IsOwn-SameRun : (id : Text) (r s : Record) → IsOwn id r → SameRun r s → IsOwn id s
IsOwn-SameRun id r s o q = (q.0 ∙ o.0, q.2 ∙ o.1 ∙ ap (λ x. not (is_running x)) (sym q.1))

-- An identifier of 32 hexadecimal digits is not empty.
valid_run_id-nonempty : (id : Text) → valid_run_id id ≡ true → is_empty id ≡ false
unfolding valid_run_id
valid_run_id-nonempty [] h = cc
valid_run_id-nonempty (b ∷ bs) h = refl

module _ {J : Type 0} where
  -- A run's record is replaced, and `active` follows.
  pub replace-Inv :
      (m : Manager J) (id : Text) (old r : Record) (active' : ℕ)
      → Inv m
      → lookup id m.runs ≡ some old
      → IsOwn id r
      → active' + one_if (is_live old) ≡ one_if (is_live r) + m.active
      → active' ≤ m.active
      → Inv (record m { runs = insert id r m.runs; active = active' })
  replace-Inv m id old r active' v e own count fewer = record {
    runs = replace-RunsInv m.runs m.order m.active id old r v.runs e active' count;
    own = insert-Owned m.runs id r v.own own;
    active_bounded = omega (arith, fewer, v.active_bounded);
    retained_bounded = omega (arith, length-replace m.runs id old r e, v.retained_bounded);
    limits = v.limits;
    some_active = v.some_active;
    some_approvals = v.some_approvals;
    table = v.table;
  }

  same-Inv :
      (m : Manager J) (id : Text) (old r : Record)
      → Inv m
      → lookup id m.runs ≡ some old
      → SameRun old r
      → Inv (record m { runs = insert id r m.runs })
  same-Inv m id old r v e q =
      replace-Inv m id old r m.active v e (IsOwn-SameRun id old r (v.own id old e) q)
        (rw q.1 (omega arith)) (omega arith)

  pub record_event-Inv :
      (m : Manager J) (id : Text) (e : Executor.Event) → Inv m → Inv (record_event m id e).0
  unfolding record_event
  record_event-Inv m id e v = elim (Option-cases (lookup id m.runs)) [
    | inl absent ↦ rw (absent, record_event) v
    | inr (r, found) ↦
        rw (found, record_event)
          (same-Inv m id r _ v found (append_event-SameRun m.config.max_event_bytes_per_run r e))
  ]

  pub cancel-Inv : (m : Manager J) (id : Text) → Inv m → Inv (cancel m id).0
  unfolding cancel
  cancel-Inv m id v = elim (Bool-cases (valid_run_id id)) [
    | inr bad ↦ rw bad v
    | inl good ↦ elim (Option-cases (lookup id m.runs)) [
      | inl absent ↦ subst Inv (ground arith) v
      | inr (r, found) ↦ elim (Bool-cases (is_running r.status)) [
        | inr ended ↦ subst Inv (ground arith) v
        | inl live ↦ subst Inv (ground arith) (
            same-Inv m id r (record r { context_cancelled = true }) v found
              (refl, refl, refl, refl))
      ]
    ]
  ]

  pub shutdown-Inv : (m : Manager J) → Inv m → Inv (shutdown m)
  unfolding shutdown
  shutdown-Inv m v = record {
    runs = v.runs;
    own = v.own;
    active_bounded = v.active_bounded;
    retained_bounded = v.retained_bounded;
    limits = v.limits;
    some_active = v.some_active;
    some_approvals = v.some_approvals;
    table = record { distinct = tt; named = tt; bounded = omega arith };
  }

  pub open_approval-Inv :
      (m : Manager J) (id : Text) (r : ApprovalRecord) (now : ℕ)
      → valid_run_id id ≡ true
      → Inv m
      → Inv (open_approval m id r now).0
  unfolding open_approval
  open_approval-Inv m id r now good v = elim (Bool-cases (m.is_closed || m.context_done)) [
    | inl gone ↦ rw gone v
    | inr here ↦ rw here (record {
      runs = v.runs;
      own = v.own;
      active_bounded = v.active_bounded;
      retained_bounded = v.retained_bounded;
      limits = v.limits;
      some_active = v.some_active;
      some_approvals = v.some_approvals;
      table =
          issue-TableInv m.config.max_approvals now id r m.approvals v.some_approvals
            (valid_run_id-nonempty id good) v.table;
    })
  ]

  -- An activation changes the discovery state, or nothing.
  pub activated :
      (m : Manager J) (matches : Bool) (state : ToolState)
      → ((activate_tool m matches state).0 ≡ m)
        ⊎ ((d : Snapshot) × ((activate_tool m matches state).0 ≡ record m { discovery = d }))
  unfolding activate_tool
  activated m matches state = elim (Bool-cases (m.is_closed || m.context_done)) [
    | inl gone ↦ inl (rw gone)
    | inr here ↦ elim (Option-cases (Discovery.find m.discovery state.pack_id state.tool_id)) [
      | inl absent ↦ inl (ground arith)
      | inr (previous, found) ↦ elim (Bool-cases (is_activation matches previous state)) [
        | inl fit ↦ inr (new_snapshot (replace_tool state m.discovery.tools), ground arith)
        | inr other ↦ inl (ground arith)
      ]
    ]
  ]

  pub activate_tool-Inv :
      (m : Manager J) (matches : Bool) (state : ToolState)
      → Inv m
      → Inv (activate_tool m matches state).0
  unfolding activate_tool
  activate_tool-Inv m matches state v = elim (activated m matches state) [
    | inl e ↦ subst Inv (sym e) v
    | inr (d, e) ↦ subst Inv (sym e) (with_discovery d)
  ]
    where
      with_discovery : (d : Snapshot) → Inv (record m { discovery = d })
      with_discovery d = record {
        runs = v.runs;
        own = v.own;
        active_bounded = v.active_bounded;
        retained_bounded = v.retained_bounded;
        limits = v.limits;
        some_active = v.some_active;
        some_approvals = v.some_approvals;
        table = v.table;
      }
