-- ===== src/Runs/Invariant.antt =====
-- What holds of the run manager between two locked sections, and that the parts of `Start` keep it.
use cliharbor.Prelude.{
  ℕ, suc, ◌+◌, ◌≤◌, ◌<◌, ◌≡◌, refl, sym, ap, subst, ◌∙◌, inl, inr, not, none, some, List, [], ◌∷◌,
  ◌++◌, length, length-append, arith, Bool-cases, Option-cases,
}
use cliharbor.Prelude.Result.{ok}
use cliharbor.Prelude.Text.{Text, text_eq, text_eq_iff}
use cliharbor.Prelude.Dict.{
  Dict, lookup, insert, keys, insert-Distinct, insert_new, keys-insert_old, keys-append,
  length-keys, lookup-insert,
}
use cliharbor.Planner.{Plan}
use cliharbor.Audit.{AuditSink}
use cliharbor.Approvals.Bound.{TableInv}
use cliharbor.Runs.{Record, Manager, is_running}
use cliharbor.Runs.Retention.{make_room}
use cliharbor.Runs.Start.{accept, new_record, add_run}
use cliharbor.Runs.Authorization.{SameRuns}
use cliharbor.Runs.Counting.{one_if, is_live, running_count-insert_new, running_count-insert_old}
use cliharbor.Runs.Room.{RunsInv, Roomy, make_room-Roomy}

-- Each run is kept under its own identifier, and is done exactly when it no longer runs.
abbrev pub IsOwn : Text → Record → Type 0
IsOwn id r = (r.run_id ≡ id) × (r.is_done ≡ not (is_running r.status))

abbrev pub Owned : Dict Record → Type 0
Owned runs = (id : Text) (r : Record) → lookup id runs ≡ some r → IsOwn id r

pub record Inv {J : Type 0} (m : Manager J) : Type 0 where
  pub runs : RunsInv m.runs m.order m.active
  pub own : Owned m.runs
  pub active_bounded : m.active ≤ m.config.max_active
  pub retained_bounded : length m.runs ≤ m.config.max_retained
  pub limits : m.config.max_active ≤ m.config.max_retained
  pub some_active : 0 < m.config.max_active
  pub some_approvals : 0 < m.config.max_approvals
  pub table : TableInv m.config.max_approvals m.approvals

keys-insert_new :
    (id : Text) (r : Record) (runs : Dict Record)
    → lookup id runs ≡ none
    → keys (insert id r runs) ≡ keys runs ++ id ∷ []
keys-insert_new id r runs e = rw (insert_new id r runs e) (keys-append runs ((id, r) ∷ []))

length-insert_new :
    (id : Text) (r : Record) (runs : Dict Record)
    → lookup id runs ≡ none
    → length (insert id r runs) ≡ suc (length runs)
length-insert_new id r runs e =
    rw (insert_new id r runs e) (omega (arith, length-append runs ((id, r) ∷ [])))

-- A record is replaced by one under the same identifier.
pub replace-RunsInv :
    (runs : Dict Record) (order : List Text) (active : ℕ) (id : Text) (old r : Record)
    → RunsInv runs order active
    → lookup id runs ≡ some old
    → (active' : ℕ) → active' + one_if (is_live old) ≡ one_if (is_live r) + active
    → RunsInv (insert id r runs) order active'
replace-RunsInv runs order active id old r v e active' h = record {
  distinct = insert-Distinct id r runs v.distinct;
  in_order = keys-insert_old id r runs (rw e) ∙ v.in_order;
  counted = omega (arith, running_count-insert_old id r old runs e, v.counted);
}

pub length-replace :
    (runs : Dict Record) (id : Text) (old r : Record)
    → lookup id runs ≡ some old
    → length (insert id r runs) ≡ length runs
length-replace runs id old r e = omega (
  arith,
  length-keys (insert id r runs),
  length-keys runs,
  ap length (keys-insert_old id r runs (rw e)),
)

pub insert-Owned :
    (runs : Dict Record) (id : Text) (r : Record)
    → Owned runs
    → IsOwn id r
    → Owned (insert id r runs)
insert-Owned runs id r own o j s e = elim (Bool-cases (text_eq id j)) [
  | inl same ↦
      let named : id ≡ j = (text_eq_iff id j).0 same in
      let found : r ≡ s = ground (arith, lookup-insert id j r runs) in
      subst (λ k. IsOwn k s) named (subst (IsOwn id) found o)
  | inr other ↦ own j s (ground (arith, lookup-insert id j r runs))
]

module _ {J : Type 0} (sink : AuditSink J) where
  pub Inv-SameRuns : (m m' : Manager J) → Inv m → SameRuns sink m m' → Inv m'
  Inv-SameRuns m m' v s = record {
    runs = rw (s.same_runs, s.same_order, s.same_active) v.runs;
    own = rw s.same_runs v.own;
    active_bounded = rw (s.same_active, s.same_config) v.active_bounded;
    retained_bounded = rw (s.same_runs, s.same_config) v.retained_bounded;
    limits = rw s.same_config v.limits;
    some_active = rw s.same_config v.some_active;
    some_approvals = rw s.same_config v.some_approvals;
    table = rw s.same_config s.table;
  }

  -- The new run enters a map with room for it.
  added-Inv :
      (m : Manager J) (run_id : Text) (plan : Plan) (runs : Dict Record) (order : List Text)
      → Inv m
      → RunsInv runs order m.active
      → Owned runs
      → length runs < m.config.max_retained
      → m.active < m.config.max_active
      → lookup run_id runs ≡ none
      → Inv (add_run sink (record m { runs = runs; order = order }) (new_record sink run_id plan))
  unfolding add_run new_record
  added-Inv m run_id plan runs order v r own room free fresh = record {
    runs = record {
      distinct = insert-Distinct run_id _ runs r.distinct;
      in_order = keys-insert_new run_id _ runs fresh ∙ ap (λ ks. ks ++ run_id ∷ []) r.in_order;
      counted = omega (
        arith,
        running_count-insert_new run_id (new_record sink run_id plan) runs fresh,
        r.counted,
      );
    };
    own = insert-Owned runs run_id _ own (refl, refl);
    active_bounded = free;
    retained_bounded =
        omega (arith, length-insert_new run_id (new_record sink run_id plan) runs fresh, room);
    limits = v.limits;
    some_active = v.some_active;
    some_approvals = v.some_approvals;
    table = v.table;
  }

  -- An admitted run always finds room, and it is in the map as it started.
  pub accept_lem :
      (m : Manager J) (run_id : Text) (plan : Plan)
      → Inv m
      → m.active < m.config.max_active
      → lookup run_id m.runs ≡ none
      → (roomy : Manager J) × Roomy m roomy
        × (accept sink m run_id plan
            ≡ (add_run sink roomy (new_record sink run_id plan), ok (new_record sink run_id plan)))
        × Inv (add_run sink roomy (new_record sink run_id plan))
  unfolding accept
  accept_lem m run_id plan v free fresh =
      let (room, q) =
        make_room-Roomy (length m.order) m v.runs (omega (arith, free, v.limits)) (omega arith) in
      let roomy : Manager J = (make_room (length m.order) m).0 in
      let still_fresh : lookup run_id roomy.runs ≡ none = absent_in roomy q in
      (
        roomy,
        q,
        rw room,
        subst (λ x. Inv (add_run sink x (new_record sink run_id plan))) (sym q.rest)
            (added-Inv m run_id plan roomy.runs roomy.order v q.inv
              (λ id r e. v.own id r (q.subset id r e)) q.room free still_fresh),
      )
    where
      absent_in : (roomy : Manager J) → Roomy m roomy → lookup run_id roomy.runs ≡ none
      absent_in roomy q = elim (Option-cases (lookup run_id roomy.runs)) [
        | inl e ↦ e
        | inr (r, e) ↦ cc (q.subset run_id r e)
      ]
