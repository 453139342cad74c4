-- ===== src/Approvals/Consumption.antt =====
-- An approval is good for one use, by the plan it was issued for, before it expires.
use cliharbor.Prelude.{
  ℕ, ◌<◌, ◌≡◌, ◌≢◌, ◌∙◌, refl, sym, subst, ◌⊎◌, inl, inr, true, false, Option, none, some, arith,
  Option-cases,
}
use cliharbor.Prelude.Text.{Text, text_eq_iff, text_eq_refl, is_empty}
use cliharbor.Prelude.Dict.{lookup, delete, lookup-delete, lookup-Has, Has-lookup}
use cliharbor.Approvals.{ApprovalRecord, ApprovalSubmission, typed, explicit, valid_run_id}
use cliharbor.Approvals.Table.{Table, prune, redeem, consume}
use cliharbor.Approvals.Bound.{
  TableInv, prune-Has, prune-TableInv, delete-TableInv, absent-prune, lookup-prune_live,
}

-- What the operator has to enter for each kind of approval.
abbrev pub Confirms : ApprovalRecord → Text → Type 0
Confirms r confirmation =
    (r.mode ≡ typed → confirmation ≡ r.required_text)
    × (r.mode ≡ explicit → is_empty confirmation ≡ true)

-- A submission that names an open approval of this fingerprint, in time and confirmed.
pub record Matches (fingerprint : Text) (now : ℕ) (t : Table) (s : ApprovalSubmission)
    : Type 0 where
  pub approval : ApprovalRecord
  pub is_entry : lookup s.id t ≡ some approval
  pub in_time : now < approval.expires_at
  pub same_plan : approval.fingerprint ≡ fingerprint
  pub is_confirmed : Confirms approval s.confirmation

redeem-granted :
    (fingerprint : Text) (s : ApprovalSubmission) (r : ApprovalRecord) (t : Table)
    → (redeem fingerprint s r t).1 ≡ true
    → (r.fingerprint ≡ fingerprint)
      × Confirms r s.confirmation
      × ((redeem fingerprint s r t).0 ≡ delete s.id t)
unfolding redeem
redeem-granted fingerprint s r t h =
    ground
      (arith, text_eq_iff r.fingerprint fingerprint, text_eq_iff s.confirmation r.required_text)

-- The table after a grant, and the entry that was used.
abbrev pub Granted : Text → ℕ → Table → Option ApprovalSubmission → Table → Type 0
Granted fingerprint now t submission t' =
    (s : ApprovalSubmission) × (submission ≡ some s)
    × Matches fingerprint now t s
    × (t' ≡ delete s.id (prune now t))

consume-submitted :
    (fingerprint : Text) (s : ApprovalSubmission) (now : ℕ) (t : Table)
    → (consume fingerprint (some s) now t).1 ≡ true
    → (r : ApprovalRecord) × (lookup s.id (prune now t) ≡ some r)
      × ((redeem fingerprint s r (prune now t)).1 ≡ true)
      × ((consume fingerprint (some s) now t).0 ≡ (redeem fingerprint s r (prune now t)).0)
unfolding consume
consume-submitted fingerprint s now t h = elim (Option-cases (lookup s.id (prune now t))) [
  | inl e ↦ absurd (ground arith)
  | inr (r, e) ↦ (r, e, ground arith, ground arith)
]

-- From a table that satisfies its invariant, an approval is granted only to a submission that names an entry of the table of the very
-- fingerprint, not expired and confirmed as its kind demands; and that entry is then gone.
pub consume-Granted :
    (max : ℕ) (fingerprint : Text) (submission : Option ApprovalSubmission) (now : ℕ) (t : Table)
    → TableInv max t
    → (consume fingerprint submission now t).1 ≡ true
    → Granted fingerprint now t submission (consume fingerprint submission now t).0
unfolding consume
consume-Granted max fingerprint none now t v h = cc
consume-Granted max fingerprint (some s) now t v h =
    let (r, e, granted, after) = consume-submitted fingerprint s now t h in
    let (same, confirmed, removed) = redeem-granted fingerprint s r (prune now t) granted in
    let (live, entry) = prune-Has now t s.id r (lookup-Has s.id r (prune now t) e) in
    (
      s,
      refl,
      record {
        approval = r;
        is_entry = Has-lookup s.id r t v.distinct entry;
        in_time = live;
        same_plan = same;
        is_confirmed = confirmed;
      },
      after ∙ removed,
    )

confirmed_of_Confirms :
    (fingerprint : Text) (s : ApprovalSubmission) (r : ApprovalRecord) (t : Table)
    → r.fingerprint ≡ fingerprint
    → Confirms r s.confirmation
    → (redeem fingerprint s r t).1 ≡ true
unfolding redeem
confirmed_of_Confirms fingerprint s r t h c =
    ground
      (arith, text_eq_iff r.fingerprint fingerprint, text_eq_iff s.confirmation r.required_text)

-- A submission under a well-formed identifier that names an open approval of the same fingerprint,
-- in time and confirmed as its kind demands, is granted.
pub consume_complete :
    (fingerprint : Text) (s : ApprovalSubmission) (now : ℕ) (t : Table)
    → valid_run_id s.id ≡ true
    → Matches fingerprint now t s
    → (consume fingerprint (some s) now t).1 ≡ true
unfolding consume
consume_complete fingerprint s now t valid m =
    rw (valid, lookup-prune_live now t s.id m.approval m.in_time m.is_entry)
      (confirmed_of_Confirms fingerprint s m.approval (prune now t) m.same_plan m.is_confirmed)

consume_absent :
    (fingerprint : Text) (s : ApprovalSubmission) (now : ℕ) (t : Table)
    → lookup s.id t ≡ none
    → (consume fingerprint (some s) now t).1 ≡ false
unfolding consume
consume_absent fingerprint s now t h = ground (arith, absent-prune now t s.id h)

-- No replay: once a submission was granted on a table that satisfies its invariant, a further
-- submission under its identifier is refused on the table left, for any plan and at any time.
pub consume-single_use :
    (max : ℕ) (fingerprint other : Text) (s s' : ApprovalSubmission) (now later : ℕ) (t : Table)
    → TableInv max t
    → (consume fingerprint (some s) now t).1 ≡ true
    → s'.id ≡ s.id
    → (consume other (some s') later (consume fingerprint (some s) now t).0).1 ≡ false
consume-single_use max fingerprint other s s' now later t v h e =
    let (r, _, granted, after) = consume-submitted fingerprint s now t h in
    let (_, _, removed) = redeem-granted fingerprint s r (prune now t) granted in
    consume_absent other s' later _ (rw (after ∙ removed, e, lookup-delete, text_eq_refl))

withdraw :
    (fingerprint : Text) (s : ApprovalSubmission) (now : ℕ) (t : Table) (r : ApprovalRecord)
    → valid_run_id s.id ≡ true
    → lookup s.id t ≡ some r
    → now < r.expires_at
    → r.fingerprint ≢ fingerprint
    → consume fingerprint (some s) now t ≡ (delete s.id (prune now t), false)
unfolding consume redeem
withdraw fingerprint s now t r valid h live n =
    ground (arith, lookup-prune_live now t s.id r live h, text_eq_iff r.fingerprint fingerprint)

-- A submission under a well-formed identifier that names an unexpired approval of another
-- fingerprint is refused, and it withdraws that approval: no later submission under its identifier
-- is granted, not even for the plan it was issued for.
pub consume_mismatch :
    (fingerprint other : Text) (s s' : ApprovalSubmission) (now later : ℕ) (t : Table)
    (r : ApprovalRecord)
    → valid_run_id s.id ≡ true
    → lookup s.id t ≡ some r
    → now < r.expires_at
    → r.fingerprint ≢ fingerprint
    → s'.id ≡ s.id
    → ((consume fingerprint (some s) now t).1 ≡ false)
      × ((consume other (some s') later (consume fingerprint (some s) now t).0).1 ≡ false)
consume_mismatch fingerprint other s s' now later t r valid h live n e =
    let withdrawn : consume fingerprint (some s) now t ≡ (delete s.id (prune now t), false) =
      withdraw fingerprint s now t r valid h live n in
    (rw withdrawn, consume_absent other s' later _ (rw (withdrawn, e, lookup-delete, text_eq_refl)))

consume_tables :
    (fingerprint : Text) (s : ApprovalSubmission) (now : ℕ) (t : Table)
    → ((consume fingerprint (some s) now t).0 ≡ prune now t)
      ⊎ ((consume fingerprint (some s) now t).0 ≡ delete s.id (prune now t))
unfolding consume redeem
consume_tables fingerprint s now t = ground arith

-- Whatever is submitted, the table's invariant is kept.
pub consume-TableInv :
    (max : ℕ) (fingerprint : Text) (submission : Option ApprovalSubmission) (now : ℕ) (t : Table)
    → TableInv max t
    → TableInv max (consume fingerprint submission now t).0
unfolding consume
consume-TableInv max fingerprint none now t v = prune-TableInv now t v
consume-TableInv max fingerprint (some s) now t v = elim (consume_tables fingerprint s now t) [
  | inl e ↦ subst (TableInv max) (sym e) (prune-TableInv now t v)
  | inr e ↦ subst (TableInv max) (sym e) (delete-TableInv s.id _ (prune-TableInv now t v))
]
