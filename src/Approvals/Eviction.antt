-- ===== src/Approvals/Eviction.antt =====
-- Which approval makes way for a new one when the table is full.
use cliharbor.Prelude.{
  ℕ, ◌<◌, ◌≡◌, refl, sym, subst, ◌⊎◌, inl, inr, true, false, some, [], ◌∷◌, length, leb,
  if◌then◌else◌, arith, Bool-cases,
}
use cliharbor.Prelude.Text.{
  Text, text_eq, text_eq→eq, text_lt, text_lt_irrefl, text_lt-total, text_lt_trans, is_empty,
}
use cliharbor.Prelude.Dict.{
  lookup, delete, length-delete-lt, length-insert-le, Has, Has-lookup, Distinct, insert-Distinct,
}
use cliharbor.Approvals.{ApprovalRecord}
use cliharbor.Approvals.Table.{Table, prune, is_older, oldest_from, evict_oldest, issue}
use cliharbor.Approvals.Bound.{HasKeys, TableInv, prune-TableInv, delete-TableInv, insert-HasKeys}

is_older-total :
    (a : Text) (s : ℕ) (b : Text) (t : ℕ)
    → is_older a s b t ≡ false
    → (is_older b t a s ≡ true) ⊎ ((a ≡ b) × (s ≡ t))
unfolding is_older
is_older-total a s b t h = elim (Bool-cases (text_eq a b)) [
  | inl e ↦ ground (arith, text_eq→eq a b e)
  | inr n ↦ ground (arith, text_lt-total a b n)
]

is_older_trans :
    (a : Text) (s : ℕ) (b : Text) (t : ℕ) (c : Text) (u : ℕ)
    → is_older a s b t ≡ true
    → is_older b t c u ≡ true
    → is_older a s c u ≡ true
unfolding is_older
is_older_trans a s b t c u h k = ground (arith, text_lt_trans a b c)

is_older_irrefl : (a : Text) (s : ℕ) → is_older a s a s ≡ false
unfolding is_older
is_older_irrefl a s = ground (arith, text_lt_irrefl a)

-- No entry of the table is older than the one given.
abbrev NoneOlder : Text → ℕ → Table → Type 0
NoneOlder id at [] = Unit {0}
NoneOlder id at ((j, r) ∷ rest) = (is_older j r.issued_at id at ≡ false) × NoneOlder id at rest

-- The entry that the loop ends at: the one it started with, or one of the table.
abbrev Found : Text → ℕ → Table → Text → Type 0
Found id0 at0 t id =
    (at : ℕ) × (((id ≡ id0) × (at ≡ at0))
      ⊎ ((r : ApprovalRecord) × Has id r t × (r.issued_at ≡ at)))
    × (is_older id0 at0 id at ≡ false)
    × NoneOlder id at t
    × (is_empty id ≡ false)

Found-newer :
    (id0 : Text) (at0 : ℕ) (j : Text) (r : ApprovalRecord) (rest : Table) (id : Text)
    → is_older j r.issued_at id0 at0 ≡ true
    → Found j r.issued_at rest id
    → Found id0 at0 ((j, r) ∷ rest) id
Found-newer id0 at0 j r rest id h (at, where_from, first, others, named) =
    (at, inr (origin where_from), before, (first, others), named)
  where
    origin :
        ((id ≡ j) × (at ≡ r.issued_at))
          ⊎ ((s : ApprovalRecord) × Has id s rest × (s.issued_at ≡ at))
        → (s : ApprovalRecord) × Has id s ((j, r) ∷ rest) × (s.issued_at ≡ at)
    origin (inl (e, t)) = (r, inl (sym e, refl), sym t)
    origin (inr (s, m, t)) = (s, inr m, t)

    before : is_older id0 at0 id at ≡ false
    before = elim (Bool-cases (is_older id0 at0 id at)) [
      | inl k ↦ cc (is_older_trans j r.issued_at id0 at0 id at h k)
      | inr k ↦ k
    ]

Found-kept :
    (id0 : Text) (at0 : ℕ) (j : Text) (r : ApprovalRecord) (rest : Table) (id : Text)
    → is_older j r.issued_at id0 at0 ≡ false
    → Found id0 at0 rest id
    → Found id0 at0 ((j, r) ∷ rest) id
Found-kept id0 at0 j r rest id h (at, where_from, first, others, named) =
    (at, origin where_from, first, (later, others), named)
  where
    origin :
        ((id ≡ id0) × (at ≡ at0)) ⊎ ((s : ApprovalRecord) × Has id s rest × (s.issued_at ≡ at))
        → ((id ≡ id0) × (at ≡ at0))
          ⊎ ((s : ApprovalRecord) × Has id s ((j, r) ∷ rest) × (s.issued_at ≡ at))
    origin (inl p) = inl p
    origin (inr (s, m, t)) = inr (s, inr m, t)

    later : is_older j r.issued_at id at ≡ false
    later = elim (Bool-cases (is_older j r.issued_at id at)) [
      | inl k ↦ elim (is_older-total j r.issued_at id0 at0 h) [
        | inl b ↦ cc (is_older_trans id0 at0 j r.issued_at id at b k)
        | inr (p, q) ↦ rw (p, q) first
      ]
      | inr k ↦ k
    ]

oldest_from_newer :
    (id0 : Text) (at0 : ℕ) (j : Text) (r : ApprovalRecord) (rest : Table)
    → is_older j r.issued_at id0 at0 ≡ true
    → oldest_from j r.issued_at rest ≡ oldest_from id0 at0 ((j, r) ∷ rest)
unfolding oldest_from
oldest_from_newer id0 at0 j r rest h = ground arith

oldest_from_kept :
    (id0 : Text) (at0 : ℕ) (j : Text) (r : ApprovalRecord) (rest : Table)
    → is_empty id0 ≡ false
    → is_older j r.issued_at id0 at0 ≡ false
    → oldest_from id0 at0 rest ≡ oldest_from id0 at0 ((j, r) ∷ rest)
unfolding oldest_from
oldest_from_kept id0 at0 j r rest e h = ground arith

oldest_from-Found :
    (id0 : Text) (at0 : ℕ) (t : Table)
    → is_empty id0 ≡ false
    → HasKeys t
    → Found id0 at0 t (oldest_from id0 at0 t)
unfolding oldest_from
oldest_from-Found id0 at0 [] e h = (at0, inl (refl, refl), is_older_irrefl id0 at0, tt, e)
oldest_from-Found id0 at0 ((j, r) ∷ rest) e h = elim (Bool-cases (is_older j r.issued_at id0 at0)) [
  | inl y ↦
      subst (Found id0 at0 ((j, r) ∷ rest)) (oldest_from_newer id0 at0 j r rest y)
        (Found-newer id0 at0 j r rest _ y (oldest_from-Found j r.issued_at rest h.0 h.1))
  | inr n ↦
      subst (Found id0 at0 ((j, r) ∷ rest)) (oldest_from_kept id0 at0 j r rest e n)
        (Found-kept id0 at0 j r rest _ n (oldest_from-Found id0 at0 rest e h.1))
]

-- No entry of the table was issued before this time, or at this time under a smaller identifier.
abbrev pub IssuedFirst : Text → ℕ → Table → Type 0
IssuedFirst id at [] = Unit {0}
IssuedFirst id at ((j, r) ∷ rest) =
    ((at < r.issued_at) ⊎ ((at ≡ r.issued_at) × ((id ≡ j) ⊎ (text_lt id j ≡ true))))
    × IssuedFirst id at rest

not_older :
    (j : Text) (s : ℕ) (id : Text) (at : ℕ)
    → is_older j s id at ≡ false
    → (at < s) ⊎ ((at ≡ s) × ((id ≡ j) ⊎ (text_lt id j ≡ true)))
unfolding is_older
not_older j s id at h = elim (Bool-cases (text_eq j id)) [
  | inl e ↦ ground (arith, h, text_eq→eq j id e)
  | inr n ↦ ground (arith, h, text_lt-total j id n)
]

NoneOlder-IssuedFirst : (id : Text) (at : ℕ) (t : Table) → NoneOlder id at t → IssuedFirst id at t
NoneOlder-IssuedFirst id at [] h = tt
NoneOlder-IssuedFirst id at ((j, r) ∷ rest) h =
    (not_older j r.issued_at id at h.0, NoneOlder-IssuedFirst id at rest h.1)

-- The entry that is evicted.
abbrev pub Evicts : Table → Table → Type 0
Evicts t t' =
    (id : Text) × (r : ApprovalRecord) × (lookup id t ≡ some r)
    × IssuedFirst id r.issued_at t
    × (t' ≡ delete id t)

Evicts-Found :
    (j : Text) (r : ApprovalRecord) (rest : Table) (id : Text)
    → Distinct ((j, r) ∷ rest)
    → Found j r.issued_at rest id
    → (s : ApprovalRecord) × (lookup id ((j, r) ∷ rest) ≡ some s)
      × NoneOlder id s.issued_at ((j, r) ∷ rest)
Evicts-Found j r rest id d (at, inl (e, t), first, others, named) = (
  r,
  Has-lookup id r ((j, r) ∷ rest) d (inl (sym e, refl)),
  subst (λ x. (is_older j r.issued_at id x ≡ false) × NoneOlder id x rest) t (first, others),
)
Evicts-Found j r rest id d (at, inr (s, m, t), first, others, named) = (
  s,
  Has-lookup id s ((j, r) ∷ rest) d (inr m),
  subst (λ x. (is_older j r.issued_at id x ≡ false) × NoneOlder id x rest) (sym t) (first, others),
)

-- A table that is not empty, has no key twice and no empty key loses exactly its oldest approval: none of its entries was issued
-- before the one taken out, or at the same time under a smaller identifier.
pub evict_oldest-Evicts :
    (t : Table) → Distinct t → HasKeys t → 0 < length t → Evicts t (evict_oldest t)
unfolding evict_oldest oldest_from
evict_oldest-Evicts [] d h l = absurd (omega arith)
evict_oldest-Evicts ((j, r) ∷ rest) d h l =
    let found = oldest_from-Found j r.issued_at rest h.0 h.1 in
    let (s, e, n) = Evicts-Found j r rest (oldest_from j r.issued_at rest) d found in
    (
      oldest_from j r.issued_at rest,
      s,
      e,
      NoneOlder-IssuedFirst (oldest_from j r.issued_at rest) s.issued_at ((j, r) ∷ rest) n,
      rw found.4,
    )

length-evict_oldest :
    (t : Table) → Distinct t → HasKeys t → 0 < length t → length (evict_oldest t) < length t
length-evict_oldest t d h l =
    let (id, r, e, _, q) = evict_oldest-Evicts t d h l in rw q (length-delete-lt id t (rw e))

-- The table with room for one more.
with_room : ℕ → ℕ → Table → Table
with_room max now t =
    let pruned = prune now t in if leb max (length pruned) then evict_oldest pruned else pruned

with_room-TableInv :
    (max now : ℕ) (t : Table)
    → 0 < max
    → TableInv max t
    → TableInv max (with_room max now t) × (length (with_room max now t) < max)
unfolding with_room
with_room-TableInv max now t p v = elim (Bool-cases (leb max (length (prune now t)))) [
  | inl full ↦ rw full (evicted full)
  | inr free ↦ rw free (pruned, ground arith)
]
  where
    pruned : TableInv max (prune now t)
    pruned = prune-TableInv now t v

    evicted :
        leb max (length (prune now t)) ≡ true
        → TableInv max (evict_oldest (prune now t)) × (length (evict_oldest (prune now t)) < max)
    evicted full =
        let some_entry : 0 < length (prune now t) = ground arith in
        let (id, r, e, _, q) =
          evict_oldest-Evicts (prune now t) pruned.distinct pruned.named some_entry in
        (
          rw q (delete-TableInv id (prune now t) pruned),
          omega (
            arith,
            length-evict_oldest (prune now t) pruned.distinct pruned.named some_entry,
            pruned.bounded,
          ),
        )

-- With a limit above 0, issuing an approval under an identifier that is not empty keeps the table's
-- invariant, its limit included, whatever the time.
pub issue-TableInv :
    (max now : ℕ) (id : Text) (r : ApprovalRecord) (t : Table)
    → 0 < max
    → is_empty id ≡ false
    → TableInv max t
    → TableInv max (issue max now id r t)
unfolding issue with_room
issue-TableInv max now id r t p e v =
    let (inv, room) = with_room-TableInv max now t p v in
    record {
      distinct = insert-Distinct id r _ inv.distinct;
      named = insert-HasKeys id r _ e inv.named;
      bounded = omega (arith, length-insert-le id r (with_room max now t), room);
    }
