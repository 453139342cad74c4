-- ===== src/Approvals/Bound.antt =====
-- The invariant of the table of open approvals, and what pruning leaves of it.
use cliharbor.Prelude.{
  ℕ, ◌≤◌, ◌<◌, ◌≡◌, refl, inl, inr, false, none, some, [], ◌∷◌, length, ltb, arith, Bool-cases,
}
use cliharbor.Prelude.Text.{Text, is_empty}
use cliharbor.Prelude.Dict.{
  lookup, insert, delete, length-delete-le, Has, Distinct, delete-Distinct,
}
use cliharbor.Approvals.{ApprovalRecord}
use cliharbor.Approvals.Table.{Table, prune}

pub length-prune-le : (now : ℕ) (t : Table) → length (prune now t) ≤ length t
unfolding prune
length-prune-le now [] = omega arith
length-prune-le now ((id, r) ∷ rest) = ground (arith, length-prune-le now rest)

-- What the prune leaves was there, and is not expired.
pub prune-Has :
    (now : ℕ) (t : Table) (id : Text) (r : ApprovalRecord)
    → Has id r (prune now t)
    → (now < r.expires_at) × Has id r t
unfolding prune
prune-Has now [] id r h = absurd h
prune-Has now ((j, s) ∷ rest) id r h = elim (Bool-cases (ltb now s.expires_at)) [
  | inl live ↦ elim (rw live at h) [
    | inl here ↦ (ground arith, inl here)
    | inr there ↦ let (a, b) = prune-Has now rest id r there in (a, inr b)
  ]
  | inr gone ↦ let (a, b) = prune-Has now rest id r (rw gone at h) in (a, inr b)
]

pub absent-prune :
    (now : ℕ) (t : Table) (id : Text) → lookup id t ≡ none → lookup id (prune now t) ≡ none
unfolding prune lookup
absent-prune now [] id h = refl
absent-prune now ((j, s) ∷ rest) id h = ground (arith, absent-prune now rest id)

-- An approval that is still in time stays.
pub lookup-prune_live :
    (now : ℕ) (t : Table) (id : Text) (r : ApprovalRecord)
    → now < r.expires_at
    → lookup id t ≡ some r
    → lookup id (prune now t) ≡ some r
unfolding prune lookup
lookup-prune_live now [] id r l h = h
lookup-prune_live now ((j, s) ∷ rest) id r l h = ground (arith, lookup-prune_live now rest id r l)

prune-Distinct : (now : ℕ) (t : Table) → Distinct t → Distinct (prune now t)
unfolding prune
prune-Distinct now [] d = tt
prune-Distinct now ((j, s) ∷ rest) d =
    ground (arith, absent-prune now rest j d.0, prune-Distinct now rest d.1)

-- Run identifiers are not the empty text, which the eviction loop takes for "none yet".
abbrev pub HasKeys : Table → Type 0
HasKeys [] = Unit {0}
HasKeys ((id, r) ∷ rest) = (is_empty id ≡ false) × HasKeys rest

prune-HasKeys : (now : ℕ) (t : Table) → HasKeys t → HasKeys (prune now t)
unfolding prune
prune-HasKeys now [] h = tt
prune-HasKeys now ((id, r) ∷ rest) h = ground (arith, prune-HasKeys now rest h.1)

delete-HasKeys : (k : Text) (t : Table) → HasKeys t → HasKeys (delete k t)
unfolding delete
delete-HasKeys k [] h = tt
delete-HasKeys k ((id, r) ∷ rest) h = ground (arith, delete-HasKeys k rest h.1)

pub insert-HasKeys :
    (k : Text) (r : ApprovalRecord) (t : Table)
    → is_empty k ≡ false
    → HasKeys t
    → HasKeys (insert k r t)
unfolding insert
insert-HasKeys k r [] e h = (e, tt)
insert-HasKeys k r ((id, r') ∷ rest) e h = ground (arith, insert-HasKeys k r rest e h.1)

-- What holds of the table between two calls.
pub record TableInv (max : ℕ) (t : Table) : Type 0 where
  pub distinct : Distinct t
  pub named : HasKeys t
  pub bounded : length t ≤ max

pub prune-TableInv : {max : ℕ} (now : ℕ) (t : Table) → TableInv max t → TableInv max (prune now t)
prune-TableInv now t v = record {
  distinct = prune-Distinct now t v.distinct;
  named = prune-HasKeys now t v.named;
  bounded = omega (arith, length-prune-le now t, v.bounded);
}

pub delete-TableInv : {max : ℕ} (k : Text) (t : Table) → TableInv max t → TableInv max (delete k t)
delete-TableInv k t v = record {
  distinct = delete-Distinct k t v.distinct;
  named = delete-HasKeys k t v.named;
  bounded = omega (arith, length-delete-le k t, v.bounded);
}
