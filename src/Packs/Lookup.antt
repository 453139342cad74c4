-- ===== src/Packs/Lookup.antt =====
-- internal/packs/registry.go: a registry gives back the packs it was made of.
use cliharbor.Prelude.{
  ℕ, zero, suc, ◌+◌, ◌≡◌, ap, ◌∙◌, subst, some, List, [], ◌∷◌, inl, inr, Bool-cases, Option-cases,
  arith,
}
use cliharbor.Prelude.Text.{Text, text_eq_iff, text_eq_refl}
use cliharbor.Prelude.Dict.{Dict, lookup, insert, lookup-insert}
use cliharbor.Packs.{LoadedPack}
use cliharbor.Packs.Registry.{
  Registry, pack_before, insert_sorted, sort_packs, index_packs, new_registry, nth, find_pack,
}

-- A pack of a list, by its place.
abbrev pub Listed : LoadedPack → List LoadedPack → Type 0
Listed p xs = (j : ℕ) × (nth xs j ≡ some p)

cons_Listed : (p b : LoadedPack) (xs : List LoadedPack) → Listed p xs → Listed p (b ∷ xs)
cons_Listed p b xs l = (suc l.0, l.1)

insert_behind :
    (p a b : LoadedPack) (rest : List LoadedPack) (j : ℕ)
    → (Listed p (a ∷ rest) → Listed p (insert_sorted a rest))
    → nth (a ∷ b ∷ rest) j ≡ some p
    → Listed p (b ∷ insert_sorted a rest)
insert_behind p a b rest zero into e = cons_Listed p b (insert_sorted a rest) (into (zero, e))
insert_behind p a b rest (suc zero) into e = (zero, e)
insert_behind p a b rest (suc (suc j)) into e =
    cons_Listed p b (insert_sorted a rest) (into (suc j, e))

insert_sorted-Listed :
    (p a : LoadedPack) (xs : List LoadedPack) → Listed p (a ∷ xs) → Listed p (insert_sorted a xs)
unfolding insert_sorted
insert_sorted-Listed p a [] l = l
insert_sorted-Listed p a (b ∷ rest) l = elim (Bool-cases (pack_before b a)) [
  | inr e ↦ rw e l
  | inl e ↦ rw e (insert_behind p a b rest l.0 (insert_sorted-Listed p a rest) l.1)
]

sort_packs-Listed : (p : LoadedPack) (xs : List LoadedPack) → Listed p xs → Listed p (sort_packs xs)
unfolding sort_packs
sort_packs-Listed p [] l = l
sort_packs-Listed p (a ∷ rest) (zero, e) = insert_sorted-Listed p a (sort_packs rest) (zero, e)
sort_packs-Listed p (a ∷ rest) (suc j, e) =
    let l : Listed p (sort_packs rest) = sort_packs-Listed p rest (j, e) in
    insert_sorted-Listed p a (sort_packs rest) (suc l.0, l.1)

-- An index that is there stays.
index_packs-kept :
    (i : ℕ) (xs : List LoadedPack) (m : Dict ℕ) (k : Text) {v : ℕ} {m' : Dict ℕ}
    → index_packs i xs m ≡ some m'
    → lookup k m ≡ some v
    → lookup k m' ≡ some v
unfolding index_packs
index_packs-kept i [] m k h e = ground (arith, h, e)
index_packs-kept i (x ∷ xs) m k {v} {m'} h e = elim (Option-cases (lookup x.pack.metadata.id m)) [
  | inr (previous, f) ↦ absurd (ground (arith, h, f))
  | inl f ↦
      let rest : index_packs (suc i) xs (insert x.pack.metadata.id i m) ≡ some m' =
        ground (arith, h, f) in
      let there : lookup k (insert x.pack.metadata.id i m) ≡ some v =
        ground
          (arith, e, f, lookup-insert x.pack.metadata.id k i m, text_eq_iff x.pack.metadata.id k) in
      index_packs-kept (suc i) xs (insert x.pack.metadata.id i m) k rest there
]

index_packs-nth :
    (i : ℕ) (xs : List LoadedPack) (m : Dict ℕ) (j : ℕ) {p : LoadedPack} {m' : Dict ℕ}
    → index_packs i xs m ≡ some m'
    → nth xs j ≡ some p
    → lookup p.pack.metadata.id m' ≡ some (i + j)
unfolding index_packs
index_packs-nth i [] m j h e = absurd (cc e)
index_packs-nth i (x ∷ xs) m zero {p} {m'} h e = elim (Option-cases (lookup x.pack.metadata.id m)) [
  | inr (previous, f) ↦ absurd (ground (arith, h, f))
  | inl f ↦
      let same : x ≡ p = ground (arith, e) in
      let rest : index_packs (suc i) xs (insert x.pack.metadata.id i m) ≡ some m' =
        ground (arith, h, f) in
      let there : lookup x.pack.metadata.id (insert x.pack.metadata.id i m) ≡ some i = ground (
        arith,
        lookup-insert x.pack.metadata.id x.pack.metadata.id i m,
        text_eq_refl x.pack.metadata.id,
      ) in
      subst (λ (q : LoadedPack). lookup q.pack.metadata.id m' ≡ some (i + 0)) same
        (index_packs-kept (suc i) xs (insert x.pack.metadata.id i m) x.pack.metadata.id rest there
          ∙ ap some (omega arith))
]
index_packs-nth i (x ∷ xs) m (suc j) {p} {m'} h e =
    elim (Option-cases (lookup x.pack.metadata.id m)) [
      | inr (previous, f) ↦ absurd (ground (arith, h, f))
      | inl f ↦
          let rest : index_packs (suc i) xs (insert x.pack.metadata.id i m) ≡ some m' =
            ground (arith, h, f) in
          let moved : suc i + j ≡ i + suc j = omega arith in
          index_packs-nth (suc i) xs (insert x.pack.metadata.id i m) j rest e ∙ ap some moved
    ]

find_at :
    (ordered : List LoadedPack) (by_id : Dict ℕ) (p : LoadedPack) (j : ℕ)
    → lookup p.pack.metadata.id by_id ≡ some j
    → nth ordered j ≡ some p
    → find_pack (record { packs = ordered; by_id = by_id }) p.pack.metadata.id ≡ some p
unfolding find_pack
find_at ordered by_id p j h e = ground (arith, h, e)

-- A registry finds each pack that it was made of under that pack's identifier.
pub new_registry-find_pack :
    (packs : List LoadedPack) (p : LoadedPack) {r : Registry}
    → new_registry packs ≡ some r
    → Listed p packs
    → find_pack r p.pack.metadata.id ≡ some p
unfolding new_registry find_pack
new_registry-find_pack packs p {r} h l = elim (Option-cases (index_packs 0 (sort_packs packs) [])) [
  | inl e ↦ absurd (ground (arith, h, e))
  | inr (by_id, e) ↦
      let placed : Listed p (sort_packs packs) = sort_packs-Listed p packs l in
      let same : record { packs = sort_packs packs; by_id = by_id } ≡ r = ground (arith, h, e) in
      let found : lookup p.pack.metadata.id by_id ≡ some (0 + placed.0) =
        index_packs-nth 0 (sort_packs packs) [] placed.0 e placed.1 in
      let index : 0 + placed.0 ≡ placed.0 = omega arith in
      subst (λ q. find_pack q p.pack.metadata.id ≡ some p) same
        (find_at (sort_packs packs) by_id p placed.0 (found ∙ ap some index) placed.1)
]
