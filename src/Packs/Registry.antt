-- ===== src/Packs/Registry.antt =====
-- internal/packs/registry.go: construction of the registry and its lookups. Copies made so that no
-- caller shares memory with the registry are the values themselves here.
use cliharbor.Prelude.{ℕ, zero, suc, Bool, Option, none, some, List, [], ◌∷◌, if◌then◌else◌}
use cliharbor.Prelude.Text.{Text, text_eq, text_lt}
use cliharbor.Prelude.Dict.{Dict, lookup, insert}
use cliharbor.Packs.{Command, LoadedPack}

pub record Registry : Type 0 where
  pub packs : List LoadedPack
  pub by_id : Dict ℕ

-- The order given to `sort.Slice`: by pack identifier, then by source name.
unfoldable pub pack_before : LoadedPack → LoadedPack → Bool
pack_before a b =
    if text_eq a.pack.metadata.id b.pack.metadata.id
    then text_lt a.source_name b.source_name
    else text_lt a.pack.metadata.id b.pack.metadata.id

unfoldable pub insert_sorted : LoadedPack → List LoadedPack → List LoadedPack
unfolding pack_before
insert_sorted a [] = a ∷ []
insert_sorted a (b ∷ rest) = if pack_before b a then b ∷ insert_sorted a rest else a ∷ b ∷ rest

unfoldable pub sort_packs : List LoadedPack → List LoadedPack
unfolding insert_sorted
sort_packs [] = []
sort_packs (a ∷ rest) = insert_sorted a (sort_packs rest)

-- `none` stands for the duplicate-pack error.
unfoldable pub index_packs : ℕ → List LoadedPack → Dict ℕ → Option (Dict ℕ)
index_packs index [] by_id = some by_id
index_packs index (item ∷ rest) by_id =
    let next = index_packs (suc index) rest (insert item.pack.metadata.id index by_id) in
    elim (lookup item.pack.metadata.id by_id) [ some previous ↦ none | none ↦ next ]

unfoldable pub new_registry : List LoadedPack → Option Registry
new_registry loaded =
    let ordered = sort_packs loaded in
    elim (index_packs 0 ordered []) [
      | none ↦ none
      | some by_id ↦ some (record { packs = ordered; by_id = by_id })
    ]

abbrev pub nth : List LoadedPack → ℕ → Option LoadedPack
nth [] i = none
nth (x ∷ xs) zero = some x
nth (x ∷ xs) (suc i) = nth xs i

-- The stored index always lies in the slice; outside it Go would panic.
unfoldable pub find_pack : Registry → Text → Option LoadedPack
find_pack r id = elim (lookup id r.by_id) [ none ↦ none | some index ↦ nth r.packs index ]

unfoldable pub find_command : Registry → Text → Text → Option Command
find_command r pack_id command_id = elim (find_pack r pack_id) [
  | none ↦ none
  | some loaded ↦ lookup command_id loaded.pack.commands
]
