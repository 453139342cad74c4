-- ===== src/Planner/Mappings.antt =====
-- The mappings of a command: their literals cover the values that an input may have.
use cliharbor.Prelude.{
  ◌≡◌, refl, true, not, Option, none, some, List, [], ◌∷◌, is_some, arith, length, ◌==◌,
}
use cliharbor.Prelude.Result.{ok, after_check}
use cliharbor.Prelude.Text.{Text}
use cliharbor.Prelude.Dict.{Dict, lookup, keys, Distinct, length-keys}
use cliharbor.Prelude.Sort.{mem_text}
use cliharbor.Prelude.Cover.{
  distinct_texts, all_in, mem_text-distinct_texts, covers, mem_text-lookup, keys-no_repeat,
}
use cliharbor.Packs.{Argument, MapArgument}
use cliharbor.Packs.Validation.Arguments.{validate_mapping, validate_literals}

-- The literals of a mapping cover the declared texts.
validate_literals-all_in :
    (allowed : List Text) (literals : Dict Text) (path : Text) {u : Unit {0}}
    → validate_literals allowed literals path ≡ ok u
    → all_in (keys literals) allowed ≡ true
unfolding validate_literals all_in
validate_literals-all_in allowed [] path h = refl
validate_literals-all_in allowed ((key, literal) ∷ rest) path h =
    ground (arith, validate_literals-all_in allowed rest path, h)

all_in-distinct_texts :
    (ks us : List Text) → all_in ks us ≡ true → all_in ks (distinct_texts us) ≡ true
unfolding all_in
all_in-distinct_texts [] us h = refl
all_in-distinct_texts (k ∷ ks) us h =
    ground (arith, mem_text-distinct_texts k us, all_in-distinct_texts ks us)

pub mapping_covers :
    (allowed : List Text) (literals : Dict Text) (path t : Text) {u : Unit {0}}
    → Distinct literals
    → validate_mapping allowed literals path ≡ ok u
    → mem_text t allowed ≡ true
    → is_some (lookup t literals) ≡ true
unfolding validate_mapping
mapping_covers allowed literals path t d h m =
    after_check (not (length literals == length (distinct_texts allowed))) _ h (λ same rest.
      mem_text-lookup t literals (
        covers (keys literals) (distinct_texts allowed) t (keys-no_repeat literals d)
          (all_in-distinct_texts (keys literals) allowed
            (validate_literals-all_in allowed literals path rest))
          (ground (arith, length-keys literals, same))
          (ground (arith, mem_text-distinct_texts t allowed, m))))

-- The literals of an argument's mapping, as those of every Go map, have different keys.
abbrev pub MapDistinct : Option MapArgument → Type 0
MapDistinct none = Unit
MapDistinct (some m) = Distinct m.values

-- Every mapping of a command line has different keys.
abbrev pub MapsDistinct : List Argument → Type 0
MapsDistinct [] = Unit
MapsDistinct (a ∷ rest) = MapDistinct a.mapped × MapsDistinct rest
