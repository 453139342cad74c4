-- ===== src/Prelude/Sort.antt =====
-- `sort.Strings`, and the keys of a map in that order.
use mathlib.Core.Path.{◌≡◌, refl}
use mathlib.Core.Bool.{Bool, true, false, ◌||◌}
use mathlib.Core.List.{List, [], ◌∷◌}
use native.Mathlib.Omega.{arith}
use cliharbor.Prelude.Tests.{if◌then◌else◌, is_some}
use cliharbor.Prelude.Text.{Text, text_eq, text_lt}
use cliharbor.Prelude.Dict.{Dict, keys, lookup}

unfoldable pub insert_text : Text → List Text → List Text
insert_text t [] = t ∷ []
insert_text t (u ∷ us) = if text_lt u t then u ∷ insert_text t us else t ∷ u ∷ us

unfoldable pub sort_texts : List Text → List Text
unfolding insert_text
sort_texts [] = []
sort_texts (t ∷ ts) = insert_text t (sort_texts ts)

abbrev pub sorted_keys {ℓ} : {V : Type ℓ} → Dict V → List Text
sorted_keys m = sort_texts (keys m)

-- `stringSet(values)[t]`, and every loop that looks for a text.
unfoldable pub mem_text : Text → List Text → Bool
mem_text t [] = false
mem_text t (u ∷ us) = text_eq u t || mem_text t us

mem_text-insert :
    (t u : Text) (us : List Text) → mem_text t (insert_text u us) ≡ (text_eq u t || mem_text t us)
unfolding mem_text insert_text
mem_text-insert t u [] = refl
mem_text-insert t u (v ∷ us) = ground (arith, mem_text-insert t u us)

pub mem_text-sort : (t : Text) (us : List Text) → mem_text t (sort_texts us) ≡ mem_text t us
unfolding mem_text sort_texts
mem_text-sort t [] = refl
mem_text-sort t (u ∷ us) = ground (arith, mem_text-insert t u (sort_texts us), mem_text-sort t us)

pub lookup-mem_text :
    {V : Type 0} (k : Text) (m : Dict V) → is_some (lookup k m) ≡ true → mem_text k (keys m) ≡ true
unfolding lookup mem_text
lookup-mem_text k [] h = cc
lookup-mem_text k ((j, w) ∷ m) h = ground (arith, lookup-mem_text k m)
