-- ===== src/Prelude/Cover.antt =====
-- Lists of texts as sets: a list of distinct members that is no shorter than a set around it covers it.
use Prim.Native.Nat.{◌≤◌, ◌<◌}
use mathlib.Core.Path.{◌≡◌, refl}
use mathlib.Core.Bool.{Bool, true, false, not, ◌&&◌}
use mathlib.Core.Option.{none}
use mathlib.Core.List.{List, [], ◌∷◌}
use native.Mathlib.Omega.{arith}
use cliharbor.Prelude.Tests.{if◌then◌else◌, is_some}
use cliharbor.Prelude.Lists.{length}
use cliharbor.Prelude.Text.{Text, text_eq, text_eq_iff}
use cliharbor.Prelude.Dict.{Dict, keys, lookup, Distinct}
use cliharbor.Prelude.Sort.{mem_text}

-- The members, each once.
unfoldable pub distinct_texts : List Text → List Text
distinct_texts [] = []
distinct_texts (t ∷ ts) = let rest = distinct_texts ts in if mem_text t ts then rest else t ∷ rest

unfoldable pub remove_text : Text → List Text → List Text
remove_text t [] = []
remove_text t (u ∷ us) = let rest = remove_text t us in if text_eq u t then rest else u ∷ rest

-- Every member of the first list is in the second.
unfoldable pub all_in : List Text → List Text → Bool
all_in [] us = true
all_in (t ∷ ts) us = mem_text t us && all_in ts us

unfoldable pub no_repeat : List Text → Bool
no_repeat [] = true
no_repeat (t ∷ ts) = not (mem_text t ts) && no_repeat ts

pub mem_text-distinct_texts :
    (t : Text) (ts : List Text) → mem_text t (distinct_texts ts) ≡ mem_text t ts
unfolding mem_text distinct_texts
mem_text-distinct_texts t [] = refl
mem_text-distinct_texts t (u ∷ us) = ground (arith, text_eq_iff u t, mem_text-distinct_texts t us)

mem_text-remove_text :
    (t u : Text) (us : List Text)
    → mem_text u (remove_text t us) ≡ (not (text_eq t u) && mem_text u us)
unfolding mem_text remove_text
mem_text-remove_text t u [] = ground arith
mem_text-remove_text t u (v ∷ us) =
    ground (arith, text_eq_iff v t, text_eq_iff v u, text_eq_iff t u, mem_text-remove_text t u us)

length-remove_text-le : (t : Text) (us : List Text) → length (remove_text t us) ≤ length us
unfolding remove_text
length-remove_text-le t [] = omega arith
length-remove_text-le t (u ∷ us) = ground (arith, length-remove_text-le t us)

length-remove_text :
    (t : Text) (us : List Text) → mem_text t us ≡ true → length (remove_text t us) < length us
unfolding mem_text remove_text
length-remove_text t [] h = cc
length-remove_text t (u ∷ us) h =
    ground (arith, length-remove_text t us, length-remove_text-le t us)

all_in-remove_text :
    (t : Text) (ts us : List Text)
    → all_in ts us ≡ true
    → mem_text t ts ≡ false
    → all_in ts (remove_text t us) ≡ true
unfolding all_in mem_text
all_in-remove_text t [] us h n = refl
all_in-remove_text t (s ∷ ts) us h n = ground (
  arith,
  text_eq_iff s t,
  text_eq_iff t s,
  mem_text-remove_text t s us,
  all_in-remove_text t ts us,
)

pub covers :
    (ks us : List Text) (t : Text)
    → no_repeat ks ≡ true
    → all_in ks us ≡ true
    → length us ≤ length ks
    → mem_text t us ≡ true
    → mem_text t ks ≡ true
unfolding no_repeat all_in mem_text
covers [] [] t n a l m = cc
covers [] (u ∷ us) t n a l m = ground arith
covers (k ∷ ks) us t n a l m = ground (
  arith,
  text_eq_iff k t,
  mem_text-remove_text k t us,
  length-remove_text k us,
  all_in-remove_text k ks us,
  covers ks (remove_text k us) t,
)

pub mem_text-lookup :
    {V : Type 0} (k : Text) (m : Dict V) → mem_text k (keys m) ≡ true → is_some (lookup k m) ≡ true
unfolding lookup mem_text
mem_text-lookup k [] h = cc
mem_text-lookup k ((j, w) ∷ m) h = ground (arith, mem_text-lookup k m)

absent-mem_text :
    {V : Type 0} (k : Text) (m : Dict V) → lookup k m ≡ none → mem_text k (keys m) ≡ false
absent-mem_text k m h = ground (arith, mem_text-lookup k m)

pub keys-no_repeat : {V : Type 0} (m : Dict V) → Distinct m → no_repeat (keys m) ≡ true
unfolding no_repeat
keys-no_repeat [] d = refl
keys-no_repeat ((j, w) ∷ m) d = ground (arith, absent-mem_text j m d.0, keys-no_repeat m d.1)
