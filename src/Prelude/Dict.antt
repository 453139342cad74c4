-- ===== src/Prelude/Dict.antt =====
-- Go maps with string keys, as association lists. A new key goes to the end; `delete` takes every
-- entry of its key away.
use Prim.Native.Nat.{suc, ◌≤◌, ◌<◌}
use mathlib.Core.Path.{◌≡◌, refl, ap}
use mathlib.Core.Logic.{◌⊎◌, inl, inr}
use mathlib.Core.Bool.{true}
use mathlib.Core.Option.{Option, none, some}
use mathlib.Core.List.{List, [], ◌∷◌, ◌++◌}
use native.Mathlib.Omega.{arith}
use cliharbor.Prelude.Tests.{if◌then◌else◌, is_some}
use cliharbor.Prelude.Lists.{length}
use cliharbor.Prelude.Text.{Text, text_eq, text_eq_iff}

abbrev pub Dict {ℓ} : Type ℓ → Type ℓ
Dict V = List (Text × V)

module _ {ℓ} {V : Type ℓ} where
  unfoldable pub lookup : Text → Dict V → Option V
  lookup k [] = none
  lookup k ((j, v) ∷ m) = if text_eq j k then some v else lookup k m

  unfoldable pub insert : Text → V → Dict V → Dict V
  insert k v [] = (k, v) ∷ []
  insert k v ((j, w) ∷ m) = if text_eq j k then (j, v) ∷ m else (j, w) ∷ insert k v m

  unfoldable pub delete : Text → Dict V → Dict V
  delete k [] = []
  delete k ((j, w) ∷ m) = let rest = delete k m in if text_eq j k then rest else (j, w) ∷ rest

  abbrev pub keys : Dict V → List Text
  keys [] = []
  keys ((j, w) ∷ m) = j ∷ keys m

  pub lookup_nil : (k : Text) → lookup k [] ≡ none
  unfolding lookup
  lookup_nil k = refl

  pub lookup-insert :
      (k j : Text) (v : V) (m : Dict V)
      → lookup j (insert k v m) ≡ (if text_eq k j then some v else lookup j m)
  unfolding lookup insert
  lookup-insert k j v [] = refl
  lookup-insert k j v ((i, w) ∷ m) =
      ground (arith, text_eq_iff k j, text_eq_iff i k, text_eq_iff i j, lookup-insert k j v m)

  pub lookup-delete :
      (k j : Text) (m : Dict V) → lookup j (delete k m) ≡ (if text_eq k j then none else lookup j m)
  unfolding lookup delete
  lookup-delete k j [] = ground arith
  lookup-delete k j ((i, w) ∷ m) =
      ground (arith, text_eq_iff k j, text_eq_iff i k, text_eq_iff i j, lookup-delete k j m)

  pub length-delete-le : (k : Text) (m : Dict V) → length (delete k m) ≤ length m
  unfolding delete
  length-delete-le k [] = omega arith
  length-delete-le k ((i, w) ∷ m) = ground (arith, length-delete-le k m)

  -- A key that is there makes room when it goes.
  pub length-delete-lt :
      (k : Text) (m : Dict V) → is_some (lookup k m) ≡ true → length (delete k m) < length m
  unfolding delete lookup
  length-delete-lt k [] h = cc
  length-delete-lt k ((i, w) ∷ m) h = ground (arith, length-delete-le k m, length-delete-lt k m)

  pub length-insert-le : (k : Text) (v : V) (m : Dict V) → length (insert k v m) ≤ suc (length m)
  unfolding insert
  length-insert-le k v [] = omega arith
  length-insert-le k v ((i, w) ∷ m) = ground (arith, length-insert-le k v m)

  pub insert_new :
      (k : Text) (v : V) (m : Dict V) → lookup k m ≡ none → insert k v m ≡ m ++ (k, v) ∷ []
  unfolding insert lookup
  insert_new k v [] h = refl
  insert_new k v ((i, w) ∷ m) h = ground (arith, insert_new k v m)

  pub keys-insert_old :
      (k : Text) (v : V) (m : Dict V) → is_some (lookup k m) ≡ true → keys (insert k v m) ≡ keys m
  unfolding insert lookup
  keys-insert_old k v [] h = cc
  keys-insert_old k v ((i, w) ∷ m) h = ground (arith, keys-insert_old k v m)

  pub delete_absent : (k : Text) (m : Dict V) → lookup k m ≡ none → delete k m ≡ m
  unfolding delete lookup
  delete_absent k [] h = refl
  delete_absent k ((i, w) ∷ m) h = ground (arith, delete_absent k m)

  pub length-keys : (m : Dict V) → length (keys m) ≡ length m
  length-keys [] = refl
  length-keys ((i, w) ∷ m) = ap suc (length-keys m)

  pub keys-append : (m n : Dict V) → keys (m ++ n) ≡ keys m ++ keys n
  keys-append [] n = refl
  keys-append ((i, w) ∷ m) n = ap (◌∷◌ i) (keys-append m n)

  -- Every key stands once.
  abbrev pub Distinct : Dict V → Type ℓ
  Distinct [] = Unit
  Distinct ((k, v) ∷ m) = (lookup k m ≡ none) × Distinct m

  pub delete-Distinct : (k : Text) (m : Dict V) → Distinct m → Distinct (delete k m)
  unfolding delete
  delete-Distinct k [] d = tt
  delete-Distinct k ((i, w) ∷ m) d = ground (arith, delete-Distinct k m d.1, lookup-delete k i m)

  pub insert-Distinct : (k : Text) (v : V) (m : Dict V) → Distinct m → Distinct (insert k v m)
  unfolding insert lookup
  insert-Distinct k v [] d = (refl, tt)
  insert-Distinct k v ((i, w) ∷ m) d =
      ground
        (arith, insert-Distinct k v m d.1, lookup-insert k i v m, text_eq_iff i k, text_eq_iff k i)

module _ {V : Type 0} where
  -- An entry of a list.
  abbrev pub Has : Text → V → Dict V → Type 0
  Has k v [] = ⊥
  Has k v ((j, w) ∷ m) = ((j ≡ k) × (w ≡ v)) ⊎ Has k v m

  pub lookup-Has : (k : Text) (v : V) (m : Dict V) → lookup k m ≡ some v → Has k v m
  unfolding lookup
  lookup-Has k v [] h = cc
  lookup-Has k v ((j, w) ∷ m) h = ground (arith, text_eq_iff j k, lookup-Has k v m)

  pub Has-lookup : (k : Text) (v : V) (m : Dict V) → Distinct m → Has k v m → lookup k m ≡ some v
  unfolding lookup
  Has-lookup k v [] d h = absurd h
  Has-lookup k v ((j, w) ∷ m) d (inl h) = ground (arith, text_eq_iff j k)
  Has-lookup k v ((j, w) ∷ m) d (inr h) = ground (arith, text_eq_iff j k, Has-lookup k v m d.1 h)

  pub delete-Has : (k j : Text) (v : V) (m : Dict V) → Has j v (delete k m) → Has j v m
  unfolding delete
  delete-Has k j v [] h = h
  delete-Has k j v ((i, w) ∷ m) h = ground (arith, delete-Has k j v m)

  -- An entry after an insertion is the new one or an old one.
  pub insert-Has :
      (k j : Text) (v w : V) (m : Dict V) → Has j w (insert k v m) → ((k ≡ j) × (v ≡ w)) ⊎ Has j w m
  unfolding insert
  insert-Has k j v w [] h = h
  insert-Has k j v w ((i, u) ∷ m) h = ground (arith, text_eq_iff i k, insert-Has k j v w m)
