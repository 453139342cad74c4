-- ===== src/Prelude/Loop.antt =====
-- Loops that return at the first error: over a slice, with or without the index.
use Prim.Native.Nat.{ℕ, suc}
use mathlib.Core.Path.{◌≡◌, subst}
use mathlib.Core.Logic.{inl, inr}
use mathlib.Core.Bool.{true}
use mathlib.Core.List.{List, [], ◌∷◌}
use native.Mathlib.Omega.{arith}
use cliharbor.Prelude.Result.{Result, ok, ◌>>=◌, after_ok}
use cliharbor.Prelude.Tests.{Bool-cases}
use cliharbor.Prelude.Text.{Text, text_eq, text_eq→eq}
use cliharbor.Prelude.Sort.{mem_text}

unfoldable pub each {ℓ} :
    {E : Type 0} {A : Type ℓ} → (A → Result E (Unit {0})) → List A → Result E (Unit {0})
each f [] = ok tt
each f (x ∷ xs) = f x >>= λ _. each f xs

unfoldable pub each_at {ℓ} :
    {E : Type 0} {A : Type ℓ} → (ℕ → A → Result E (Unit {0})) → ℕ → List A → Result E (Unit {0})
each_at f i [] = ok tt
each_at f i (x ∷ xs) = f i x >>= λ _. each_at f (suc i) xs

-- A loop that ends without an error had none at any member.
pub each-member :
    {E : Type 0} (f : Text → Result E (Unit {0})) (ts : List Text) (t : Text) {u : Unit {0}}
    → each f ts ≡ ok u
    → mem_text t ts ≡ true
    → f t ≡ ok tt
unfolding each mem_text
each-member f [] t h m = cc
each-member f (x ∷ xs) t h m = after_ok (f x) h (λ a e rest. elim (Bool-cases (text_eq x t)) [
  | inl same ↦ subst (λ y. f y ≡ ok tt) (text_eq→eq x t same) e
  | inr other ↦ each-member f xs t rest (ground (arith, other))
])
