-- ===== src/Prelude/Text.antt =====
-- Go strings and byte slices: lists of bytes, with the comparisons `==` and `<` of the language.
use Prim.Native.Nat.{ℕ}
use Prim.Native.Char.{code}
use Prim.Native.String.{String}
use mathlib.Core.Path.{◌≡◌, refl}
use mathlib.Core.Logic.{◌↔◌}
use mathlib.Core.Bool.{Bool, true, false, ◌&&◌}
use mathlib.Core.List.{List, [], ◌∷◌}
use native.Mathlib.Omega.{arith}
use cliharbor.Prelude.Tests.{ltb, ◌==◌, if◌then◌else◌, &&-split}

abbrev pub Text : Type 0
Text = List ℕ

-- An ASCII constant of the source.
abbrev pub lit : String → Text
lit String.[] = []
lit (String.◌∷◌ c s) = code c ∷ lit s

unfoldable pub text_eq : Text → Text → Bool
text_eq [] [] = true
text_eq [] (b ∷ bs) = false
text_eq (a ∷ as') [] = false
text_eq (a ∷ as') (b ∷ bs) = (a == b) && text_eq as' bs

-- Byte order, a proper prefix first.
unfoldable pub text_lt : Text → Text → Bool
text_lt [] [] = false
text_lt [] (b ∷ bs) = true
text_lt (a ∷ as') [] = false
text_lt (a ∷ as') (b ∷ bs) = if ltb a b then true else (a == b) && text_lt as' bs

abbrev pub is_empty : Text → Bool
is_empty [] = true
is_empty (_ ∷ _) = false

pub text_eq_refl : (a : Text) → text_eq a a ≡ true
unfolding text_eq
text_eq_refl [] = refl
text_eq_refl (a ∷ as') = ground (arith, text_eq_refl as')

pub text_eq→eq : (a b : Text) → text_eq a b ≡ true → a ≡ b
unfolding text_eq
text_eq→eq [] [] h = refl
text_eq→eq [] (b ∷ bs) h = cc
text_eq→eq (a ∷ as') [] h = cc
text_eq→eq (a ∷ as') (b ∷ bs) h =
    ground (arith, text_eq→eq as' bs (&&-split (a == b) (text_eq as' bs) h).1)

pub text_eq_iff : (a b : Text) → (text_eq a b ≡ true) ↔ (a ≡ b)
text_eq_iff a b = (text_eq→eq a b, λ e. rw e (text_eq_refl b))

pub text_lt_irrefl : (a : Text) → text_lt a a ≡ false
unfolding text_lt
text_lt_irrefl [] = refl
text_lt_irrefl (a ∷ as') = ground (arith, text_lt_irrefl as')

pub text_lt-total : (a b : Text) → text_eq a b ≡ false → text_lt a b ≡ false → text_lt b a ≡ true
unfolding text_eq text_lt
text_lt-total [] [] h k = cc
text_lt-total [] (b ∷ bs) h k = cc
text_lt-total (a ∷ as') [] h k = refl
text_lt-total (a ∷ as') (b ∷ bs) h k = ground (arith, text_lt-total as' bs)

pub text_lt_trans : (a b c : Text) → text_lt a b ≡ true → text_lt b c ≡ true → text_lt a c ≡ true
unfolding text_lt
text_lt_trans [] [] c h k = cc
text_lt_trans [] (b ∷ bs) [] h k = cc
text_lt_trans [] (b ∷ bs) (c ∷ cs) h k = refl
text_lt_trans (a ∷ as') [] c h k = cc
text_lt_trans (a ∷ as') (b ∷ bs) [] h k = cc
text_lt_trans (a ∷ as') (b ∷ bs) (c ∷ cs) h k = ground (arith, text_lt_trans as' bs cs)
