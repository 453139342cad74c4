-- ===== src/Prelude/Result.antt =====
-- Go's `(value, error)` results.
use mathlib.Core.Path.{◌≡◌, refl}
use mathlib.Core.Bool.{Bool, true, false}
use mathlib.Core.Option.{Option, none, some}

pub data Result {ℓ} (E : Type 0) (A : Type ℓ) : Type ℓ where
  ok : A → Result E A
  err : E → Result E A

infixl 5 ◌>>=◌ ◌>>◌
abbrev pub ◌>>=◌ {ℓ κ} :
    {E : Type 0} {A : Type ℓ} {B : Type κ} → Result E A → (A → Result E B) → Result E B
ok a >>= f = f a
err e >>= f = err e

abbrev pub ◌>>◌ {ℓ} : {E : Type 0} {B : Type ℓ} → Result E (Unit {0}) → Result E B → Result E B
m >> k = m >>= λ _. k

-- An early return of an error when the test holds.
abbrev pub fail_if : {E : Type 0} → Bool → E → Result E (Unit {0})
fail_if true e = err e
fail_if false e = ok tt

abbrev pub or_fail {ℓ} : {E : Type 0} {A : Type ℓ} → Option A → E → Result E A
or_fail none e = err e
or_fail (some a) e = ok a

abbrev pub is_ok {ℓ} : {E : Type 0} {A : Type ℓ} → Result E A → Bool
is_ok (ok a) = true
is_ok (err e) = false

-- A chain that succeeds: its first call succeeded with some value, and so did the rest on it.
pub after_ok {ℓ κ μ} :
    {E : Type 0} {A : Type ℓ} {B : Type κ} {C : Type μ} {f : A → Result E B} {b : B}
    (first : Result E A)
    → first >>= f ≡ ok b
    → ((a : A) → first ≡ ok a → f a ≡ ok b → C)
    → C
after_ok (err e) h k = absurd (cc h)
after_ok (ok a) h k = k a refl h

-- A chain past a test that holds no error.
pub after_check {κ μ} :
    {E : Type 0} {B : Type κ} {C : Type μ} {rest : Result E B} {b : B} (bad : Bool) (e : E)
    → fail_if bad e >> rest ≡ ok b
    → (bad ≡ false → rest ≡ ok b → C)
    → C
after_check true e h k = absurd (cc h)
after_check false e h k = k refl h

-- A chain past an option that was present.
pub after_some {ℓ κ μ} :
    {E : Type 0} {A : Type ℓ} {B : Type κ} {C : Type μ} {f : A → Result E B} {b : B} (o : Option A)
    (e : E)
    → or_fail o e >>= f ≡ ok b
    → ((a : A) → o ≡ some a → f a ≡ ok b → C)
    → C
after_some none e h k = absurd (cc h)
after_some (some a) e h k = k a refl h

pub ok_injective {ℓ} :
    {E : Type 0} {A : Type ℓ} {a b : A} → ◌≡◌ {A = Result E A} (ok a) (ok b) → a ≡ b
ok_injective h = cc h

pub is_ok_value {ℓ} :
    {E : Type 0} {A : Type ℓ} (m : Result E A) → is_ok m ≡ true → (a : A) × (m ≡ ok a)
is_ok_value (ok a) h = (a, refl)
is_ok_value (err e) h = absurd (cc h)

-- A chain that fails: its first call failed, or the rest did.
pub after_err {ℓ κ μ} :
    {E : Type 0} {A : Type ℓ} {B : Type κ} {C : Type μ} {f : A → Result E B} {e : E}
    (first : Result E A)
    → first >>= f ≡ err e
    → (first ≡ err e → C)
    → ((a : A) → first ≡ ok a → f a ≡ err e → C)
    → C
after_err (err d) h stop go_on = stop (cc h)
after_err (ok a) h stop go_on = go_on a refl h
