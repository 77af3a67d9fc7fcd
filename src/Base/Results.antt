-- ===== src/Base/Results.antt =====
-- The monad of `Result`, and that of a decoder, which reads from a stream and can fail.
use mathlib.Core.Path.{◌≡◌, refl}
use mathlib.Core.Logic.{◌⊎◌, inl, inr}
use rgb_std.Base.Tests.{Result, ok, err}

infixl 5 ◌>>=◌
abbrev pub ◌>>=◌ {ℓ κ μ} :
    {E : Type μ} {A : Type ℓ} {B : Type κ} → Result E A → (A → Result E B) → Result E B
ok a >>= f = f a
err e >>= f = err e

abbrev pub map_err {ℓ κ μ} :
    {E : Type κ} {E' : Type μ} {A : Type ℓ} → (E → E') → Result E A → Result E' A
map_err f (ok a) = ok a
map_err f (err e) = err (f e)

-- `MultiError` of amplify.
pub data MultiError (A : Type 0) (B : Type 0) (C : Type 0) : Type 0 where
  in_a : A → MultiError A B C
  in_b : B → MultiError A B C
  in_c : C → MultiError A B C

pub Result-cases {ℓ κ} :
    {E : Type ℓ} {A : Type κ} (r : Result E A) → ((e : E) × (r ≡ err e)) ⊎ ((a : A) × (r ≡ ok a))
Result-cases (err e) = inl (e, refl)
Result-cases (ok a) = inr (a, refl)

-- What a chain went through where it has a value.
pub >>=-eq-ok {ℓ κ μ} :
    {E : Type μ} {A : Type ℓ} {B : Type κ} {b : B} (r : Result E A) (k : A → Result E B)
    → (r >>= k) ≡ ok b
    → (x : A) × (r ≡ ok x) × (k x ≡ ok b)
>>=-eq-ok (err e) k made = absurd (cc)
>>=-eq-ok (ok x) k made = (x, refl, made)
