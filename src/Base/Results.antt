-- ===== src/Base/Results.antt =====
-- Go's `(T, error)`: a value or an error.
use mathlib.Core.Logic.{◌⊎◌, inl, inr}
use mathlib.Core.Path.{◌≡◌, refl}

pub data Result {ℓ} (E A : Type ℓ) : Type ℓ where
  ok : A → Result E A
  err : E → Result E A

pub Result-cases {ℓ} :
    {E A : Type ℓ} (r : Result E A) → ((a : A) × (r ≡ ok a)) ⊎ ((e : E) × (r ≡ err e))
Result-cases (ok a) = inl (a, refl)
Result-cases (err e) = inr (e, refl)

-- The value of a success, or `d`.
abbrev pub got {ℓ} : {E A : Type ℓ} → A → Result E A → A
got d (ok a) = a
got d (err e) = d

-- A failure is no success.
pub err_is_no_ok {ℓ} : {E A : Type ℓ} {B : Type 0} (e : E) (a : A) → err e ≡ ok a → B
err_is_no_ok e a h = absurd cc
