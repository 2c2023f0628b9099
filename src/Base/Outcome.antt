-- ===== src/Base/Outcome.antt =====
-- The error values of the program, and the result of a call that may fail.
use Prim.Native.Nat.{ℕ}
use mathlib.Core.Path.{◌≡◌, refl}
use mathlib.Core.Logic.{◌⊎◌, inl, inr}

-- The sentinel errors of internal/index, internal/core and internal/index/ann, the errors of the
-- standard library that the code tests for, and every other error of the system under a number.
pub data Error : Type 0 where
  vector_exists vector_not_found : Error
  invalid_id invalid_values invalid_k : Error
  vector_dim_too_high k_too_high : ℕ → Error
  skip_wal_op invalid_vector_dim : Error
  eof unexpected_eof closed unknown_record_op line_too_long : Error
  system : ℕ → Error

pub data Result {ℓ} (A : Type ℓ) : Type ℓ where
  ok : A → Result A
  err : Error → Result A

infixl 10 ◌>>=◌
abbrev pub ◌>>=◌ {ℓ κ} : {A : Type ℓ} {B : Type κ} → Result A → (A → Result B) → Result B
ok a >>= f = f a
err e >>= f = err e

abbrev pub done : Result (Unit {0})
done = ok tt

pub Result-cases {ℓ} :
    {A : Type ℓ} (r : Result A) → ((a : A) × (r ≡ ok a)) ⊎ ((e : Error) × (r ≡ err e))
Result-cases (ok a) = inl (a, refl)
Result-cases (err e) = inr (e, refl)
