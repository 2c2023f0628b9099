-- ===== src/Numeric.antt =====
-- Go's float64 and float32 as a parameter: the types, the two conversions, the bit patterns of
-- package math, and the values that encoding/json accepts. Conversion to float64 is exact, so it
-- is undone by the conversion back; a pattern read back gives the value it came from (the many
-- NaN patterns stand for one value here).
use lumenvec.Base.{ℕ, suc, ◌^◌, ◌<◌, ◌≡◌, refl, ap, List, [], ◌∷◌, Text, length}

pub record Floats : Type 1 where
  pub F64 : Type 0
  pub F32 : Type 0
  pub to32 : F64 → F32
  pub to64 : F32 → F64
  pub bits32 : F32 → ℕ
  pub from_bits32 : ℕ → F32
  pub bits64 : F64 → ℕ
  pub from_bits64 : ℕ → F64
  pub to32-to64 : (x : F32) → to32 (to64 x) ≡ x
  pub bits32-lt : (x : F32) → bits32 x < 2 ^ 32
  pub bits64-lt : (x : F64) → bits64 x < 2 ^ 64
  pub from_bits32-bits32 : (x : F32) → from_bits32 (bits32 x) ≡ x
  pub from_bits64-bits64 : (x : F64) → from_bits64 (bits64 x) ≡ x

-- index.Vector
pub record Vector (F : Type 0) : Type 0 where
  pub id : Text
  pub values : List F

module _ (fl : Floats) where
  open fl use {F64, F32, to32, to64, to32-to64}

  -- vector.ToFloat32
  unfoldable pub to_float32 : List F64 → List F32
  to_float32 [] = []
  to_float32 (x ∷ xs) = to32 x ∷ to_float32 xs

  -- vector.ToFloat64
  unfoldable pub to_float64 : List F32 → List F64
  to_float64 [] = []
  to_float64 (x ∷ xs) = to64 x ∷ to_float64 xs

  pub to_float32-to_float64 : (xs : List F32) → to_float32 (to_float64 xs) ≡ xs
  unfolding to_float32 to_float64
  to_float32-to_float64 [] = refl
  to_float32-to_float64 (x ∷ xs) = λ i. to32-to64 x i ∷ to_float32-to_float64 xs i

  pub length-to_float32 : (xs : List F64) → length (to_float32 xs) ≡ length xs
  unfolding to_float32
  length-to_float32 [] = refl
  length-to_float32 (x ∷ xs) = ap suc (length-to_float32 xs)

  pub length-to_float64 : (xs : List F32) → length (to_float64 xs) ≡ length xs
  unfolding to_float64
  length-to_float64 [] = refl
  length-to_float64 (x ∷ xs) = ap suc (length-to_float64 xs)
