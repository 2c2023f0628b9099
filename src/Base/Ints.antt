-- ===== src/Base/Ints.antt =====
-- Go's signed `int` where the code tests its sign; `negsuc n` is -(n + 1).
use Prim.Native.Nat.{ℕ, zero, suc, ◌+◌, ◌-◌}
use mathlib.Core.Bool.{Bool, true, false}
use lumenvec.Base.Tests.{ltb, leb, if◌then◌else◌}

pub data ℤ : Type 0 where
  pos : ℕ → ℤ
  negsuc : ℕ → ℤ

-- v <= 0
abbrev pub is_nonpos : ℤ → Bool
is_nonpos (pos zero) = true
is_nonpos (pos (suc n)) = false
is_nonpos (negsuc n) = true

-- v < 0
abbrev pub is_neg : ℤ → Bool
is_neg (pos n) = false
is_neg (negsuc n) = true

-- The value, or 0 where it is negative.
abbrev pub to_ℕ : ℤ → ℕ
to_ℕ (pos n) = n
to_ℕ (negsuc n) = 0

-- v > b
abbrev pub is_above : ℤ → ℕ → Bool
is_above (pos n) b = ltb b n
is_above (negsuc n) b = false

-- v < b
abbrev pub is_below : ℤ → ℕ → Bool
is_below (pos n) b = ltb n b
is_below (negsuc n) b = true

-- v + n and v - n
abbrev pub add_ℤ : ℤ → ℕ → ℤ
add_ℤ (pos a) n = pos (a + n)
add_ℤ (negsuc a) n = if ltb a n then pos (n - suc a) else negsuc (a - n)

abbrev pub sub_ℤ : ℤ → ℕ → ℤ
sub_ℤ (pos a) n = if leb n a then pos (a - n) else negsuc (n - suc a)
sub_ℤ (negsuc a) n = negsuc (a + n)

-- The value where it is positive, else a default.
abbrev pub positive_or : ℤ → ℕ → ℕ
positive_or (pos zero) d = d
positive_or (pos (suc n)) d = suc n
positive_or (negsuc n) d = d
