-- ===== src/Distance.antt =====
-- The squared distances of internal/vector/distance.go. float64 and float32 arithmetic is a
-- parameter; an index out of range, where Go panics, is none.
pub mod Blocks
use lumenvec.Base.{
  ℕ, ◌≡◌, Bool, true, List, [], ◌∷◌, Option, none, some, length, nat_eq, if◌then◌else◌,
}
use lumenvec.Numeric.{Floats}

-- What the distances use of Go's floats. `rank` is the place of a float64 that is not NaN in
-- the order of `<`, which decides `<` and `<=` on such values.
pub record Arithmetic (fl : Floats) : Type 0 where
  pub zero64 : fl.F64
  pub nan : fl.F64
  pub is_nan : fl.F64 → Bool
  pub add64 : fl.F64 → fl.F64 → fl.F64
  pub mul64 : fl.F64 → fl.F64 → fl.F64
  pub sub32 : fl.F32 → fl.F32 → fl.F32
  pub sqrt : fl.F64 → fl.F64
  pub rank : fl.F64 → ℕ
  pub is_nan-nan : is_nan nan ≡ true

-- Four results, where none of them panics.
abbrev pub all_four {ℓ} :
    {A : Type ℓ} → Option A → Option A → Option A → Option A → Option (A × A × A × A)
all_four (some a) (some b) (some c) (some d) = some (a, b, c, d)
all_four _ _ _ _ = none

module _ (fl : Floats) (ar : Arithmetic fl) where
  open fl use {F64, F32, to64}
  open ar use {zero64, nan, add64, mul64, sub32}

  -- diff * diff
  abbrev pub square : F32 → F32 → F64
  square a b = mul64 (to64 (sub32 a b)) (to64 (sub32 a b))

  -- One round of the loop over four places, and of the loop over one.
  abbrev pub add_four : F64 → F32 → F32 → F32 → F32 → F32 → F32 → F32 → F32 → F64
  add_four sum a0 a1 a2 a3 b0 b1 b2 b3 =
      add64 sum (add64 (add64 (add64 (square a0 b0) (square a1 b1)) (square a2 b2)) (square a3 b3))

  unfoldable pub sum_tail : F64 → List F32 → List F32 → Option F64
  sum_tail sum [] bs = some sum
  sum_tail sum (a ∷ xs) [] = none
  sum_tail sum (a ∷ xs) (b ∷ bs) = sum_tail (add64 sum (square a b)) xs bs

  unfoldable pub sum_blocks : F64 → List F32 → List F32 → Option F64
  sum_blocks sum (a0 ∷ a1 ∷ a2 ∷ a3 ∷ xs) (b0 ∷ b1 ∷ b2 ∷ b3 ∷ bs) =
      sum_blocks (add_four sum a0 a1 a2 a3 b0 b1 b2 b3) xs bs
  sum_blocks sum (a0 ∷ a1 ∷ a2 ∷ a3 ∷ xs) bs = none
  sum_blocks sum xs bs = sum_tail sum xs bs

  unfoldable pub squared_distance32_same_len : List F32 → List F32 → Option F64
  squared_distance32_same_len a b = sum_blocks zero64 a b

  unfoldable pub squared_distance32 : List F32 → List F32 → Option F64
  squared_distance32 a b =
      if nat_eq (length a) (length b) then squared_distance32_same_len a b else some nan

  unfoldable pub advance_four : F64 → List F32 → F32 → F32 → F32 → F32 → Option (F64 × List F32)
  advance_four sum (a0 ∷ a1 ∷ a2 ∷ a3 ∷ xs) b0 b1 b2 b3 =
      some (add_four sum a0 a1 a2 a3 b0 b1 b2 b3, xs)
  advance_four sum _ b0 b1 b2 b3 = none

  unfoldable pub advance_one : F64 → List F32 → F32 → Option (F64 × List F32)
  advance_one sum [] b = none
  advance_one sum (a ∷ xs) b = some (add64 sum (square a b), xs)

  -- The four running sums of SquaredEuclideanDistance32x4SameLen, each with what is left of its query.
  abbrev pub Lane : Type 0
  Lane = F64 × List F32

  unfoldable pub four_tails : Lane → Lane → Lane → Lane → List F32 → Option (F64 × F64 × F64 × F64)
  four_tails p q r s [] = some (p.0, q.0, r.0, s.0)
  four_tails p q r s (b ∷ bs) =
      elim (all_four (advance_one p.0 p.1 b) (advance_one q.0 q.1 b) (advance_one r.0 r.1 b)
        (advance_one s.0 s.1 b)) [ none ↦ none | some (p', q', r', s') ↦ four_tails p' q' r' s' bs ]

  unfoldable pub four_blocks : Lane → Lane → Lane → Lane → List F32 → Option (F64 × F64 × F64 × F64)
  four_blocks p q r s (b0 ∷ b1 ∷ b2 ∷ b3 ∷ bs) =
      elim (all_four (advance_four p.0 p.1 b0 b1 b2 b3) (advance_four q.0 q.1 b0 b1 b2 b3)
        (advance_four r.0 r.1 b0 b1 b2 b3) (advance_four s.0 s.1 b0 b1 b2 b3)) [
          | none ↦ none
          | some (p', q', r', s') ↦ four_blocks p' q' r' s' bs
        ]
  four_blocks p q r s bs = four_tails p q r s bs

  unfoldable pub squared_distance32x4_same_len :
      List F32 → List F32 → List F32 → List F32 → List F32 → Option (F64 × F64 × F64 × F64)
  squared_distance32x4_same_len a0 a1 a2 a3 b =
      four_blocks (zero64, a0) (zero64, a1) (zero64, a2) (zero64, a3) b
