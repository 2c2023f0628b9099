-- ===== src/Base/Arrays.antt =====
-- Slices indexed by native numbers, and what a write keeps. Two lists are the same bag where each
-- test holds as often on the one as on the other.
use Prim.Native.Nat.{ℕ, zero, suc, ◌+◌, ◌<◌}
use mathlib.Core.Path.{◌≡◌, refl, ap}
use mathlib.Core.Bool.{Bool}
use mathlib.Core.List.{List, [], ◌∷◌, ◌++◌}
use mathlib.Core.Option.{Option, none, some}
use native.Mathlib.Omega.{arith}
use lumenvec.Base.Tests.{if◌then◌else◌, nat_eq}
use lumenvec.Base.Lists.{length}

module _ {ℓ} {A : Type ℓ} where
  abbrev pub get_elem? : List A → ℕ → Option A
  get_elem? [] i = none
  get_elem? (x ∷ xs) zero = some x
  get_elem? (x ∷ xs) (suc i) = get_elem? xs i

  abbrev pub set : List A → ℕ → A → List A
  set [] i v = []
  set (x ∷ xs) zero v = v ∷ xs
  set (x ∷ xs) (suc i) v = x ∷ set xs i v

  -- xs[i], xs[j] = xs[j], xs[i], for indices in range
  unfoldable pub swap : List A → ℕ → ℕ → List A
  swap xs i j = elim (get_elem? xs i) [
    | none ↦ xs
    | some x ↦ elim (get_elem? xs j) [ none ↦ xs | some y ↦ set (set xs i y) j x ]
  ]

  abbrev pub count : (A → Bool) → List A → ℕ
  count p [] = 0
  count p (x ∷ xs) = (if p x then 1 else 0) + count p xs

  pub count-append : (p : A → Bool) (xs ys : List A) → count p (xs ++ ys) ≡ count p xs + count p ys
  count-append p [] ys = omega arith
  count-append p (x ∷ xs) ys = omega (arith, count-append p xs ys)

  pub length-set : (xs : List A) (i : ℕ) (v : A) → length (set xs i v) ≡ length xs
  length-set [] i v = refl
  length-set (x ∷ xs) zero v = refl
  length-set (x ∷ xs) (suc i) v = ap suc (length-set xs i v)

  pub get_elem-some : (xs : List A) (i : ℕ) → i < length xs → (x : A) × (get_elem? xs i ≡ some x)
  get_elem-some [] i h = absurd (omega arith)
  get_elem-some (x ∷ xs) zero h = (x, refl)
  get_elem-some (x ∷ xs) (suc i) h = get_elem-some xs i (omega arith)

  pub get_elem-set :
      (xs : List A) (i j : ℕ) (v : A)
      → i < length xs
      → get_elem? (set xs i v) j ≡ (if nat_eq i j then some v else get_elem? xs j)
  get_elem-set [] i j v h = absurd (omega arith)
  get_elem-set (x ∷ xs) zero zero v h = refl
  get_elem-set (x ∷ xs) zero (suc j) v h = ground arith
  get_elem-set (x ∷ xs) (suc i) zero v h = ground arith
  get_elem-set (x ∷ xs) (suc i) (suc j) v h = ground (arith, get_elem-set xs i j v)

  pub count-set :
      (p : A → Bool) (xs : List A) (i : ℕ) (x v : A)
      → get_elem? xs i ≡ some x
      → count p (set xs i v) + (if p x then 1 else 0) ≡ count p xs + (if p v then 1 else 0)
  count-set p [] i x v h = ground arith
  count-set p (y ∷ ys) zero x v h = ground arith
  count-set p (y ∷ ys) (suc i) x v h = omega (arith, count-set p ys i x v h)

  pub swap-set :
      (xs : List A) (i j : ℕ) (x y : A)
      → get_elem? xs i ≡ some x
      → get_elem? xs j ≡ some y
      → swap xs i j ≡ set (set xs i y) j x
  unfolding swap
  swap-set xs i j x y at_i at_j = rw (at_i, swap, at_j) refl

  pub count-swap :
      (p : A → Bool) (xs : List A) (i j : ℕ)
      → i < length xs
      → j < length xs
      → count p (swap xs i j) ≡ count p xs
  count-swap p xs i j hi hj =
      let (x, at_i) = get_elem-some xs i hi in
      let (y, at_j) = get_elem-some xs j hj in
      let moved : get_elem? (set xs i y) j ≡ some y = ground (arith, get_elem-set xs i j y hi) in
      rw (swap-set xs i j x y at_i at_j)
        (omega (arith, count-set p (set xs i y) j y x moved, count-set p xs i x y at_i))

  pub length-swap :
      (xs : List A) (i j : ℕ) → i < length xs → j < length xs → length (swap xs i j) ≡ length xs
  length-swap xs i j hi hj =
      let (x, at_i) = get_elem-some xs i hi in
      let (y, at_j) = get_elem-some xs j hj in
      rw (swap-set xs i j x y at_i at_j)
        (omega (arith, length-set (set xs i y) j x, length-set xs i y))
