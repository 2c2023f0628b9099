-- ===== src/Base/Bags.antt =====
-- Lists that hold the same items in another order, as the sorting loops leave them.
use Prim.Native.Nat.{ℕ, zero, suc, ◌<◌}
use mathlib.Core.Path.{◌≡◌, refl, sym, ap, ◌∙◌, subst}
use mathlib.Core.Logic.{◌⊎◌, inl, inr}
use mathlib.Core.Bool.{Bool, false}
use mathlib.Core.List.{List, [], ◌∷◌, ◌++◌}
use mathlib.Core.Option.{Option, none, some}
use native.Mathlib.Omega.{arith}
use lumenvec.Base.Tests.{if◌then◌else◌, nat_eq, nat_eq_iff, Bool-cases, Option-cases}
use lumenvec.Base.Lists.{length, All}
use lumenvec.Base.Arrays.{
  get_elem?, set, swap, count, get_elem-set, swap-set, count-swap, length-swap,
}

module _ {A : Type 0} where
  pub some_injective : {x y : A} → some x ≡ some y → x ≡ y
  some_injective h = cc

  pub get_elem-lt : (xs : List A) (i : ℕ) {x : A} → get_elem? xs i ≡ some x → i < length xs
  get_elem-lt [] i h = absurd (ground arith)
  get_elem-lt (y ∷ xs) zero h = omega arith
  get_elem-lt (y ∷ xs) (suc i) h = omega (arith, get_elem-lt xs i h)

  pub All-get :
      (P : A → Type 0) (xs : List A) (i : ℕ) {x : A} → All P xs → get_elem? xs i ≡ some x → P x
  All-get P [] i all h = absurd (ground arith)
  All-get P (y ∷ xs) zero (first, all) h = subst (Kept P) h first
    where
      Kept : (A → Type 0) → Option A → Type 0
      Kept P none = Unit
      Kept P (some x) = P x
  All-get P (y ∷ xs) (suc i) (first, all) h = All-get P xs i all h

  pub All-set : (P : A → Type 0) (xs : List A) (i : ℕ) (v : A) → All P xs → P v → All P (set xs i v)
  All-set P [] i v all h = tt
  All-set P (x ∷ xs) zero v (first, all) h = (h, all)
  All-set P (x ∷ xs) (suc i) v (first, all) h = (first, All-set P xs i v all h)

  pub All-append : (P : A → Type 0) (xs ys : List A) → All P xs → All P ys → All P (xs ++ ys)
  All-append P [] ys h k = k
  All-append P (x ∷ xs) ys (first, h) k = (first, All-append P xs ys h k)

  pub record Same (old new : List A) : Type 1 where
    pub size : length new ≡ length old
    pub bag : (p : A → Bool) → count p new ≡ count p old
    pub all : (P : A → Type 0) → All P old → All P new

  pub Same-refl : (xs : List A) → Same xs xs
  Same-refl xs = record { size = refl; bag = λ p. refl; all = λ P h. h }

  pub Same-trans : {xs ys zs : List A} → Same xs ys → Same ys zs → Same xs zs
  Same-trans h k = record {
    size = k.size ∙ h.size;
    bag = λ p. k.bag p ∙ h.bag p;
    all = λ P a. k.all P (h.all P a);
  }

  -- Indices out of range, which the callers do not have, change nothing.
  pub swap-Same : (xs : List A) (i j : ℕ) → Same xs (swap xs i j)
  unfolding swap
  swap-Same xs i j = elim (Option-cases (get_elem? xs i)) [
    | inl out ↦ rw (out, swap) (Same-refl xs)
    | inr (x, at_i) ↦ elim (Option-cases (get_elem? xs j)) [
      | inl out ↦ rw (at_i, swap, out) (Same-refl xs)
      | inr (y, at_j) ↦ record {
        size = length-swap xs i j (get_elem-lt xs i at_i) (get_elem-lt xs j at_j);
        bag = λ p. count-swap p xs i j (get_elem-lt xs i at_i) (get_elem-lt xs j at_j);
        all = λ P h. rw (swap-set xs i j x y at_i at_j) (
            All-set P (set xs i y) j x (All-set P xs i y h (All-get P xs j h at_j))
              (All-get P xs i h at_i));
      }
    ]
  ]

  -- `P` holds of each item at its index.
  abbrev pub Each : (ℕ → A → Type 0) → List A → Type 0
  Each P xs = (i : ℕ) (x : A) → get_elem? xs i ≡ some x → P i x

  pub Each-set :
      (P : ℕ → A → Type 0) (xs : List A) (i : ℕ) (v : A)
      → i < length xs
      → ((j : ℕ) (x : A) → nat_eq i j ≡ false → get_elem? xs j ≡ some x → P j x)
      → P i v
      → Each P (set xs i v)
  Each-set P xs i v h others here j x at = elim (Bool-cases (nat_eq i j)) [
    | inl same ↦
        let now : some v ≡ some x = (rw same at (sym (get_elem-set xs i j v h))) ∙ at in
        subst (λ k. P k x) ((nat_eq_iff i j).0 same) (subst (P i) (some_injective now) here)
    | inr other ↦
        let before : get_elem? xs j ≡ some x = (rw other at (sym (get_elem-set xs i j v h))) ∙ at in
        others j x other before
  ]

  get_elem-append :
      (xs : List A) (v x : A) (i : ℕ)
      → get_elem? (xs ++ v ∷ []) i ≡ some x
      → (get_elem? xs i ≡ some x) ⊎ ((i ≡ length xs) × (v ≡ x))
  get_elem-append [] v x zero h = inr (refl, some_injective h)
  get_elem-append [] v x (suc i) h = absurd (ground arith)
  get_elem-append (y ∷ xs) v x zero h = inl h
  get_elem-append (y ∷ xs) v x (suc i) h = elim (get_elem-append xs v x i h) [
    | inl early ↦ inl early
    | inr (last, same) ↦ inr (ap suc last, same)
  ]

  pub Each-append :
      (P : ℕ → A → Type 0) (xs : List A) (v : A)
      → Each P xs
      → P (length xs) v
      → Each P (xs ++ v ∷ [])
  Each-append P xs v each last i x at = elim (get_elem-append xs v x i at) [
    | inl early ↦ each i x early
    | inr (end, same) ↦ subst (λ k. P k x) (sym end) (subst (P (length xs)) same last)
  ]

  -- The item after the last one.
  pub get_elem-concat :
      (xs : List A) (v : A) (i : ℕ)
      → get_elem? (xs ++ v ∷ []) i ≡ (if nat_eq i (length xs) then some v else get_elem? xs i)
  get_elem-concat [] v zero = refl
  get_elem-concat [] v (suc i) = ground arith
  get_elem-concat (x ∷ xs) v zero = ground arith
  get_elem-concat (x ∷ xs) v (suc i) = ground (arith, get_elem-concat xs v i)
