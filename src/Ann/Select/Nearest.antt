-- ===== src/Ann/Select/Nearest.antt =====
-- The first k candidates as the nearest ones.
use lumenvec.Base.{
  ℕ, zero, suc, ◌≤◌, ◌<◌, ◌≡◌, refl, Bool, true, List, [], ◌∷◌, some, length, take, arith, All, ltb,
  Bool-cases, inl, inr,
}
use lumenvec.Base.Arrays.{get_elem?, count}
use lumenvec.Base.Bags.{All-get, get_elem-lt}
use lumenvec.Ann.{DistancePair}
use lumenvec.Ann.Select.{select_nearest, nearest_first, at_most}
use lumenvec.Ann.Select.Prefix.{select_from-Same, length-take}
use lumenvec.Ann.Select.Sorted.{key, IsSortedTo, select_nearest-IsSortedTo}

module _ {A : Type 0} where
  get_elem-take : (k : ℕ) (xs : List A) (i : ℕ) → i < k → get_elem? (take k xs) i ≡ get_elem? xs i
  get_elem-take zero xs i h = absurd (omega arith)
  get_elem-take (suc k) [] i h = refl
  get_elem-take (suc k) (x ∷ xs) zero h = refl
  get_elem-take (suc k) (x ∷ xs) (suc i) h = get_elem-take k xs i (omega arith)

  -- What the first `k` miss stands behind them.
  count-beyond :
      (p : A → Bool) (k : ℕ) (xs : List A)
      → count p (take k xs) < count p xs
      → (i : ℕ) × (x : A) × (k ≤ i) × (get_elem? xs i ≡ some x) × (p x ≡ true)
  count-beyond p k [] h = absurd (omega arith)
  count-beyond p zero (x ∷ xs) h = elim (Bool-cases (p x)) [
    | inl e ↦ (0, x, omega arith, refl, e)
    | inr e ↦
        let (i, y, _, at, holds) = count-beyond p zero xs (ground (arith, h, e)) in
        (suc i, y, omega arith, at, holds)
  ]
  count-beyond p (suc k) (x ∷ xs) h =
      let (i, y, far, at, holds) = count-beyond p k xs (omega (arith, h)) in
      (suc i, y, omega (arith, far), at, holds)

module _ {D : Type 0} (rank : D → ℕ) where
  abbrev pub IsWithin : ℕ → DistancePair D → Type 0
  IsWithin bound c = rank c.distance ≤ bound

  keys-All :
      (bound : ℕ) (xs : List (DistancePair D))
      → ((i : ℕ) → i < length xs → key rank xs i ≤ bound)
      → All (IsWithin bound) xs
  keys-All bound [] h = tt
  keys-All bound (x ∷ xs) h =
      (h 0 (omega arith), keys-All bound xs (λ i inside. h (suc i) (omega arith)))

  -- `chosen` are `k` nearest of the candidates, nearest first: one that they leave out is at least
  -- as far as each of them, and then they are `k`.
  pub record AreNearest (Q : DistancePair D → Type 0) (k : ℕ)
      (candidates chosen : List (DistancePair D)) : Type 0 where
    pub sorted : IsSortedTo rank (length chosen) chosen
    pub left_out :
        (p : DistancePair D → Bool)
        → count p chosen < count p candidates
        → (c : DistancePair D) × (p c ≡ true)
          × Q c
          × (length chosen ≡ k)
          × All (IsWithin (rank c.distance)) chosen

  module _ (lt : D → D → Bool) (Q : DistancePair D → Type 0) (Proper : D → Type 0)
      (ordered : (x y : D) → Proper x → Proper y → lt x y ≡ ltb (rank x) (rank y))
      (proper : (c : DistancePair D) → Q c → Proper c.distance) where
    All-proper : (xs : List (DistancePair D)) → All Q xs → All (λ c. Proper c.distance) xs
    All-proper [] h = tt
    All-proper (x ∷ xs) (first, h) = (proper x first, All-proper xs h)

    pub nearest_first-AreNearest :
        (xs : List (DistancePair D)) (k : ℕ) → All Q xs → AreNearest Q k xs (nearest_first lt xs k)
    unfolding nearest_first select_nearest
    nearest_first-AreNearest xs k all =
        let n = at_most lt k (length xs) in
        let ys = select_nearest lt xs n in
        let same = select_from-Same lt n xs 0 in
        let few : n ≤ length xs = ground arith in
        let size = length-take n ys (omega (arith, few, same.size)) in
        let sorted =
          select_nearest-IsSortedTo rank lt Proper ordered xs n (All-proper xs all) few in
        let same_key : (i : ℕ) → i < n → key rank (take n ys) i ≡ key rank ys i =
          λ i inside. rw (key, get_elem-take n ys i inside) refl in
        record {
          sorted = λ a c before after inside.
              rw (same_key a (omega (arith, size)), same_key c (omega (arith, size)))
                (sorted a c (omega (arith, size)) after (omega (arith, size, same.size, few)));
          left_out = λ p fewer.
              let (i, c, far, at, holds) = count-beyond p n ys (omega (arith, fewer, same.bag p)) in
              let inside = get_elem-lt ys i at in
              let here : key rank ys i ≡ rank c.distance = rw (key, at) refl in
              (
                c,
                holds,
                All-get Q ys i (same.all Q all) at,
                ground (arith, size, far, inside, same.size),
                keys-All (rank c.distance) (take n ys) (λ a near.
                    rw (same_key a (omega (arith, size))) (
                      omega (
                        arith,
                        here,
                        size,
                        far,
                        sorted a i (omega (arith, size)) (omega (arith, size, far)) inside,
                      ))),
              );
        }
