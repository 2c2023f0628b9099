-- ===== src/Ann/Select/Prefix.antt =====
-- What selectNearest brings to the front.
use lumenvec.Base.{
  ℕ, zero, suc, ◌+◌, ◌-◌, ◌≤◌, ◌≡◌, refl, ap, ◌∙◌, Bool, List, [], ◌∷◌, length, take, map, arith,
  All,
}
use lumenvec.Base.Arrays.{count, swap}
use lumenvec.Base.Bags.{Same, Same-refl, Same-trans, swap-Same}
use lumenvec.Ann.{DistancePair}
use lumenvec.Ann.Select.{best_from, select_from, select_nearest, nearest_first, at_most}

module _ {A : Type 0} where
  count-take : (p : A → Bool) (k : ℕ) (xs : List A) → count p (take k xs) ≤ count p xs
  count-take p zero xs = omega arith
  count-take p (suc k) [] = omega arith
  count-take p (suc k) (x ∷ xs) = omega (arith, count-take p k xs)

  All-take : (P : A → Type 0) (k : ℕ) (xs : List A) → All P xs → All P (take k xs)
  All-take P zero xs h = tt
  All-take P (suc k) [] h = tt
  All-take P (suc k) (x ∷ xs) (first, h) = (first, All-take P k xs h)

  pub length-take : (k : ℕ) (xs : List A) → k ≤ length xs → length (take k xs) ≡ k
  length-take zero xs h = refl
  length-take (suc k) [] h = absurd (omega arith)
  length-take (suc k) (x ∷ xs) h = omega (arith, length-take k xs)

  take-all : (k : ℕ) (xs : List A) → length xs ≤ k → take k xs ≡ xs
  take-all zero [] h = refl
  take-all zero (x ∷ xs) h = absurd (omega arith)
  take-all (suc k) [] h = refl
  take-all (suc k) (x ∷ xs) h = ap (◌∷◌ x) (take-all k xs (omega arith))

module _ {D : Type 0} (lt : D → D → Bool) where
  pub select_from-Same :
      (rounds : ℕ) (xs : List (DistancePair D)) (i : ℕ) → Same xs (select_from lt rounds xs i)
  unfolding select_from
  select_from-Same zero xs i = Same-refl xs
  select_from-Same (suc rounds) xs i =
      let best = best_from lt (length xs - (i + 1)) xs i (i + 1) in
      Same-trans (swap-Same xs i best) (select_from-Same rounds (swap xs i best) (i + 1))

  -- `chosen` are some of the candidates: at most `k`, and all where there are no more.
  pub record Chosen (k : ℕ) (candidates chosen : List (DistancePair D)) : Type 1 where
    pub size : length chosen ≡ at_most lt k (length candidates)
    pub bag : (p : DistancePair D → Bool) → count p chosen ≤ count p candidates
    pub all : (P : DistancePair D → Type 0) → All P candidates → All P chosen
    pub whole :
        length candidates ≤ k → (p : DistancePair D → Bool) → count p chosen ≡ count p candidates

  pub nearest_first-Chosen :
      (xs : List (DistancePair D)) (k : ℕ) → Chosen k xs (nearest_first lt xs k)
  unfolding nearest_first select_nearest
  nearest_first-Chosen xs k =
      let k' = at_most lt k (length xs) in
      let same = select_from-Same k' xs 0 in
      record {
        size = length-take k' (select_nearest lt xs k') (ground (arith, same.size));
        bag = λ p. omega (arith, same.bag p, count-take p k' (select_nearest lt xs k'));
        all = λ P h. All-take P k' (select_nearest lt xs k') (same.all P h);
        whole = λ enough p.
            ap (count p) (take-all k' (select_nearest lt xs k') (ground (arith, same.size)))
            ∙ same.bag p;
      }

  pub count-map_id :
      (p : ℕ → Bool) (xs : List (DistancePair D))
      → count p (map (λ c. c.id) xs) ≡ count (λ c. p c.id) xs
  count-map_id p [] = refl
  count-map_id p (x ∷ xs) = omega (arith, count-map_id p xs)
