-- ===== src/TopK/Results.antt =====
-- Results: the nearest of all candidates, from the nearest on.
use lumenvec.Base.{
  ℕ, ◌+◌, ◌≤◌, ◌<◌, ◌≡◌, refl, ap, ◌∙◌, ◌⊎◌, Bool, true, [], ◌∷◌, length, arith, inl, inr, All, map,
}
use lumenvec.Base.Arrays.{count}
use lumenvec.TopK.{SearchResult, key, TopK, IsSorted, Sorting, with_root, results}
use lumenvec.TopK.Order.{Items, root_greatest}
use lumenvec.TopK.Nearest.{Nearest, beyond, bounded-none_beyond, farther_still}

module _ {D : Type 0} (rank : D → ℕ) where
  -- `shown` are the `k` nearest of the candidates, or all of them where there are fewer, in order,
  -- under the roots of their squared distances; none of the others is nearer.
  pub record IsNearest (sqrt : D → D) (k : ℕ) (candidates shown : Items rank) : Type 0 where
    pub picked : Items rank
    pub others : Items rank
    pub rooted : shown ≡ map (with_root rank sqrt) picked
    pub bag : (p : SearchResult D → Bool) → count p picked + count p others ≡ count p candidates
    pub sorted : IsSorted rank picked
    pub size : length picked ≤ k
    pub full : length picked < k → others ≡ []
    pub nearest : All (λ r. All (λ s. rank r.distance ≤ rank s.distance) others) picked

  count-all : (h : Items rank) → count (λ r. true) h ≡ length h
  count-all [] = refl
  count-all (r ∷ h) = omega (arith, count-all h)

  none_nearer :
      (m : ℕ) (others h : Items rank)
      → count (beyond rank m) h ≡ 0
      → All (λ s. m ≤ rank s.distance) others
      → All (λ r. All (λ s. rank r.distance ≤ rank s.distance) others) h
  none_nearer m others [] e far = tt
  none_nearer m others (r ∷ h) e far = (
    farther_still rank (rank r.distance) m others (ground arith) far,
    none_nearer m others h (ground arith) far,
  )

  list_cases : (h : Items rank) → (h ≡ []) ⊎ ((r : SearchResult D) × (t : Items rank) × (h ≡ r ∷ t))
  list_cases [] = inl refl
  list_cases (r ∷ t) = inr (r, t, refl)

  pub results-IsNearest :
      (so : Sorting rank) (sqrt : D → D) (k : ℕ) (candidates : Items rank) (a : TopK rank)
      → Nearest rank k candidates a
      → IsNearest sqrt k candidates (results rank so sqrt a)
  unfolding results
  results-IsNearest so sqrt k candidates a h = elim (list_cases a.items) [
    | inl empty ↦
        rw (empty, results)
          (record {
            picked = [];
            others = h.rest;
            rooted = refl;
            bag = λ p.
                let none_held : count p a.items ≡ 0 = ap (count p) empty in omega (arith, h.bag p);
            sorted = tt;
            size = omega arith;
            full = λ q. h.full (ground (arith, ap length empty));
            nearest = tt;
          })
    | inr (r, t, held) ↦
        let m = key rank a.items 0 in
        let picked = so.sort a.items in
        let size : length picked ≡ length a.items =
          omega (arith, count-all picked, count-all a.items, so.count-sort (λ r. true) a.items) in
        let none_beyond =
          bounded-none_beyond rank m a.items (λ i q. root_greatest rank a.items i h.ordered q) in
        rw (held, results)
          (record {
            picked = picked;
            others = h.rest;
            rooted = refl;
            bag = λ p. omega (arith, so.count-sort p a.items, h.bag p);
            sorted = so.sort-IsSorted a.items;
            size = omega (arith, size, h.size);
            full = λ q. h.full (omega (arith, size));
            nearest =
                none_nearer m h.rest picked (so.count-sort (beyond rank m) a.items ∙ none_beyond)
                  h.farther;
          })
  ]
