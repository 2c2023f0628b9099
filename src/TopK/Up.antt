-- ===== src/TopK/Up.antt =====
-- upSearchResultMax turns a heap with one result too low in it into a heap.
use lumenvec.Base.{
  ℕ, zero, suc, ◌≤◌, ◌<◌, ◌≡◌, ◌≢◌, refl, ◌∙◌, length, nat_eq, leb, arith, Bool-cases, inl, inr,
}
use lumenvec.Base.Arrays.{swap, count-swap, length-swap}
use lumenvec.TopK.{parent, key, up}
use lumenvec.TopK.Order.{Items, Heaped, key-swap}

module _ {D : Type 0} (rank : D → ℕ) where
  -- Every result but the one at `j` is at most as far as its parent, and those below `j` are at
  -- most as far as the one above it.
  pub record IsLow (j : ℕ) (h : Items rank) : Type 0 where
    pub inside : j < length h
    pub others : (c : ℕ) → 0 < c → c < length h → c ≢ j → key rank h c ≤ key rank h (parent c)
    pub across :
        (c : ℕ) → 0 < c → c < length h → parent c ≡ j → 0 < j → key rank h c ≤ key rank h (parent j)

  swap-IsLow :
      (h : Items rank) (j : ℕ)
      → IsLow j h
      → 0 < j
      → key rank h (parent j) < key rank h j
      → IsLow (parent j) (swap h (parent j) j)
  swap-IsLow h j v above far =
      let i = parent j in
      let hi : i < length h = omega (arith, v.inside) in
      let at = key-swap rank h i j hi v.inside in
      let size = length-swap h i j hi v.inside in
      record {
        inside = omega arith;
        others = λ c p q other. ground (arith, size, at c, at (parent c), v.others c, v.across c);
        across = λ c p q below r.
            ground (arith, size, at c, at (parent i), v.others c, v.others i, v.across c);
      }

  pub up-Heaped :
      (fuel j : ℕ) (h : Items rank) → j < fuel → IsLow j h → Heaped rank h (up rank fuel h j)
  unfolding up
  up-Heaped zero j h enough v = absurd (omega arith)
  up-Heaped (suc fuel) j h enough v = elim (Bool-cases (nat_eq (parent j) j)) [
    | inl root ↦
        rw (root, up)
          (record {
            ordered = λ c p q. v.others c p q (ground arith);
            size = refl;
            same = λ p. refl;
          })
    | inr inner ↦ elim (Bool-cases (leb (key rank h j) (key rank h (parent j)))) [
      | inl near ↦
          rw (inner, up, near)
            (record {
              ordered = λ c p q. ground (arith, v.others c);
              size = refl;
              same = λ p. refl;
            })
      | inr far ↦
          let i = parent j in
          let low = swap-IsLow h j v (ground arith) (ground arith) in
          let rest = up-Heaped fuel i (swap h i j) (ground arith) low in
          rw (inner, up, far)
            (record {
              ordered = rest.ordered;
              size = rest.size ∙ length-swap h i j (ground arith) v.inside;
              same = λ p. rest.same p ∙ count-swap p h i j (ground arith) v.inside;
            })
    ]
  ]
