-- ===== src/TopK/Down.antt =====
-- downSearchResultMax turns a heap with one result too high in it into a heap.
use lumenvec.Base.{
  ℕ, zero, suc, ◌+◌, ◌-◌, ◌*◌, ◌≤◌, ◌<◌, ◌≡◌, ◌≢◌, ◌⊎◌, refl, ◌∙◌, length, leb, arith, Bool-cases,
  inl, inr,
}
use lumenvec.Base.Arrays.{swap, count-swap, length-swap}
use lumenvec.TopK.{parent, key, far_child, down}
use lumenvec.TopK.Order.{Items, Heaped, key-swap}

module _ {D : Type 0} (rank : D → ℕ) where
  -- Every result but those below `i` is at most as far as its parent, and those below `i` are at
  -- most as far as the one above it.
  pub record IsHigh (i : ℕ) (h : Items rank) : Type 0 where
    pub others :
        (c : ℕ) → 0 < c → c < length h → parent c ≢ i → key rank h c ≤ key rank h (parent c)
    pub across :
        (c : ℕ) → 0 < c → c < length h → parent c ≡ i → 0 < i → key rank h c ≤ key rank h (parent i)

  record IsFarChild (h : Items rank) (i m : ℕ) : Type 0 where
    inside : m < length h
    below : (m ≡ 2 * i + 1) ⊎ (m ≡ 2 * i + 2)
    farthest : (c : ℕ) → 0 < c → c < length h → parent c ≡ i → key rank h c ≤ key rank h m

  far_child-IsFarChild :
      (h : Items rank) (i : ℕ) → 2 * i + 1 < length h → IsFarChild h i (far_child rank h i)
  far_child-IsFarChild h i inner = record {
    inside = ground arith;
    below = ground arith;
    farthest = λ c p q e.
        let which : (c ≡ 2 * i + 1) ⊎ (c ≡ 2 * i + 1 + 1) = omega arith in
        elim which [ inl left ↦ rw left (ground arith) | inr right ↦ rw right (ground arith) ];
  }

  swap-IsHigh :
      (h : Items rank) (i m : ℕ)
      → IsHigh i h
      → IsFarChild h i m
      → key rank h i < key rank h m
      → IsHigh m (swap h i m)
  swap-IsHigh h i m v child far =
      let hi : i < length h = omega (arith, child.inside, child.below) in
      let at = key-swap rank h i m hi child.inside in
      let size = length-swap h i m hi child.inside in
      record {
        others = λ c p q other. ground (
          arith,
          size,
          at c,
          at (parent c),
          v.others c,
          v.across m,
          child.farthest c,
          child.below,
        );
        across = λ c p q e r. ground (arith, size, at c, at (parent m), v.others c, child.below);
      }

  pub down-Heaped :
      (fuel i : ℕ) (h : Items rank)
      → length h - i < fuel
      → IsHigh i h
      → Heaped rank h (down rank fuel h i)
  unfolding down
  down-Heaped zero i h enough v = absurd (omega arith)
  down-Heaped (suc fuel) i h enough v = elim (Bool-cases (leb (length h) (2 * i + 1))) [
    | inl leaf ↦
        rw (leaf, down)
          (record {
            ordered = λ c p q. v.others c p q (ground arith);
            size = refl;
            same = λ p. refl;
          })
    | inr inner ↦
        let m = far_child rank h i in
        let child = far_child-IsFarChild h i (ground arith) in
        elim (Bool-cases (leb (key rank h m) (key rank h i))) [
          | inl near ↦
              rw (inner, down, near)
                (record {
                  ordered = λ c p q. ground (arith, v.others c, child.farthest c);
                  size = refl;
                  same = λ p. refl;
                })
          | inr far ↦
              let hi : i < length h = omega (arith, child.inside, child.below) in
              let size = length-swap h i m hi child.inside in
              let rest =
                down-Heaped fuel m (swap h i m) (omega (arith, size, child.inside, child.below))
                  (swap-IsHigh h i m v child (ground arith)) in
              rw (inner, down, far)
                (record {
                  ordered = rest.ordered;
                  size = rest.size ∙ size;
                  same = λ p. rest.same p ∙ count-swap p h i m hi child.inside;
                })
        ]
  ]
