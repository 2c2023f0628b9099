-- ===== src/TopK/Order.antt =====
-- The order of the heap: each result is at most as far as its parent.
use lumenvec.Base.{ℕ, zero, suc, ◌≤◌, ◌<◌, ◌≡◌, Bool, List, length, nat_eq, arith, if◌then◌else◌}
use lumenvec.Base.Arrays.{set, swap, count, length-set, get_elem-some, get_elem-set, swap-set}
use lumenvec.TopK.{SearchResult, parent, key}

module _ {D : Type 0} (rank : D → ℕ) where
  abbrev pub Items : Type 0
  Items = List (SearchResult D)

  abbrev pub IsHeap : Items → Type 0
  IsHeap h = (c : ℕ) → 0 < c → c < length h → key rank h c ≤ key rank h (parent c)

  -- `new` is a heap with the results of `old`.
  pub record Heaped (old new : Items) : Type 0 where
    pub ordered : IsHeap new
    pub size : length new ≡ length old
    pub same : (p : SearchResult D → Bool) → count p new ≡ count p old

  module _ (h : Items) (i j : ℕ) (hi : i < length h) (hj : j < length h) where
    pub key-swap :
        (c : ℕ)
        → key rank (swap h i j) c
          ≡ (if nat_eq j c then key rank h i else if nat_eq i c then key rank h j else key rank h c)
    key-swap c =
        let (x, at_i) = get_elem-some h i hi in
        let (y, at_j) = get_elem-some h j hj in
        let size = length-set h i y in
        rw (swap-set h i j x y at_i at_j)
          (ground (arith, get_elem-set (set h i y) j c x (omega arith), get_elem-set h i c y hi))

  root_greatest_below :
      (bound : ℕ) (h : Items) (i : ℕ)
      → IsHeap h
      → i < bound
      → i < length h
      → key rank h i ≤ key rank h 0
  root_greatest_below zero h i ordered below inside = absurd (omega arith)
  root_greatest_below (suc bound) h i ordered below inside =
      ground (arith, ordered i, root_greatest_below bound h (parent i) ordered)

  pub root_greatest : (h : Items) (i : ℕ) → IsHeap h → i < length h → key rank h i ≤ key rank h 0
  root_greatest h i ordered inside = root_greatest_below (suc i) h i ordered (omega arith) inside
