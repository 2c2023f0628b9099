-- ===== src/Ann/Heaps/Laws.antt =====
-- What the heap operations leave in the heap.
use lumenvec.Base.{
  ℕ, zero, suc, ◌+◌, ◌-◌, ◌*◌, ◌≤◌, ◌≡◌, refl, ap, Bool, ◌||◌, ◌⊎◌, inl, inr, [], ◌∷◌, ◌++◌, none,
  some, length, length-append, leb, nat_eq, arith, All, Bool-cases, if◌then◌else◌,
}
use lumenvec.Base.Arrays.{get_elem?, set, swap, count, count-append, length-set}
use lumenvec.Base.Bags.{Same, Same-refl, Same-trans, swap-Same, All-append, All-set}
use lumenvec.TopK.{parent}
use lumenvec.Ann.{DistancePair}
use lumenvec.Ann.Heaps.{
  Comparison, split_last, Heap, at, up, near_child, down, push, replace_top, pop_swapped, pop,
}

module _ {D : Type 0} (c : Comparison D) where
  pub up-Same : (fuel : ℕ) (h : Heap c) (j : ℕ) → Same h (up c fuel h j)
  unfolding up
  up-Same zero h j = Same-refl h
  up-Same (suc fuel) h j =
      let i = parent j in
      elim (Bool-cases (nat_eq i j || at c c.le (get_elem? h i) (get_elem? h j))) [
        | inl stop ↦ rw (stop, up) (Same-refl h)
        | inr on ↦ rw (on, up) (Same-trans (swap-Same h i j) (up-Same fuel (swap h i j) i))
      ]

  pub down-Same : (fuel : ℕ) (h : Heap c) (i : ℕ) → Same h (down c fuel h i)
  unfolding down
  down-Same zero h i = Same-refl h
  down-Same (suc fuel) h i =
      let child = near_child c h i in
      elim (Bool-cases (leb (length h) (2 * i + 1))) [
        | inl leaf ↦ rw (leaf, down) (Same-refl h)
        | inr inner ↦ elim (Bool-cases (at c c.le (get_elem? h i) (get_elem? h child))) [
          | inl stop ↦ rw (inner, down, stop) (Same-refl h)
          | inr on ↦
              rw (inner, down, on)
                (Same-trans (swap-Same h i child) (down-Same fuel (swap h i child) child))
        ]
      ]

  -- `new` is `old` with `x` in it.
  pub record Pushed (x : DistancePair D) (old new : Heap c) : Type 1 where
    pub size : length new ≡ length old + 1
    pub bag : (p : DistancePair D → Bool) → count p new ≡ count p old + (if p x then 1 else 0)
    pub all : (P : DistancePair D → Type 0) → All P old → P x → All P new

  pub push-Pushed : (x : DistancePair D) (h : Heap c) → Pushed x h (push c x h)
  unfolding push
  push-Pushed x h =
      let grown = h ++ x ∷ [] in
      let same = up-Same (length grown) grown (length h) in
      record {
        size = omega (arith, same.size, length-append {0} h (x ∷ []));
        bag = λ p. omega (arith, same.bag p, count-append p h (x ∷ []));
        all = λ P all px. same.all P (All-append P h (x ∷ []) all (px, tt));
      }

  split_last-Same :
      (x : DistancePair D) (xs : Heap c)
      → let (front, last) = split_last x xs in
        (length front ≡ length xs)
        × ((p : DistancePair D → Bool)
            → count p front + (if p last then 1 else 0) ≡ count p (x ∷ xs))
        × ((P : DistancePair D → Type 0) → All P (x ∷ xs) → All P front × P last)
  split_last-Same x [] = (refl, λ p. omega arith, λ P all. (tt, all.0))
  split_last-Same x (y ∷ ys) =
      let (size, bag, all) = split_last-Same y ys in
      (
        ap suc size,
        λ p. omega (arith, bag p),
        λ P h. let (front, last) = all P h.1 in ((h.0, front), last),
      )

  -- `old` is `new` with `x` in it.
  pub record Popped (x : DistancePair D) (old new : Heap c) : Type 1 where
    pub size : length new + 1 ≡ length old
    pub bag : (p : DistancePair D → Bool) → count p new + (if p x then 1 else 0) ≡ count p old
    pub all : (P : DistancePair D → Type 0) → All P old → P x × All P new

  pop_swapped-Popped :
      (old h : Heap c)
      → Same old h
      → ((length old ≡ 0) × (pop_swapped c h ≡ none))
        ⊎ ((x : DistancePair D) × (new : Heap c) × (pop_swapped c h ≡ some (x, new))
            × Popped x old new)
  unfolding pop_swapped
  pop_swapped-Popped old [] same = inl (omega (arith, same.size), refl)
  pop_swapped-Popped old (y ∷ h) same =
      let front = (split_last y h).0 in
      let (size, bag, all) = split_last-Same y h in
      let sunk = down-Same (suc (length front)) front 0 in
      inr (
        (split_last y h).1,
        down c (suc (length front)) front 0,
        refl,
        record {
          size = omega (arith, size, sunk.size, same.size);
          bag = λ p. omega (arith, bag p, sunk.bag p, same.bag p);
          all = λ P h. let (before, last) = all P (same.all P h) in (last, sunk.all P before);
        },
      )

  pub pop-Popped :
      (h : Heap c)
      → ((length h ≡ 0) × (pop c h ≡ none))
        ⊎ ((x : DistancePair D) × (new : Heap c) × (pop c h ≡ some (x, new)) × Popped x h new)
  unfolding pop
  pop-Popped h = pop_swapped-Popped h (swap h 0 (length h - 1)) (swap-Same h 0 (length h - 1))

  pub replace_top-All :
      (x : DistancePair D) (h : Heap c) (P : DistancePair D → Type 0)
      → All P h
      → P x
      → All P (replace_top c x h)
  unfolding replace_top
  replace_top-All x h P all px =
      let new = set h 0 x in (down-Same (suc (length new)) new 0).all P (All-set P h 0 x all px)

  pub length-replace_top : (x : DistancePair D) (h : Heap c) → length (replace_top c x h) ≡ length h
  unfolding replace_top
  length-replace_top x h =
      let new = set h 0 x in
      omega (arith, (down-Same (suc (length new)) new 0).size, length-set h 0 x)

  -- The new item comes in and no other but the first goes.
  pub count-replace_top :
      (x : DistancePair D) (h : Heap c) (p : DistancePair D → Bool)
      → count p (replace_top c x h) ≤ count p h + (if p x then 1 else 0)
  unfolding replace_top
  count-replace_top x [] p = omega (arith, (down-Same 1 [] 0).bag p)
  count-replace_top x (y ∷ h) p =
      let new = x ∷ h in omega (arith, (down-Same (suc (length new)) new 0).bag p)
