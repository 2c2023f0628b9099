-- ===== src/TopK/Nearest.antt =====
-- The accumulator holds the nearest results that it has seen.
use lumenvec.Base.{
  ℕ, zero, suc, ◌+◌, ◌≤◌, ◌<◌, ◌≡◌, refl, ap, Bool, false, [], ◌∷◌, ◌++◌, length, length-append,
  nat_eq, leb, ltb, arith, Bool-cases, inl, inr, All,
}
use lumenvec.Base.Ints.{ℤ, to_ℕ}
use lumenvec.Base.Arrays.{
  set, count, count-append, count-set, length-set, get_elem-some, get_elem-set,
}
use lumenvec.TopK.{SearchResult, parent, key, down, TopK, new_top_k, push, replace_top, add}
use lumenvec.TopK.Order.{Items, IsHeap, root_greatest}
use lumenvec.TopK.Up.{IsLow, up-Heaped}
use lumenvec.TopK.Down.{IsHigh, down-Heaped}

module _ {D : Type 0} (rank : D → ℕ) where
  -- `a` holds the nearest of `seen`, as many as its limit allows; `rest` are the others.
  pub record Nearest (limit : ℕ) (seen : Items rank) (a : TopK rank) : Type 0 where
    pub bound : a.limit ≡ limit
    pub ordered : IsHeap rank a.items
    pub rest : Items rank
    pub bag : (p : SearchResult D → Bool) → count p a.items + count p rest ≡ count p seen
    pub size : length a.items ≤ limit
    pub full : length a.items < limit → rest ≡ []
    pub farther : All (λ r. key rank a.items 0 ≤ rank r.distance) rest

  pub new-Nearest : (limit : ℤ) → Nearest (to_ℕ limit) [] (new_top_k rank limit)
  unfolding new_top_k
  new-Nearest limit = record {
    bound = refl;
    ordered = λ c p q. absurd (omega arith);
    rest = [];
    bag = λ p. refl;
    size = omega arith;
    full = λ h. refl;
    farther = tt;
  }

  key-append :
      (h : Items rank) (x : SearchResult D) (i : ℕ)
      → i < length h
      → key rank (h ++ x ∷ []) i ≡ key rank h i
  key-append [] x i q = absurd (omega arith)
  key-append (y ∷ h) x zero q = refl
  key-append (y ∷ h) x (suc i) q = key-append h x i (omega arith)

  append-IsLow :
      (h : Items rank) (x : SearchResult D) → IsHeap rank h → IsLow rank (length h) (h ++ x ∷ [])
  append-IsLow h x ordered =
      let size = length-append h (x ∷ []) in
      record {
        inside = omega (arith, size);
        others = λ c p q other.
            ground (arith, size, key-append h x c, key-append h x (parent c), ordered c);
        across = λ c p q e r. absurd (omega (arith, size));
      }

  push-Nearest :
      (limit : ℕ) (seen : Items rank) (a : TopK rank) (item : SearchResult D)
      → Nearest limit seen a
      → length a.items < limit
      → Nearest limit (item ∷ seen) (push rank item a)
  unfolding push
  push-Nearest limit seen a item h room =
      let items = a.items ++ item ∷ [] in
      let size = length-append a.items (item ∷ []) in
      let heaped =
        up-Heaped rank (length items) (length a.items) items (omega (arith, size))
          (append-IsLow a.items item h.ordered) in
      record {
        bound = h.bound;
        ordered = heaped.ordered;
        rest = [];
        bag = λ p.
            let none_left : count p h.rest ≡ 0 = ap (count p) (h.full room) in
            omega (arith, heaped.same p, count-append p a.items (item ∷ []), h.bag p);
        size = omega (arith, heaped.size, size);
        full = λ q. refl;
        farther = tt;
      }

  -- A bound on the distances, as a count of those beyond it.
  abbrev pub beyond : ℕ → SearchResult D → Bool
  beyond m r = ltb m (rank r.distance)

  pub bounded-none_beyond :
      (m : ℕ) (h : Items rank)
      → ((i : ℕ) → i < length h → key rank h i ≤ m)
      → count (beyond m) h ≡ 0
  bounded-none_beyond m [] b = refl
  bounded-none_beyond m (x ∷ h) b =
      ground (arith, b 0 (omega arith), bounded-none_beyond m h (λ i q. b (suc i) (omega arith)))

  none_beyond-bounded :
      (m : ℕ) (h : Items rank) (i : ℕ) → count (beyond m) h ≡ 0 → i < length h → key rank h i ≤ m
  none_beyond-bounded m [] i e q = absurd (omega arith)
  none_beyond-bounded m (x ∷ h) zero e q = ground arith
  none_beyond-bounded m (x ∷ h) (suc i) e q = none_beyond-bounded m h i (ground arith) (omega arith)

  pub farther_still :
      (m n : ℕ) (h : Items rank)
      → m ≤ n
      → All (λ r. n ≤ rank r.distance) h
      → All (λ r. m ≤ rank r.distance) h
  farther_still m n [] e all = tt
  farther_still m n (x ∷ h) e (first, all) = (omega arith, farther_still m n h e all)

  set_root-IsHigh :
      (h : Items rank) (x : SearchResult D)
      → IsHeap rank h
      → 0 < length h
      → IsHigh rank 0 (set h 0 x)
  set_root-IsHigh h x ordered inhabited =
      let size = length-set h 0 x in
      record {
        others = λ c p q other. ground (
          arith,
          size,
          get_elem-set h 0 c x inhabited,
          get_elem-set h 0 (parent c) x inhabited,
          ordered c,
        );
        across = λ c p q e r. absurd (omega arith);
      }

  -- A nearer result takes the place of the farthest.
  replace-Nearest :
      (limit : ℕ) (seen : Items rank) (a : TopK rank) (item : SearchResult D)
      → Nearest limit seen a
      → length a.items ≡ limit
      → 0 < limit
      → rank item.distance < key rank a.items 0
      → Nearest limit (item ∷ seen) (replace_top rank item a)
  unfolding replace_top
  replace-Nearest limit seen a item h full positive nearer =
      let items = set a.items 0 item in
      let size = length-set a.items 0 item in
      let m = key rank a.items 0 in
      let (top, at) = get_elem-some a.items 0 (omega arith) in
      let swapped = λ (p : SearchResult D → Bool). count-set p a.items 0 top item at in
      let heaped =
        down-Heaped rank (suc (length items)) 0 items (omega arith)
          (set_root-IsHigh a.items item h.ordered (omega arith)) in
      let new = down rank (suc (length items)) items 0 in
      let root : rank top.distance ≡ m = rw at refl in
      let none_old =
        bounded-none_beyond m a.items (λ i q. root_greatest rank a.items i h.ordered q) in
      let none_new : count (beyond m) new ≡ 0 =
        ground (arith, heaped.same (beyond m), swapped (beyond m)) in
      let lower : key rank new 0 ≤ m =
        none_beyond-bounded m new 0 none_new (omega (arith, heaped.size, size)) in
      record {
        bound = h.bound;
        ordered = heaped.ordered;
        rest = top ∷ h.rest;
        bag = λ p. omega (arith, heaped.same p, swapped p, h.bag p);
        size = omega (arith, heaped.size, size);
        full = λ q. absurd (omega (arith, heaped.size, size));
        farther = (rw root lower, farther_still (key rank new 0) m h.rest lower h.farther);
      }

  pub add-Nearest :
      (limit : ℕ) (seen : Items rank) (a : TopK rank) (item : SearchResult D)
      → 0 < limit
      → Nearest limit seen a
      → Nearest limit (item ∷ seen) (add rank item a)
  unfolding add
  add-Nearest limit seen a item above h =
      let positive : nat_eq a.limit 0 ≡ false = ground (arith, h.bound) in
      elim (Bool-cases (ltb (length a.items) a.limit)) [
        | inl room ↦
            rw (positive, add, room) (push-Nearest limit seen a item h (ground (arith, h.bound)))
        | inr full ↦ elim (Bool-cases (leb (key rank a.items 0) (rank item.distance))) [
          | inl far ↦
              rw (positive, add, full, far)
                (record {
                  bound = h.bound;
                  ordered = h.ordered;
                  rest = item ∷ h.rest;
                  bag = λ p. omega (arith, h.bag p);
                  size = h.size;
                  full = λ q. absurd (ground (arith, h.bound));
                  farther = (ground arith, h.farther);
                })
          | inr near ↦
              rw (positive, add, full, near)
                (replace-Nearest limit seen a item h (ground (arith, h.bound, h.size)) above
                  (ground arith))
        ]
      ]
