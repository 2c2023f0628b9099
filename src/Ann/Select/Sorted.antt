-- ===== src/Ann/Select/Sorted.antt =====
-- The order in which selectNearest leaves the candidates.
use lumenvec.Base.{
  ℕ, zero, suc, ◌+◌, ◌-◌, ◌≤◌, ◌<◌, ◌≡◌, refl, ap, sym, ◌∙◌, Bool, false, List, none, some, length,
  arith, All, ltb, nat_eq, nat_eq_iff, if◌then◌else◌, Bool-cases, inl, inr,
}
use lumenvec.Base.Arrays.{get_elem?, set, swap, get_elem-some, get_elem-set, swap-set, length-set}
use lumenvec.Base.Bags.{swap-Same, All-get}
use lumenvec.Ann.{DistancePair}
use lumenvec.Ann.Select.{nearer, best_from, select_from, select_nearest}

module _ {D : Type 0} (rank : D → ℕ) where
  abbrev pub key : List (DistancePair D) → ℕ → ℕ
  key xs i = elim (get_elem? xs i) [ none ↦ 0 | some x ↦ rank x.distance ]

  -- Each of the first `n` is at most as far as all that follow it.
  abbrev pub IsSortedTo : ℕ → List (DistancePair D) → Type 0
  IsSortedTo n xs = (a c : ℕ) → a < n → a < c → c < length xs → key xs a ≤ key xs c

  module _ (xs : List (DistancePair D)) (i j : ℕ) (hi : i < length xs) (hj : j < length xs) where
    key-swap :
        (c : ℕ)
        → key (swap xs i j) c
          ≡ (if nat_eq j c then key xs i else if nat_eq i c then key xs j else key xs c)
    key-swap c =
        let (x, at_i) = get_elem-some xs i hi in
        let (y, at_j) = get_elem-some xs j hj in
        let size = length-set xs i y in
        rw (swap-set xs i j x y at_i at_j)
          (ground (arith, get_elem-set (set xs i y) j c x (omega arith), get_elem-set xs i c y hi))

  -- `b` is `best` or one of the places from `j` to `upto`, and none of those is nearer.
  record Least (xs : List (DistancePair D)) (best j upto b : ℕ) : Type 0 where
    inside : b < length xs
    after : best ≤ b
    below : key xs b ≤ key xs best
    all : (c : ℕ) → j ≤ c → c < upto → key xs b ≤ key xs c

  swap-IsSortedTo :
      (xs : List (DistancePair D)) (i b : ℕ)
      → i < length xs
      → IsSortedTo i xs
      → Least xs i (i + 1) (i + 1 + (length xs - (i + 1))) b
      → IsSortedTo (i + 1) (swap xs i b)
  swap-IsSortedTo xs i b inside sorted least = λ a c before after within.
      let moved = swap-Same xs i b in
      let kept = key-swap xs i b inside least.inside in
      let first : key (swap xs i b) i ≡ key xs b = elim (Bool-cases (nat_eq b i)) [
        | inl same ↦ kept i ∙ rw same (ap (key xs) (sym ((nat_eq_iff b i).0 same)))
        | inr other ↦ kept i ∙ rw other (ground arith)
      ] in
      -- What is below all from `i` on is below what follows after the swap.
      let later : (low : ℕ)
          → low ≤ key xs i
          → ((n : ℕ) → i < n → n < length xs → low ≤ key xs n)
          → i < c
          → low ≤ key (swap xs i b) c =
        λ low at_i after_i behind. rw (kept c) (elim (Bool-cases (nat_eq b c)) [
          | inl same ↦ rw same at_i
          | inr other ↦
              let apart : nat_eq i c ≡ false = ground arith in
              rw (other, apart) (after_i c behind (omega (arith, moved.size)))
        ]) in
      elim (Bool-cases (nat_eq i a)) [
        | inl here ↦
            let e : key (swap xs i b) a ≡ key xs b =
              ap (key (swap xs i b)) (sym ((nat_eq_iff i a).0 here)) ∙ first in
            rw e (
              later (key xs b) least.below (λ n lo hi. least.all n (omega arith) (omega arith))
                (ground (arith, here, after)))
        | inr earlier ↦
            let below : a < i = ground (arith, earlier, before) in
            let e : key (swap xs i b) a ≡ key xs a =
              kept a ∙ ground (arith, earlier, below, least.after) in
            rw e (elim (Bool-cases (nat_eq i c)) [
              | inl here ↦
                  let f : key (swap xs i b) c ≡ key xs b =
                    ap (key (swap xs i b)) (sym ((nat_eq_iff i c).0 here)) ∙ first in
                  rw f (sorted a b below (omega (arith, least.after)) least.inside)
              | inr apart ↦
                  rw (kept c, apart)
                    (elim (Bool-cases (nat_eq b c)) [
                      | inl same ↦ rw same (sorted a i below below inside)
                      | inr other ↦ rw other (sorted a c below after (omega (arith, moved.size)))
                    ])
            ])
      ]

  module _ (lt : D → D → Bool) (Proper : D → Type 0)
      (ordered : (x y : D) → Proper x → Proper y → lt x y ≡ ltb (rank x) (rank y)) where
    abbrev pub AllProper : List (DistancePair D) → Type 0
    AllProper = All (λ c. Proper c.distance)

    nearer-key :
        (xs : List (DistancePair D)) (i j : ℕ)
        → AllProper xs
        → i < length xs
        → j < length xs
        → nearer lt (get_elem? xs i) (get_elem? xs j) ≡ ltb (key xs i) (key xs j)
    nearer-key xs i j proper hi hj =
        let (x, at_i) = get_elem-some xs i hi in
        let (y, at_j) = get_elem-some xs j hj in
        let P : DistancePair D → Type 0 = λ c. Proper c.distance in
        let key_i : key xs i ≡ rank x.distance = rw (key, at_i) refl in
        let key_j : key xs j ≡ rank y.distance = rw (key, at_j) refl in
        rw (key_i, key_j, at_i, at_j)
          (ordered x.distance y.distance (All-get P xs i proper at_i) (All-get P xs j proper at_j))

    best_from-Least :
        (rounds : ℕ) (xs : List (DistancePair D)) (best j : ℕ)
        → AllProper xs
        → best < length xs
        → best < j
        → j + rounds ≤ length xs
        → Least xs best j (j + rounds) (best_from lt rounds xs best j)
    unfolding best_from
    best_from-Least zero xs best j proper inside before fits = record {
      inside = inside;
      after = omega arith;
      below = omega arith;
      all = λ c lo hi. absurd (omega arith);
    }
    best_from-Least (suc rounds) xs best j proper inside before fits =
        let test = nearer-key xs j best proper (omega arith) inside in
        elim (Bool-cases (nearer lt (get_elem? xs j) (get_elem? xs best))) [
          | inl e ↦
              let rest =
                best_from-Least rounds xs j (j + 1) proper (omega arith) (omega arith)
                  (omega arith) in
              let nearer_so : key xs j < key xs best = ground (arith, test, e) in
              rw e record {
                inside = rest.inside;
                after = omega (arith, rest.after);
                below = omega (arith, rest.below, nearer_so);
                all = λ c lo hi. elim (Bool-cases (nat_eq c j)) [
                  | inl same ↦ rw ((nat_eq_iff c j).0 same) rest.below
                  | inr other ↦ rest.all c (ground (arith, other)) (omega arith)
                ];
              }
          | inr e ↦
              let rest =
                best_from-Least rounds xs best (j + 1) proper inside (omega arith) (omega arith) in
              let no_nearer : key xs best ≤ key xs j = ground (arith, test, e) in
              rw e record {
                inside = rest.inside;
                after = rest.after;
                below = rest.below;
                all = λ c lo hi. elim (Bool-cases (nat_eq c j)) [
                  | inl same ↦ rw ((nat_eq_iff c j).0 same) (omega (arith, rest.below, no_nearer))
                  | inr other ↦ rest.all c (ground (arith, other)) (omega arith)
                ];
              }
        ]

    select_from-IsSortedTo :
        (rounds : ℕ) (xs : List (DistancePair D)) (i : ℕ)
        → AllProper xs
        → i + rounds ≤ length xs
        → IsSortedTo i xs
        → IsSortedTo (i + rounds) (select_from lt rounds xs i)
    unfolding select_from
    select_from-IsSortedTo zero xs i proper fits sorted = λ a c before. sorted a c (omega arith)
    select_from-IsSortedTo (suc rounds) xs i proper fits sorted =
        let b = best_from lt (length xs - (i + 1)) xs i (i + 1) in
        let least =
          best_from-Least (length xs - (i + 1)) xs i (i + 1) proper (omega arith) (omega arith)
            (omega arith) in
        let moved = swap-Same xs i b in
        let rest =
          select_from-IsSortedTo rounds (swap xs i b) (i + 1)
            (moved.all (λ c. Proper c.distance) proper) (omega (arith, moved.size))
            (swap-IsSortedTo xs i b (omega arith) sorted least) in
        λ a c before. rest a c (omega arith)

    -- selectNearest leaves no candidate nearer than the first `k` behind them.
    pub select_nearest-IsSortedTo :
        (xs : List (DistancePair D)) (k : ℕ)
        → AllProper xs
        → k ≤ length xs
        → IsSortedTo k (select_nearest lt xs k)
    unfolding select_nearest
    select_nearest-IsSortedTo xs k proper fits =
        let all =
          select_from-IsSortedTo k xs 0 proper (omega arith) (λ a c before. absurd (omega arith)) in
        λ a c before. all a c (omega arith)
