-- ===== src/Ann/Select.antt =====
-- selectNearest of internal/index/ann/ann_index.go, and the ids that it brings to the front.
pub mod Prefix
pub mod Sorted
pub mod Nearest
use lumenvec.Base.{
  ℕ, zero, suc, ◌+◌, ◌-◌, Bool, true, false, List, [], Option, none, some, length, take, map, ltb,
  if◌then◌else◌,
}
use lumenvec.Base.Arrays.{get_elem?, swap}
use lumenvec.Ann.{DistancePair}

module _ {D : Type 0} (lt : D → D → Bool) where
  -- candidates[j].distance < candidates[best].distance; the indices are in range
  abbrev pub nearer : Option (DistancePair D) → Option (DistancePair D) → Bool
  nearer (some x) (some y) = lt x.distance y.distance
  nearer _ _ = false

  -- The inner loop, with the rounds that are left.
  unfoldable pub best_from : ℕ → List (DistancePair D) → ℕ → ℕ → ℕ
  best_from zero candidates best j = best
  best_from (suc rounds) candidates best j =
      best_from rounds candidates
        (if nearer (get_elem? candidates j) (get_elem? candidates best) then j else best) (j + 1)

  -- The outer loop from `i` on, with the rounds that are left.
  unfoldable pub select_from : ℕ → List (DistancePair D) → ℕ → List (DistancePair D)
  select_from zero candidates i = candidates
  select_from (suc rounds) candidates i =
      let best = best_from (length candidates - (i + 1)) candidates i (i + 1) in
      select_from rounds (swap candidates i best) (i + 1)

  unfoldable pub select_nearest : List (DistancePair D) → ℕ → List (DistancePair D)
  select_nearest candidates k = select_from k candidates 0

  abbrev pub at_most : ℕ → ℕ → ℕ
  at_most k n = if ltb n k then n else k

  -- The first k of the candidates once selectNearest has run; k is lowered to their number.
  unfoldable pub nearest_first : List (DistancePair D) → ℕ → List (DistancePair D)
  nearest_first candidates k =
      let k' = at_most k (length candidates) in take k' (select_nearest candidates k')

  unfoldable pub nearest_ids : List (DistancePair D) → ℕ → List ℕ
  nearest_ids candidates k = map (λ c. c.id) (nearest_first candidates k)
