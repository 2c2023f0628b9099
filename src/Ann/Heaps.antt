-- ===== src/Ann/Heaps.antt =====
-- minDistHeap and maxDistHeap of internal/index/ann/ann_index.go. The loops of the two heaps differ
-- only in the direction of their comparisons, which is the parameter: the comparisons as they are
-- for the first, turned round for the second. No laws of them are needed here.
pub mod Laws
use lumenvec.Base.{
  ℕ, zero, suc, ◌+◌, ◌-◌, ◌*◌, Bool, true, false, ◌&&◌, ◌||◌, List, [], ◌∷◌, ◌++◌, Option, none,
  some, length, ltb, leb, nat_eq, if◌then◌else◌,
}
use lumenvec.Base.Arrays.{get_elem?, set, swap}
use lumenvec.Numeric.{Floats}
use lumenvec.Distance.{Arithmetic}
use lumenvec.TopK.{parent}
use lumenvec.Ann.{DistancePair, lt64, le64}

pub record Comparison (D : Type 0) : Type 0 where
  pub lt : D → D → Bool
  pub le : D → D → Bool

abbrev pub min_first : (fl : Floats) → Arithmetic fl → Comparison fl.F64
min_first fl ar = record { lt = lt64 fl ar; le = le64 fl ar }

abbrev pub max_first : (fl : Floats) → Arithmetic fl → Comparison fl.F64
max_first fl ar = record { lt = λ a b. lt64 fl ar b a; le = λ a b. le64 fl ar b a }

-- h[:n] and h[n], where n + 1 is the length of h
abbrev pub split_last {ℓ} : {A : Type ℓ} → A → List A → List A × A
split_last x [] = ([], x)
split_last x (y ∷ ys) = let (front, last) = split_last y ys in (x ∷ front, last)

module _ {D : Type 0} (c : Comparison D) where
  abbrev pub Heap : Type 0
  Heap = List (DistancePair D)

  -- A comparison of two places of the heap; an index is never out of range.
  abbrev pub at : (D → D → Bool) → Option (DistancePair D) → Option (DistancePair D) → Bool
  at test (some x) (some y) = test x.distance y.distance
  at test _ _ = true

  -- upMin and upMax; the index falls in each round, so one more than it is fuel enough
  unfoldable pub up : ℕ → Heap → ℕ → Heap
  up zero h j = h
  up (suc fuel) h j =
      let i = parent j in
      let rest = up fuel (swap h i j) i in
      if nat_eq i j || at c.le (get_elem? h i) (get_elem? h j) then h else rest

  abbrev pub near_child : Heap → ℕ → ℕ
  near_child h i =
      let left = 2 * i + 1 in
      let right = left + 1 in
      if ltb right (length h) && at c.lt (get_elem? h right) (get_elem? h left) then right else left

  -- downMin and downMax; the index grows in each round and stays below the length
  unfoldable pub down : ℕ → Heap → ℕ → Heap
  down zero h i = h
  down (suc fuel) h i =
      let child = near_child h i in
      let rest = down fuel (swap h i child) child in
      if leb (length h) (2 * i + 1)
      then h
      else if at c.le (get_elem? h i) (get_elem? h child)
      then h
      else rest

  unfoldable pub push : DistancePair D → Heap → Heap
  push x h = let grown = h ++ x ∷ [] in up (length grown) grown (length h)

  unfoldable pub replace_top : DistancePair D → Heap → Heap
  replace_top x h = let new = set h 0 x in down (suc (length new)) new 0

  unfoldable pub pop_swapped : Heap → Option (DistancePair D × Heap)
  pop_swapped [] = none
  pop_swapped (x ∷ h) =
      let (front, item) = split_last x h in some (item, down (suc (length front)) front 0)

  -- none: the heap is empty, where Go panics
  unfoldable pub pop : Heap → Option (DistancePair D × Heap)
  pop h = pop_swapped (swap h 0 (length h - 1))
