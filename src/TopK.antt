-- ===== src/TopK.antt =====
-- topKAccumulator of internal/core/service.go: the nearest results so far, as a heap with the
-- farthest of them at its root. Its callers leave out distances that are NaN; the others are
-- compared by `rank`, their place in the order of float64. Indices into the heap are in range.
pub mod Order
pub mod Up
pub mod Down
pub mod Nearest
pub mod Results
use lumenvec.Base.{
  ℕ, zero, suc, ◌+◌, ◌-◌, ◌*◌, ◌/◌, ◌&&◌, Bool, List, [], ◌∷◌, ◌++◌, Option, none, some, Text,
  length, ltb, leb, nat_eq, if◌then◌else◌, All, map, ◌≤◌, ◌≡◌,
}
use lumenvec.Base.Ints.{ℤ, to_ℕ}
use lumenvec.Base.Arrays.{get_elem?, set, swap, count}

pub record SearchResult (D : Type 0) : Type 0 where
  pub id : Text
  pub distance : D

abbrev pub parent : ℕ → ℕ
parent j = (j - 1) / 2

module _ {D : Type 0} (rank : D → ℕ) where
  abbrev pub rank_of : Option (SearchResult D) → ℕ
  rank_of none = 0
  rank_of (some r) = rank r.distance

  -- h[i].Distance
  abbrev pub key : List (SearchResult D) → ℕ → ℕ
  key h i = rank_of (get_elem? h i)

  -- upSearchResultMax; the index falls in each round, so one more than it is fuel enough
  unfoldable pub up : ℕ → List (SearchResult D) → ℕ → List (SearchResult D)
  up zero h j = h
  up (suc fuel) h j =
      let i = parent j in
      let rest = up fuel (swap h i j) i in
      if nat_eq i j then h else if leb (key h j) (key h i) then h else rest

  abbrev pub far_child : List (SearchResult D) → ℕ → ℕ
  far_child h i =
      let left = 2 * i + 1 in
      let right = left + 1 in
      if ltb right (length h) && ltb (key h left) (key h right) then right else left

  -- downSearchResultMax; the index grows in each round and stays below the length
  unfoldable pub down : ℕ → List (SearchResult D) → ℕ → List (SearchResult D)
  down zero h i = h
  down (suc fuel) h i =
      let child = far_child h i in
      let rest = down fuel (swap h i child) child in
      if leb (length h) (2 * i + 1) then h else if leb (key h child) (key h i) then h else rest

  pub record TopK : Type 0 where
    pub limit : ℕ
    pub items : List (SearchResult D)

  unfoldable pub new_top_k : ℤ → TopK
  new_top_k limit = record { limit = to_ℕ limit; items = [] }

  unfoldable pub push : SearchResult D → TopK → TopK
  push item a =
      let items = a.items ++ item ∷ [] in
      record a { items = up (length items) items (length a.items) }

  unfoldable pub replace_top : SearchResult D → TopK → TopK
  replace_top item a =
      let items = set a.items 0 item in record a { items = down (suc (length items)) items 0 }

  unfoldable pub add : SearchResult D → TopK → TopK
  add item a =
      if nat_eq a.limit 0
      then a
      else if ltb (length a.items) a.limit
      then push item a
      else if leb (key a.items 0) (rank item.distance)
      then a
      else replace_top item a

  -- sort.Slice by distance; the order of equal distances is open.
  abbrev pub IsSorted : List (SearchResult D) → Type 0
  IsSorted [] = Unit
  IsSorted (r ∷ rs) = All (λ s. rank r.distance ≤ rank s.distance) rs × IsSorted rs

  pub record Sorting : Type 0 where
    pub sort : List (SearchResult D) → List (SearchResult D)
    pub count-sort :
        (p : SearchResult D → Bool) (rs : List (SearchResult D)) → count p (sort rs) ≡ count p rs
    pub sort-IsSorted : (rs : List (SearchResult D)) → IsSorted (sort rs)

  abbrev pub with_root : (D → D) → SearchResult D → SearchResult D
  with_root sqrt r = record r { distance = sqrt r.distance }

  unfoldable pub results : Sorting → (D → D) → TopK → List (SearchResult D)
  results so sqrt a = elim a.items [ [] ↦ [] | _ ∷ _ ↦ map (with_root sqrt) (so.sort a.items) ]
