-- ===== src/Ann/Valid/Nearest.antt =====
-- The results of a search as the nearest of the live candidates.
use lumenvec.Base.{
  ℕ, ◌≡◌, ◌≤◌, ◌∙◌, ◌⊎◌, inl, inr, some, length, nat_eq, arith, Bool-cases, ℕ-Eq, lookup, refl, ltb,
  false, List, All,
}
use lumenvec.Base.Arrays.{count}
use lumenvec.Numeric.{Floats}
use lumenvec.Distance.{Arithmetic}
use lumenvec.Ann.{DistancePair, Random, lt64, squared_distance32}
use lumenvec.Ann.Select.{nearest_first}
use lumenvec.Ann.Select.Nearest.{AreNearest, nearest_first-AreNearest}
use lumenvec.Ann.Search.Progress.{holds}
use lumenvec.Ann.Query.{AnnResult}
use lumenvec.Ann.Insert.{Ann}
use lumenvec.Ann.Valid.{IsBody, view}
use lumenvec.Ann.Valid.Answers.{Shown, Shown-number, Shown-distance, Named, IsNumbered}

module _ (fl : Floats) (ar : Arithmetic fl) (rd : Random) where
  open fl use {F32, F64}

  lt64-rank :
      (x y : F64)
      → ar.is_nan x ≡ false
      → ar.is_nan y ≡ false
      → lt64 fl ar x y ≡ ltb (ar.rank x) (ar.rank y)
  lt64-rank x y hx hy = rw (hx, hy) refl

  module _ (a : Ann fl ar rd) (query : List F32) (ef : ℕ) (h : IsBody fl ar rd a) (k : ℕ) where
    pub nearest_left :
        (left : List (DistancePair F64))
        → All (Shown fl ar rd a query ef h) left
        → IsNumbered fl ar rd a query
        → AreNearest ar.rank
            (Shown fl ar rd a query ef h)
            k
            left
            (nearest_first (lt64 fl ar) left k)
    nearest_left left shown numbered =
        nearest_first-AreNearest ar.rank (lt64 fl ar) (Shown fl ar rd a query ef h)
          (λ d. ar.is_nan d ≡ false) lt64-rank (Shown-number fl ar rd a query ef h numbered) left k
          shown

    -- A candidate is among the results, or they are `k` that are at most as far.
    pub among_or_farther :
        (left first : List (DistancePair F64)) (rs : List (AnnResult F64))
        → AreNearest ar.rank (Shown fl ar rd a query ef h) k left first
        → Named fl ar rd a query ef h first rs
        → (id slot : ℕ) (v : List F32) (dist : F64) → lookup id a.id_to_slot ≡ some slot
        → view fl ar rd a id ≡ some v
        → squared_distance32 fl ar query v ≡ some dist
        → count (holds slot) left ≡ 1
        → count (holds slot) first ≤ count (holds slot) left
        → (count (λ r. nat_eq id r.id) rs ≡ 1)
          ⊎ ((length rs ≡ k) × All (λ r. ar.rank r.distance ≤ ar.rank dist) rs)
    among_or_farther left first rs near named id slot v dist at seen measured once few =
        elim (Bool-cases (ltb (count (holds slot) first) (count (holds slot) left))) [
          | inr all ↦ inl (ground (arith, named.counts id slot at, once, few, all))
          | inl fewer ↦
              let (c, here, shown, full, within) =
                near.left_out (holds slot) (ground (arith, fewer)) in
              let same =
                Shown-distance fl ar rd a query ef h id slot v dist c at seen measured shown here in
              inr (named.size ∙ full, named.bound (ar.rank dist) (rw (← same) within))
        ]
