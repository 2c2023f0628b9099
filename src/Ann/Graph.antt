-- ===== src/Ann/Graph.antt =====
-- The graph of the nodes, and what linking and pruning keep of it.
pub mod Neighbors
pub mod Pruning
pub mod Links
use lumenvec.Base.{
  ℕ, zero, suc, ◌+◌, ◌≤◌, ◌<◌, ◌≡◌, refl, sym, ap, ◌∙◌, Bool, true, false, List, [], ◌∷◌, ◌++◌,
  Option, none, some, length, leb, ltb, nat_eq, map, arith, All, Bool-cases, Option-cases, inl, inr,
  if◌then◌else◌, nat_eq_iff,
}
use lumenvec.Base.Arrays.{
  get_elem?, get_elem-some, get_elem-set, set, count, count-append, length-set,
}
use lumenvec.Base.Bags.{Each, Each-set, get_elem-lt}
use lumenvec.Numeric.{Floats}
use lumenvec.Distance.{Arithmetic, sum_blocks, sum_tail, add_four, square}
use lumenvec.Ann.{DistancePair, Node, distance_to, squared_distance32, lt64}
use lumenvec.Ann.Select.{nearest_first, nearest_ids}
use lumenvec.Ann.Select.Prefix.{nearest_first-Chosen, count-map_id}
use lumenvec.Ann.Search.Visits.{IsSound}

-- The links from a slot lead to different other slots.
pub record IsLinks (total slot : ℕ) (links : List ℕ) : Type 0 where
  pub inside : count (leb total) links ≡ 0
  pub apart : count (nat_eq slot) links ≡ 0
  pub once : (v : ℕ) → count (nat_eq v) links ≤ 1

-- Some of the links of a node.
pub fewer-IsLinks :
    (total slot : ℕ) (old new : List ℕ)
    → IsLinks total slot old
    → ((p : ℕ → Bool) → count p new ≤ count p old)
    → IsLinks total slot new
fewer-IsLinks total slot old new h fewer = record {
  inside = omega (arith, fewer (leb total), h.inside);
  apart = omega (arith, fewer (nat_eq slot), h.apart);
  once = λ v. omega (arith, fewer (nat_eq v), h.once v);
}

-- Every slot is tight.
abbrev pub Any : ℕ → Type 0
Any s = Unit

module _ {F : Type 0} where
  pub record IsNode (total dim slot : ℕ) (n : Node F) : Type 0 where
    pub place : n.slot ≡ slot
    pub size : length n.vector ≡ dim
    pub links : IsLinks total slot n.neighbors

  -- Each node is in its slot, has a vector of the dimension and links to other slots; a node in a
  -- tight slot has at most `m` links.
  pub record IsGraph (total dim m : ℕ) (Tight : ℕ → Type 0) (nodes : List (Node F)) : Type 0 where
    pub size : length nodes ≡ total
    pub node : Each (IsNode total dim) nodes
    pub short : Each (λ slot n. Tight slot → length n.neighbors ≤ m) nodes

  -- What linking leaves alone: the id and the vector in a slot.
  abbrev pub core : Option (Node F) → Option (ℕ × List F)
  core none = none
  core (some n) = some (n.id, n.vector)

  abbrev pub core_at : List (Node F) → ℕ → Option (ℕ × List F)
  core_at nodes slot = core (get_elem? nodes slot)

  abbrev pub SameCores : List (Node F) → List (Node F) → Type 0
  SameCores old new = (slot : ℕ) → core_at new slot ≡ core_at old slot

  pub set-SameCores :
      (nodes : List (Node F)) (slot : ℕ) (n v : Node F)
      → get_elem? nodes slot ≡ some n
      → core (some v) ≡ core (some n)
      → SameCores nodes (set nodes slot v)
  set-SameCores nodes slot n v at same j =
      ap core (get_elem-set nodes slot j v (get_elem-lt nodes slot at))
      ∙ elim (Bool-cases (nat_eq slot j)) [
        | inl here ↦
            rw here (same ∙ ap core (sym at) ∙ ap (core_at nodes) ((nat_eq_iff slot j).0 here))
        | inr other ↦ rw other refl
      ]

  pub set-IsGraph :
      (total dim m : ℕ) (Tight Tight' : ℕ → Type 0) (nodes : List (Node F)) (slot : ℕ) (v : Node F)
      → IsGraph total dim m Tight nodes
      → slot < total
      → IsNode total dim slot v
      → ((s : ℕ) → nat_eq slot s ≡ false → Tight' s → Tight s)
      → (Tight' slot → length v.neighbors ≤ m)
      → IsGraph total dim m Tight' (set nodes slot v)
  set-IsGraph total dim m Tight Tight' nodes slot v g h new weaker short = record {
    size = length-set nodes slot v ∙ g.size;
    node =
        Each-set (IsNode total dim) nodes slot v (omega (arith, g.size)) (λ j x _ at. g.node j x at)
          new;
    short =
        Each-set (λ s n. Tight' s → length n.neighbors ≤ m) nodes slot v (omega (arith, g.size))
          (λ j x other at tight. g.short j x at (weaker j other tight)) short;
  }

module _ (fl : Floats) (ar : Arithmetic fl) where
  open fl use {F32, F64}

  sum_tail-some :
      (sum : F64) (a b : List F32)
      → length a ≡ length b
      → (d : F64) × (sum_tail fl ar sum a b ≡ some d)
  unfolding sum_tail
  sum_tail-some sum [] b h = (sum, refl)
  sum_tail-some sum (x ∷ a) [] h = absurd (omega arith)
  sum_tail-some sum (x ∷ a) (y ∷ b) h =
      sum_tail-some (ar.add64 sum (square fl ar x y)) a b (omega arith)

  pub sum_blocks-some :
      (sum : F64) (a b : List F32)
      → length a ≡ length b
      → (d : F64) × (sum_blocks fl ar sum a b ≡ some d)
  unfolding sum_blocks
  sum_blocks-some sum (a0 ∷ a1 ∷ a2 ∷ a3 ∷ a) (b0 ∷ b1 ∷ b2 ∷ b3 ∷ b) h =
      sum_blocks-some (add_four fl ar sum a0 a1 a2 a3 b0 b1 b2 b3) a b (omega arith)
  sum_blocks-some sum (a0 ∷ a1 ∷ a2 ∷ a3 ∷ a) [] h = absurd (omega arith)
  sum_blocks-some sum (a0 ∷ a1 ∷ a2 ∷ a3 ∷ a) (b0 ∷ []) h = absurd (omega arith)
  sum_blocks-some sum (a0 ∷ a1 ∷ a2 ∷ a3 ∷ a) (b0 ∷ b1 ∷ []) h = absurd (omega arith)
  sum_blocks-some sum (a0 ∷ a1 ∷ a2 ∷ a3 ∷ a) (b0 ∷ b1 ∷ b2 ∷ []) h = absurd (omega arith)
  sum_blocks-some sum [] b h = sum_tail-some sum [] b h
  sum_blocks-some sum (a0 ∷ []) b h = sum_tail-some sum (a0 ∷ []) b h
  sum_blocks-some sum (a0 ∷ a1 ∷ []) b h = sum_tail-some sum (a0 ∷ a1 ∷ []) b h
  sum_blocks-some sum (a0 ∷ a1 ∷ a2 ∷ []) b h = sum_tail-some sum (a0 ∷ a1 ∷ a2 ∷ []) b h

  module _ (total dim m : ℕ) (Tight : ℕ → Type 0) (nodes : List (Node F32))
      (g : IsGraph total dim m Tight nodes) (query : List F32) (fits : length query ≡ dim) where
    pub distance-some :
        (slot : ℕ) → slot < total → (d : F64) × (distance_to fl ar nodes query slot ≡ some d)
    unfolding distance_to squared_distance32
    distance-some slot h =
        let (n, at) = get_elem-some nodes slot (omega (arith, g.size)) in
        let (d, same) =
          sum_blocks-some ar.zero64 query n.vector (omega (arith, fits, (g.node slot n at).size)) in
        (d, rw (at, distance_to) same)

    -- In a graph the search finds no index out of range.
    pub graph-IsSound : (ef : ℕ) → IsSound fl ar nodes query ef
    graph-IsSound ef = record {
      distances = λ slot h. distance-some slot (omega (arith, g.size));
      links = λ slot n at. rw g.size ((g.node slot n at).links.inside);
    }
