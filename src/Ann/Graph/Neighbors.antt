-- ===== src/Ann/Graph/Neighbors.antt =====
-- addNeighbor of internal/index/ann/ann_index.go keeps the graph.
use lumenvec.Base.{
  ℕ, ◌≤◌, ◌<◌, ◌≡◌, refl, ◌∙◌, false, List, [], ◌∷◌, ◌++◌, some, leb, nat_eq, nat_eq_iff, arith,
  Bool-cases, inl, inr,
}
use lumenvec.Base.Arrays.{get_elem-some, set, count, count-append}
use lumenvec.Ann.{Node}
use lumenvec.Ann.Insert.{contains, add_neighbor, update_node}
use lumenvec.Ann.Graph.{IsNode, IsGraph, core, SameCores, set-SameCores, set-IsGraph}

contains-none : (id : ℕ) (xs : List ℕ) → contains id xs ≡ false → count (nat_eq id) xs ≡ 0
contains-none id [] h = refl
contains-none id (x ∷ xs) h = ground (arith, contains-none id xs)

module _ {F : Type 0} where
  pub SameCores-trans : (a b c : List (Node F)) → SameCores a b → SameCores b c → SameCores a c
  SameCores-trans a b c h k slot = k slot ∙ h slot

  add_neighbor-IsNode :
      (total dim slot id : ℕ) (n : Node F)
      → IsNode total dim slot n
      → id < total
      → IsNode total dim slot (add_neighbor id n)
  unfolding add_neighbor
  add_neighbor-IsNode total dim slot id n h inside = elim (Bool-cases (nat_eq id n.slot)) [
    | inl self ↦ rw self h
    | inr other ↦ elim (Bool-cases (contains id n.neighbors)) [
      | inl old ↦ rw (other, old) h
      | inr new ↦
          let none_yet = contains-none id n.neighbors new in
          rw (other, new)
            (record {
              place = h.place;
              size = h.size;
              links = record {
                inside =
                    ground (arith, count-append (leb total) n.neighbors (id ∷ []), h.links.inside);
                apart = ground (
                  arith,
                  count-append (nat_eq slot) n.neighbors (id ∷ []),
                  h.links.apart,
                  h.place,
                );
                once = λ v. once-append v none_yet;
              };
            })
    ]
  ]
    where
      once-append :
          (v : ℕ)
          → count (nat_eq id) n.neighbors ≡ 0
          → count (nat_eq v) (n.neighbors ++ id ∷ []) ≤ 1
      once-append v none_yet = elim (Bool-cases (nat_eq v id)) [
        | inl same ↦
            let e : v ≡ id = (nat_eq_iff v id).0 same in
            rw e (ground (arith, count-append (nat_eq id) n.neighbors (id ∷ []), none_yet))
        | inr other ↦ ground (arith, count-append (nat_eq v) n.neighbors (id ∷ []), h.links.once v)
      ]

  add_neighbor-core : (id : ℕ) (n : Node F) → core (some (add_neighbor id n)) ≡ core (some n)
  unfolding add_neighbor
  add_neighbor-core id n = ground arith

  -- The graph with a node that has been given a neighbour; its slot may have one link too many.
  pub add-IsGraph :
      (total dim m : ℕ) (Tight Tight' : ℕ → Type 0) (nodes : List (Node F)) (slot id : ℕ)
      → IsGraph total dim m Tight nodes
      → slot < total
      → id < total
      → ((s : ℕ) → nat_eq slot s ≡ false → Tight' s → Tight s)
      → (Tight' slot → ⊥)
      → (nodes' : List (Node F)) × (update_node (add_neighbor id) slot nodes ≡ some nodes')
        × IsGraph total dim m Tight' nodes'
        × SameCores nodes nodes'
  unfolding update_node
  add-IsGraph total dim m Tight Tight' nodes slot id g inside target weaker loose =
      let (n, at) = get_elem-some nodes slot (omega (arith, g.size)) in
      let v = add_neighbor id n in
      (
        set nodes slot v,
        rw (at, update_node) refl,
        set-IsGraph total dim m Tight Tight' nodes slot v g inside
            (add_neighbor-IsNode total dim slot id n (g.node slot n at) target) weaker
            (λ tight. absurd (loose tight)),
        set-SameCores nodes slot n v at (add_neighbor-core id n),
      )
