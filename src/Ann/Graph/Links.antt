-- ===== src/Ann/Graph/Links.antt =====
-- The loop of AddVector that links a new node keeps the graph.
use lumenvec.Base.{
  ℕ, ◌<◌, ◌≡◌, ◌≢◌, refl, List, [], ◌∷◌, some, leb, nat_eq, arith, Bool-cases, inl, inr,
}
use lumenvec.Base.Arrays.{count}
use lumenvec.Numeric.{Floats}
use lumenvec.Distance.{Arithmetic}
use lumenvec.Ann.{Node}
use lumenvec.Ann.Insert.{prune_neighbors, link_to, link_all}
use lumenvec.Ann.Graph.{IsGraph, SameCores, Any}
use lumenvec.Ann.Graph.Neighbors.{SameCores-trans, add-IsGraph}
use lumenvec.Ann.Graph.Pruning.{prune-IsGraph}

module _ (fl : Floats) (ar : Arithmetic fl) (total dim m : ℕ) where
  open fl use {F32, F64}

  -- While a new node is linked, only its own slot may have too many links.
  abbrev pub Other : ℕ → ℕ → Type 0
  Other slot s = s ≢ slot

  link_to-IsGraph :
      (nodes : List (Node F32)) (slot neighbor : ℕ)
      → IsGraph total dim m (Other slot) nodes
      → slot < total
      → neighbor < total
      → (nodes' : List (Node F32)) × (link_to fl ar m slot neighbor nodes ≡ some nodes')
        × IsGraph total dim m (Other slot) nodes'
        × SameCores nodes nodes'
  unfolding link_to
  link_to-IsGraph nodes slot neighbor g inside target = elim (Bool-cases (nat_eq neighbor slot)) [
    | inl self ↦ (nodes, rw (self, link_to) refl, g, λ s. refl)
    | inr other ↦
        let Both : ℕ → Type 0 = λ s. (s ≢ slot) × (s ≢ neighbor) in
        let (nodes1, first, g1, same1) =
          add-IsGraph total dim m (Other slot) (Other slot) nodes slot neighbor g inside target
            (λ s e tight. tight) (λ tight. tight refl) in
        let (nodes2, second, g2, same2) =
          add-IsGraph total dim m (Other slot) Both nodes1 neighbor slot g1 target inside
            (λ s e both. both.0) (λ both. both.1 refl) in
        let (nodes3, third, g3, same3) =
          prune-IsGraph fl ar total dim m Both (Other slot) nodes2 neighbor g2 target
            (λ s e tight. (tight, λ same. ground (arith, e, same))) in
        (
          nodes3,
          rw (other, link_to, first, second) third,
          g3,
          SameCores-trans nodes nodes1 nodes3 same1
              (SameCores-trans nodes1 nodes2 nodes3 same2 same3),
        )
  ]

  link_all-IsGraph :
      (slots : List ℕ) (nodes : List (Node F32)) (slot : ℕ)
      → IsGraph total dim m (Other slot) nodes
      → slot < total
      → count (leb total) slots ≡ 0
      → (nodes' : List (Node F32)) × (link_all fl ar m slot slots nodes ≡ some nodes')
        × IsGraph total dim m (Other slot) nodes'
        × SameCores nodes nodes'
  unfolding link_all
  link_all-IsGraph [] nodes slot g inside targets = (nodes, refl, g, λ s. refl)
  link_all-IsGraph (neighbor ∷ slots) nodes slot g inside targets =
      let (nodes1, first, g1, same1) =
        link_to-IsGraph nodes slot neighbor g inside (ground arith) in
      let (nodes2, rest, g2, same2) = link_all-IsGraph slots nodes1 slot g1 inside (ground arith) in
      (nodes2, rw (first, link_all) rest, g2, SameCores-trans nodes nodes1 nodes2 same1 same2)

  -- The loop over the slots to link, and the pruning of the new node.
  pub linked-IsGraph :
      (slots : List ℕ) (nodes : List (Node F32)) (slot : ℕ)
      → IsGraph total dim m Any nodes
      → slot < total
      → count (leb total) slots ≡ 0
      → (linked nodes' : List (Node F32)) × (link_all fl ar m slot slots nodes ≡ some linked)
        × (prune_neighbors fl ar m slot linked ≡ some nodes')
        × IsGraph total dim m Any nodes'
        × SameCores nodes nodes'
  linked-IsGraph slots nodes slot g inside targets =
      let loose : IsGraph total dim m (Other slot) nodes = record {
        size = g.size;
        node = g.node;
        short = λ s n at tight. g.short s n at tt;
      } in
      let (nodes1, first, g1, same1) = link_all-IsGraph slots nodes slot loose inside targets in
      let (nodes2, second, g2, same2) =
        prune-IsGraph fl ar total dim m (Other slot) Any nodes1 slot g1 inside
          (λ s e tight same. ground (arith, e, same)) in
      (nodes1, nodes2, first, second, g2, SameCores-trans nodes nodes1 nodes2 same1 same2)
