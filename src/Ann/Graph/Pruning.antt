-- ===== src/Ann/Graph/Pruning.antt =====
-- pruneNeighborsLocked of internal/index/ann/ann_index.go keeps the graph.
use lumenvec.Base.{
  ℕ, suc, ◌≤◌, ◌<◌, ◌≡◌, refl, sym, ap, ◌∙◌, Bool, false, List, [], ◌∷◌, some, length, leb, nat_eq,
  nat_eq_iff, map, arith, Bool-cases, inl, inr,
}
use lumenvec.Base.Arrays.{get_elem?, get_elem-some, set, count}
use lumenvec.Numeric.{Floats}
use lumenvec.Distance.{Arithmetic}
use lumenvec.Ann.{DistancePair, Node, lt64}
use lumenvec.Ann.Select.{nearest_first, nearest_ids}
use lumenvec.Ann.Select.Prefix.{nearest_first-Chosen, count-map_id}
use lumenvec.Ann.Insert.{pairs_to, prune_neighbors}
use lumenvec.Ann.Graph.{
  IsGraph, SameCores, set-SameCores, set-IsGraph, fewer-IsLinks, distance-some,
}

module _ (fl : Floats) (ar : Arithmetic fl) (total dim m : ℕ) where
  open fl use {F32, F64}

  pairs_to-some :
      (Tight : ℕ → Type 0) (nodes : List (Node F32)) (query : List F32) (slots : List ℕ)
      → IsGraph total dim m Tight nodes
      → length query ≡ dim
      → count (leb total) slots ≡ 0
      → (pairs : List (DistancePair F64)) × (pairs_to fl ar nodes query slots ≡ some pairs)
        × (map (λ c. c.id) pairs ≡ slots)
  unfolding pairs_to
  pairs_to-some Tight nodes query [] g fits inside = ([], refl, refl)
  pairs_to-some Tight nodes query (slot ∷ slots) g fits inside =
      let (d, near) =
        distance-some fl ar total dim m Tight nodes g query fits slot (ground arith) in
      let (pairs, rest, same) = pairs_to-some Tight nodes query slots g fits (ground arith) in
      (
        record { id = slot; distance = d } ∷ pairs,
        rw (near, pairs_to, rest) refl,
        ap (◌∷◌ slot) same,
      )

  pub nearest_ids-fewer :
      (pairs : List (DistancePair F64)) (k : ℕ)
      → ((p : ℕ → Bool)
          → count p (nearest_ids (lt64 fl ar) pairs k) ≤ count p (map (λ c. c.id) pairs))
        × (length (nearest_ids (lt64 fl ar) pairs k) ≤ k)
  unfolding nearest_ids
  nearest_ids-fewer pairs k =
      let first = nearest_first (lt64 fl ar) pairs k in
      let chosen = nearest_first-Chosen (lt64 fl ar) pairs k in
      (
        λ p. omega (
          arith,
          count-map_id (lt64 fl ar) p first,
          count-map_id (lt64 fl ar) p pairs,
          chosen.bag (λ c. p c.id),
        ),
        ground (arith, length-map_id first, chosen.size),
      )
    where
      length-map_id : (xs : List (DistancePair F64)) → length (map (λ c. c.id) xs) ≡ length xs
      length-map_id [] = refl
      length-map_id (x ∷ xs) = ap suc (length-map_id xs)

  -- Pruning makes a slot tight.
  pub prune-IsGraph :
      (Tight Tight' : ℕ → Type 0) (nodes : List (Node F32)) (slot : ℕ)
      → IsGraph total dim m Tight nodes
      → slot < total
      → ((s : ℕ) → nat_eq slot s ≡ false → Tight' s → Tight s)
      → (nodes' : List (Node F32)) × (prune_neighbors fl ar m slot nodes ≡ some nodes')
        × IsGraph total dim m Tight' nodes'
        × SameCores nodes nodes'
  unfolding prune_neighbors
  prune-IsGraph Tight Tight' nodes slot g inside weaker =
      let (n, at) = get_elem-some nodes slot (omega (arith, g.size)) in
      let here = g.node slot n at in
      elim (Bool-cases (leb (length n.neighbors) m)) [
        | inl few ↦ (
          nodes,
          rw (at, prune_neighbors, few) refl,
          record {
            size = g.size;
            node = g.node;
            short = λ s x at' tight. elim (Bool-cases (nat_eq slot s)) [
              | inr other ↦ g.short s x at' (weaker s other tight)
              | inl same ↦
                  let e : some n ≡ some x =
                    sym at ∙ ap (get_elem? nodes) ((nat_eq_iff slot s).0 same) ∙ at' in
                  ground (arith, e)
            ];
          },
          λ s. refl,
        )
        | inr many ↦
            let (pairs, found, same) =
              pairs_to-some Tight nodes n.vector n.neighbors g here.size here.links.inside in
            let (fewer, size) = nearest_ids-fewer pairs m in
            let keep = nearest_ids (lt64 fl ar) pairs m in
            let v : Node F32 = record n { neighbors = keep } in
            (
              set nodes slot v,
              rw (at, prune_neighbors, many, found) refl,
              set-IsGraph total dim m Tight Tight' nodes slot v g inside
                  (record {
                    place = here.place;
                    size = here.size;
                    links =
                        fewer-IsLinks total slot n.neighbors keep here.links
                          (λ p. omega (arith, fewer p, ap (count p) same));
                  })
                  weaker (λ tight. size),
              set-SameCores nodes slot n v at refl,
            )
      ]
