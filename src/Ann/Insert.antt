-- ===== src/Ann/Insert.antt =====
-- AddVector and DeleteVector of internal/index/ann/ann_index.go. none is an index out of range,
-- where Go panics.
use lumenvec.Base.{
  ℕ, ◌+◌, ◌-◌, Bool, true, false, not, List, [], ◌∷◌, ◌++◌, Option, none, some, length, ltb, leb,
  nat_eq, ℕ-Eq, lookup, insert, Result, err, done, invalid_vector_dim, if◌then◌else◌,
}
use lumenvec.Base.Arrays.{get_elem?, set}
use lumenvec.Numeric.{Floats, to_float32}
use lumenvec.Distance.{Arithmetic}
use lumenvec.Ann.{DistancePair, Node, Random, AnnIndex, distance_to, lt64}
use lumenvec.Ann.Select.{nearest_ids}
use lumenvec.Ann.Workspace.{Workspace, reset}
use lumenvec.Ann.Search.{search_candidates_with_workspace}

-- for _, existing := range n.neighbors
abbrev pub contains : ℕ → List ℕ → Bool
contains id [] = false
contains id (existing ∷ rest) = if nat_eq existing id then true else contains id rest

unfoldable pub add_neighbor : {F : Type 0} → ℕ → Node F → Node F
add_neighbor id n =
    if nat_eq id n.slot
    then n
    else if contains id n.neighbors
    then n
    else record n { neighbors = n.neighbors ++ id ∷ [] }

-- A call of a method on a node in place.
unfoldable pub update_node :
    {F : Type 0} → (Node F → Node F) → ℕ → List (Node F) → Option (List (Node F))
update_node f slot nodes = elim (get_elem? nodes slot) [
  | none ↦ none
  | some n ↦ some (set nodes slot (f n))
]

module _ (fl : Floats) (ar : Arithmetic fl) where
  open fl use {F32, F64}

  -- The distances of a vector to those of the neighbours.
  unfoldable pub pairs_to : List (Node F32) → List F32 → List ℕ → Option (List (DistancePair F64))
  pairs_to nodes query [] = some []
  pairs_to nodes query (slot ∷ slots) = elim (distance_to fl ar nodes query slot) [
    | none ↦ none
    | some dist ↦ elim (pairs_to nodes query slots) [
      | none ↦ none
      | some pairs ↦ some (record { id = slot; distance = dist } ∷ pairs)
    ]
  ]

  unfoldable pub prune_neighbors : ℕ → ℕ → List (Node F32) → Option (List (Node F32))
  prune_neighbors m slot nodes = elim (get_elem? nodes slot) [
    | none ↦ none
    | some n ↦
        if leb (length n.neighbors) m
        then some nodes
        else elim (pairs_to nodes n.vector n.neighbors) [
          | none ↦ none
          | some pairs ↦
              some (set nodes slot (record n { neighbors = nearest_ids (lt64 fl ar) pairs m }))
        ]
  ]

  -- One round of the loop over the slots to link.
  unfoldable pub link_to : ℕ → ℕ → ℕ → List (Node F32) → Option (List (Node F32))
  link_to m slot neighbor nodes =
      if nat_eq neighbor slot
      then some nodes
      else elim (update_node (add_neighbor neighbor) slot nodes) [
        | none ↦ none
        | some nodes1 ↦ elim (update_node (add_neighbor slot) neighbor nodes1) [
          | none ↦ none
          | some nodes2 ↦ prune_neighbors m neighbor nodes2
        ]
      ]

  unfoldable pub link_all : ℕ → ℕ → List ℕ → List (Node F32) → Option (List (Node F32))
  link_all m slot [] nodes = some nodes
  link_all m slot (neighbor ∷ neighbors) nodes = elim (link_to m slot neighbor nodes) [
    | none ↦ none
    | some nodes' ↦ link_all m slot neighbors nodes'
  ]

  module _ (rd : Random) where
    abbrev pub Ann : Type 0
    Ann = AnnIndex F32 rd.Source

    -- searchCandidates32Locked; what the other searches start with too
    unfoldable pub search_candidates32 :
        List F32 → ℕ → Ann → Workspace → Option (List (DistancePair F64) × Workspace)
    search_candidates32 query ef a ws =
        search_candidates_with_workspace fl ar a.nodes a.entrypoint query
          (if nat_eq ef 0 then a.ef_search else ef) (reset (length a.nodes) ws)

    -- AddVector for an id that is known already.
    unfoldable pub replace_vector : ℕ → List F32 → Ann → Option Ann
    replace_vector slot vec a = elim (get_elem? a.nodes slot) [
      | none ↦ none
      | some n ↦ elim (get_elem? a.deleted slot) [
        | none ↦ none
        | some gone ↦ some (record a {
          nodes = set a.nodes slot (record n { vector = vec });
          deleted = if gone then set a.deleted slot false else a.deleted;
          deleted_count = if gone then a.deleted_count - 1 else a.deleted_count;
        })
      ]
    ]

    -- The node, its slot and its flag.
    unfoldable pub append_node : ℕ → List F32 → Ann → Ann
    append_node id vec a =
        let slot = length a.nodes in
        record a {
          nodes = a.nodes ++ record { slot = slot; id = id; vector = vec; neighbors = [] } ∷ [];
          id_to_slot = insert id slot a.id_to_slot;
          deleted = a.deleted ++ false ∷ [];
        }

    -- AddVector from the search for neighbours on; `a` has the node already.
    unfoldable pub connect_node : ℕ → List F32 → Ann → Workspace → Option (Ann × Workspace)
    connect_node slot vec a ws = elim (search_candidates32 vec a.ef_construction a ws) [
      | none ↦ none
      | some (candidates, ws') ↦
          elim (link_all a.m slot (nearest_ids (lt64 fl ar) candidates a.m) a.nodes) [
            | none ↦ none
            | some linked ↦ elim (prune_neighbors a.m slot linked) [
              | none ↦ none
              | some nodes ↦
                  let (roll, rnd) = rd.intn 100 a.rnd in
                  some (
                    record a {
                      nodes = nodes;
                      entrypoint = if ltb roll 5 then slot else a.entrypoint;
                      rnd = rnd;
                    },
                    ws',
                  )
            ]
          ]
    ]

    unfoldable pub insert_node : ℕ → List F32 → Ann → Workspace → Option (Ann × Workspace)
    insert_node id vec a ws =
        let slot = length a.nodes in
        let grown = append_node id vec a in
        if a.has_entrypoint
        then connect_node slot vec grown ws
        else some (record grown { entrypoint = slot; has_entrypoint = true }, ws)

    -- AddVector once the dimension has been found to fit.
    unfoldable pub put_vector : ℕ → List F32 → Ann → Workspace → Option (Ann × Workspace)
    put_vector id vec a ws = elim (lookup id a.id_to_slot) [
      | some slot ↦ elim (replace_vector slot vec a) [ none ↦ none | some a' ↦ some (a', ws) ]
      | none ↦ insert_node id vec a ws
    ]

    -- The first vector fixes the dimension.
    abbrev pub with_dim : ℕ → Ann → Ann
    with_dim n a = record a { dim = if nat_eq a.dim 0 then n else a.dim }

    unfoldable pub add_vector :
        ℕ → List F64 → Ann → Workspace → Option (Result (Unit {0}) × Ann × Workspace)
    add_vector id vector a ws =
        let n = length vector in
        let sized = with_dim n a in
        if nat_eq n 0
        then some (err invalid_vector_dim, a, ws)
        else if not (nat_eq n sized.dim)
        then some (err invalid_vector_dim, sized, ws)
        else elim (put_vector id (to_float32 fl vector) sized ws) [
          | none ↦ none
          | some (a', ws') ↦ some (done, a', ws')
        ]

    unfoldable pub delete_vector : ℕ → Ann → Option Ann
    delete_vector id a = elim (lookup id a.id_to_slot) [
      | none ↦ some a
      | some slot ↦ elim (get_elem? a.deleted slot) [
        | none ↦ none
        | some true ↦ some a
        | some false ↦
            some
              (record a { deleted = set a.deleted slot true; deleted_count = a.deleted_count + 1 })
      ]
    ]
