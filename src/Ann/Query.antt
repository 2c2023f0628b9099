-- ===== src/Ann/Query.antt =====
-- The searches of internal/index/ann/ann_index.go. none is an index out of range, where Go panics.
use lumenvec.Base.{
  ℕ, Bool, false, List, [], ◌∷◌, Option, none, some, length, nat_eq, Result, ok, err, invalid_k,
  invalid_vector_dim, if◌then◌else◌, ◌||◌, not,
}
use lumenvec.Base.Ints.{ℤ, is_nonpos, to_ℕ}
use lumenvec.Base.Arrays.{get_elem?}
use lumenvec.Numeric.{Floats, to_float32}
use lumenvec.Distance.{Arithmetic}
use lumenvec.Ann.{DistancePair, Node, Random, lt64}
use lumenvec.Ann.Select.{nearest_first}
use lumenvec.Ann.Workspace.{Workspace}
use lumenvec.Ann.Insert.{Ann, search_candidates32}

-- ann.Result
pub record AnnResult (D : Type 0) : Type 0 where
  pub id : ℕ
  pub distance : D

-- ann.Stats
pub record Stats : Type 0 where
  pub nodes : ℕ
  pub deleted : ℕ

-- Whether a slot is marked as deleted; one out of range is not.
abbrev pub is_deleted : Option Bool → Bool
is_deleted none = false
is_deleted (some gone) = gone

module _ {D : Type 0} (deleted : List Bool) where
  unfoldable pub drop_deleted : List (DistancePair D) → List (DistancePair D)
  drop_deleted [] = []
  drop_deleted (c ∷ rest) =
      let live = drop_deleted rest in if is_deleted (get_elem? deleted c.id) then live else c ∷ live

module _ (fl : Floats) (ar : Arithmetic fl) (rd : Random) where
  open fl use {F32, F64}

  unfoldable pub live_candidates : Ann fl ar rd → List (DistancePair F64) → List (DistancePair F64)
  live_candidates a candidates =
      if nat_eq a.deleted_count 0 then candidates else drop_deleted a.deleted candidates

  unfoldable pub to_results :
      List (Node F32) → List (DistancePair F64) → Option (List (AnnResult F64))
  to_results nodes [] = some []
  to_results nodes (c ∷ rest) = elim (get_elem? nodes c.id) [
    | none ↦ none
    | some n ↦ elim (to_results nodes rest) [
      | none ↦ none
      | some results ↦ some (record { id = n.id; distance = c.distance } ∷ results)
    ]
  ]

  unfoldable pub to_ids : List (Node F32) → List (DistancePair F64) → Option (List ℕ)
  to_ids nodes [] = some []
  to_ids nodes (c ∷ rest) = elim (get_elem? nodes c.id) [
    | none ↦ none
    | some n ↦ elim (to_ids nodes rest) [ none ↦ none | some ids ↦ some (n.id ∷ ids) ]
  ]

  unfoldable pub nearest_external_ids : Ann fl ar rd → List (DistancePair F64) → ℕ → Option (List ℕ)
  nearest_external_ids a candidates k = to_ids a.nodes (nearest_first (lt64 fl ar) candidates k)

  unfoldable pub nearest_results :
      Ann fl ar rd → List (DistancePair F64) → ℕ → Option (List (AnnResult F64))
  nearest_results a candidates k = to_results a.nodes (nearest_first (lt64 fl ar) candidates k)

  -- searchIDs64Locked
  unfoldable pub search_ids : List F64 → ℕ → Ann fl ar rd → Workspace → Option (List ℕ × Workspace)
  search_ids query k a ws =
      elim (search_candidates32 fl ar rd (to_float32 fl query) a.ef_search a ws) [
        | none ↦ none
        | some (candidates, ws') ↦ elim (nearest_external_ids a (live_candidates a candidates) k) [
          | none ↦ none
          | some ids ↦ some (ids, ws')
        ]
      ]

  -- searchResults64Locked
  unfoldable pub search_results :
      List F64 → ℕ → Ann fl ar rd → Workspace → Option (List (AnnResult F64) × Workspace)
  search_results query k a ws =
      elim (search_candidates32 fl ar rd (to_float32 fl query) a.ef_search a ws) [
        | none ↦ none
        | some (candidates, ws') ↦ elim (nearest_results a (live_candidates a candidates) k) [
          | none ↦ none
          | some results ↦ some (results, ws')
        ]
      ]

  -- SearchWithDistancesInto
  unfoldable pub search_with_distances :
      List F64 → ℤ → Ann fl ar rd → Workspace → Option (Result (List (AnnResult F64)) × Workspace)
  search_with_distances query k a ws =
      if is_nonpos k
      then some (err invalid_k, ws)
      else if nat_eq (length query) 0 || not (nat_eq (length query) a.dim)
      then some (err invalid_vector_dim, ws)
      else if nat_eq (length a.nodes) 0
      then some (ok [], ws)
      else elim (search_results query (to_ℕ k) a ws) [
        | none ↦ none
        | some (results, ws') ↦ some (ok results, ws')
      ]

  unfoldable pub search :
      List F64 → ℤ → Ann fl ar rd → Workspace → Option (Result (List ℕ) × Workspace)
  search query k a ws =
      if is_nonpos k
      then some (err invalid_k, ws)
      else if nat_eq (length query) 0 || not (nat_eq (length query) a.dim)
      then some (err invalid_vector_dim, ws)
      else if nat_eq (length a.nodes) 0
      then some (ok [], ws)
      else elim (search_ids query (to_ℕ k) a ws) [
        | none ↦ none
        | some (ids, ws') ↦ some (ok ids, ws')
      ]

  unfoldable pub stats : Ann fl ar rd → Stats
  stats a = record { nodes = length a.nodes; deleted = a.deleted_count }
