-- ===== src/Ann/Valid/Ids.antt =====
-- Search of the ANN index, which returns ids without their distances.
use lumenvec.Base.{
  ℕ, ◌≡◌, refl, inl, inr, ◌||◌, not, List, [], ◌∷◌, Option, none, some, length, map, nat_eq,
  Bool-cases, Option-cases, Result, ok, err,
}
use lumenvec.Base.Ints.{ℤ, is_nonpos, to_ℕ}
use lumenvec.Base.Arrays.{get_elem?}
use lumenvec.Numeric.{Floats, to_float32}
use lumenvec.Distance.{Arithmetic}
use lumenvec.Ann.{DistancePair, Node, Random, lt64}
use lumenvec.Ann.Select.{nearest_first}
use lumenvec.Ann.Workspace.{Workspace}
use lumenvec.Ann.Insert.{Ann, search_candidates32}
use lumenvec.Ann.Query.{
  AnnResult, live_candidates, to_results, to_ids, nearest_results, nearest_external_ids,
  search_results, search_ids, search, search_with_distances,
}

module _ (fl : Floats) (ar : Arithmetic fl) (rd : Random) where
  open fl use {F32, F64}

  abbrev pub ids_of : List (AnnResult F64) → List ℕ
  ids_of rs = map (λ r. r.id) rs

  abbrev pub ids_or_none : Option (List (AnnResult F64)) → Option (List ℕ)
  ids_or_none none = none
  ids_or_none (some rs) = some (ids_of rs)

  abbrev pub found_ids : Option (List (AnnResult F64) × Workspace) → Option (List ℕ × Workspace)
  found_ids none = none
  found_ids (some (rs, ws)) = some (ids_of rs, ws)

  -- The answer of a search without the distances.
  abbrev pub only_ids :
      Option (Result (List (AnnResult F64)) × Workspace) → Option (Result (List ℕ) × Workspace)
  only_ids none = none
  only_ids (some (err e, ws)) = some (err e, ws)
  only_ids (some (ok rs, ws)) = some (ok (ids_of rs), ws)

  to_ids-to_results :
      (nodes : List (Node F32)) (cs : List (DistancePair F64))
      → to_ids fl ar rd nodes cs ≡ ids_or_none (to_results fl ar rd nodes cs)
  unfolding to_ids to_results
  to_ids-to_results nodes [] = refl
  to_ids-to_results nodes (c ∷ cs) = elim (Option-cases (get_elem? nodes c.id)) [
    | inl out ↦ rw (out, to_ids, to_results) refl
    | inr (n, at) ↦
        let rest = to_ids-to_results nodes cs in
        elim (Option-cases (to_results fl ar rd nodes cs)) [
          | inl out ↦ rw (at, to_ids, to_results, rest, out) refl
          | inr (rs, same) ↦ rw (at, to_ids, to_results, rest, same) refl
        ]
  ]

  search_ids-search_results :
      (query : List F64) (k : ℕ) (a : Ann fl ar rd) (ws : Workspace)
      → search_ids fl ar rd query k a ws ≡ found_ids (search_results fl ar rd query k a ws)
  unfolding search_ids search_results nearest_external_ids nearest_results
  search_ids-search_results query k a ws =
      elim (Option-cases (search_candidates32 fl ar rd (to_float32 fl query) a.ef_search a ws)) [
        | inl out ↦ rw (out, search_ids, search_results) refl
        | inr ((cs, ws'), searched) ↦
            let first = nearest_first (lt64 fl ar) (live_candidates fl ar rd a cs) k in
            let same = to_ids-to_results a.nodes first in
            elim (Option-cases (to_results fl ar rd a.nodes first)) [
              | inl out ↦ rw (searched, search_ids, search_results, same, out) refl
              | inr (rs, e) ↦ rw (searched, search_ids, search_results, same, e) refl
            ]
      ]

  -- Search answers as SearchWithDistancesInto does, error, panic and workspace included, with the
  -- ids of its results, in their order.
  pub search-search_with_distances :
      (query : List F64) (k : ℤ) (a : Ann fl ar rd) (ws : Workspace)
      → search fl ar rd query k a ws ≡ only_ids (search_with_distances fl ar rd query k a ws)
  unfolding search search_with_distances
  search-search_with_distances query k a ws = elim (Bool-cases (is_nonpos k)) [
    | inl low ↦ rw low refl
    | inr positive ↦
        elim (Bool-cases (nat_eq (length query) 0 || not (nat_eq (length query) a.dim))) [
          | inl other ↦ rw (positive, other) refl
          | inr fits ↦ elim (Bool-cases (nat_eq (length a.nodes) 0)) [
            | inl empty ↦ rw (positive, fits, empty) refl
            | inr inhabited ↦
                let same = search_ids-search_results query (to_ℕ k) a ws in
                elim (Option-cases (search_results fl ar rd query (to_ℕ k) a ws)) [
                  | inl out ↦ rw (positive, fits, inhabited, same, out) refl
                  | inr ((rs, ws'), e) ↦ rw (positive, fits, inhabited, same, e) refl
                ]
          ]
        ]
  ]
