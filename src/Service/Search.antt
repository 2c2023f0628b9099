-- ===== src/Service/Search.antt =====
-- Search of internal/core/service.go over the default index. Where the code panics on an index out
-- of range, the result is none; the statistics are left out.
use lumenvec.Base.{
  ℕ, Bool, true, false, List, [], ◌∷◌, Option, none, some, Text, Text-Eq, ◌==◌, bytes, length, ltb,
  Result, ok, err, done, nat_eq, invalid_values, invalid_k, k_too_high, vector_dim_too_high,
  if◌then◌else◌, map,
}
use lumenvec.Base.Ints.{ℤ, is_nonpos, is_above}
use lumenvec.Base.Strings.{trim_space, to_lower}
use lumenvec.Numeric.{to_float32}
use lumenvec.Index.{range_vectors32}
use lumenvec.Resolver.{resolve}
use lumenvec.Distance.{Arithmetic, squared_distance32_same_len}
use lumenvec.TopK.{SearchResult, TopK, new_top_k, add, Sorting, with_root, results}
use lumenvec.Service.{Deps, Service}

unfoldable pub normalize_search_mode : Text → Text
normalize_search_mode mode =
    let m = to_lower (trim_space mode) in if m == bytes "ann" then m else bytes "exact"

-- The fields of Service that only the searches read; maxK is positive, as the server passes it.
pub record SearchSettings : Type 0 where
  pub max_k : ℕ
  pub search_mode : Text

module _ (d : Deps) where
  open d use {floats, ann_index}
  open floats use {F64, F32}

  unfoldable pub validate_search_request :
      SearchSettings → List F64 → ℤ → Service d → Result (Unit {0})
  validate_search_request set values k s =
      if nat_eq (length values) 0
      then err invalid_values
      else if is_nonpos k
      then err invalid_k
      else if is_above k set.max_k
      then err (k_too_high set.max_k)
      else if ltb s.max_vector_dim (length values)
      then err (vector_dim_too_high s.max_vector_dim)
      else done

  module _ (ar : Arithmetic floats) (so : Sorting ar.rank) where
    -- The callback of searchExact; a panic ends the loop.
    unfoldable pub scan_vector :
        List F32 → Text → List F32 → Option (TopK ar.rank) → Option (TopK ar.rank) × Bool
    scan_vector query id values none = (none, false)
    scan_vector query id values (some acc) =
        elim (squared_distance32_same_len floats ar query values) [
          | none ↦ (none, false)
          | some dist ↦ (
            some (
                if ar.is_nan dist
                then acc
                else add ar.rank (record { id = id; distance = dist }) acc),
            true,
          )
        ]

    unfoldable pub search_exact : List F64 → ℤ → Service d → Option (List (SearchResult F64))
    search_exact values k s =
        let query = to_float32 floats values in
        let scanned =
          range_vectors32 floats (scan_vector query) s.index (some (new_top_k ar.rank k)) in
        elim scanned [ none ↦ none | some acc ↦ some (results ar.rank so ar.sqrt acc) ]

    module _ (ann_search : List F64 → ℤ → ann_index.State → Result (List (ℕ × F64))) where
      -- The loop of searchANN over the candidates.
      unfoldable pub named_candidates : List (ℕ × F64) → Service d → List (SearchResult F64)
      named_candidates [] s = []
      named_candidates ((internal, dist) ∷ cs) s =
          let rest = named_candidates cs s in
          elim (resolve internal s.resolver) [
            | none ↦ rest
            | some id ↦ if ar.is_nan dist then rest else record { id = id; distance = dist } ∷ rest
          ]

      -- The results, or none where there are none and exact search takes over.
      unfoldable pub search_ann : List F64 → ℤ → Service d → Option (List (SearchResult F64))
      search_ann values k s = elim (ann_search values k s.ann) [
        | err e ↦ none
        | ok candidates ↦ elim (named_candidates candidates s) [
          | [] ↦ none
          | r ∷ rs ↦ some (map (with_root ar.rank ar.sqrt) (r ∷ rs))
        ]
      ]

      unfoldable pub search :
          SearchSettings → List F64 → ℤ → Service d → Option (Result (List (SearchResult F64)))
      search set values k s =
          let exact : Option (Result (List (SearchResult F64))) = elim (search_exact values k s) [
            | none ↦ none
            | some rs ↦ some (ok rs)
          ] in
          elim (validate_search_request set values k s) [
            | err e ↦ some (err e)
            | ok _ ↦
                if set.search_mode == bytes "ann"
                then elim (search_ann values k s) [ none ↦ exact | some rs ↦ some (ok rs) ]
                else exact
          ]
