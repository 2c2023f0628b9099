-- ===== src/Service/Batch.antt =====
-- SearchBatch of internal/core/service.go, with the scan of the index on one goroutine; the chunks
-- of the parallel scan are scans of their own, on the same groups of four. Where the code panics on
-- an index out of range, the result is none.
pub mod Equivalence
pub mod Approximate
use lumenvec.Base.{
  ℕ, zero, suc, ◌+◌, ◌&&◌, Bool, true, false, List, [], ◌∷◌, Option, none, some, Text, Text-Eq,
  ◌==◌, bytes, length, nat_eq, Result, ok, err, invalid_values, if◌then◌else◌, ◌>>=◌, map,
}
use lumenvec.Base.Ints.{ℤ, pos}
use lumenvec.Base.Strings.{trim_space}
use lumenvec.Numeric.{Floats, to_float32}
use lumenvec.Index.{range_vectors32}
use lumenvec.Distance.{Arithmetic, squared_distance32, squared_distance32x4_same_len}
use lumenvec.TopK.{SearchResult, TopK, new_top_k, add, Sorting, results}
use lumenvec.Service.{Deps, Service}
use lumenvec.Service.Search.{SearchSettings, validate_search_request, search}

module _ (F64 : Type 0) where
  pub record BatchSearchQuery : Type 0 where
    pub id : Text
    pub values : List F64
    pub k : ℤ

  pub record BatchSearchResult : Type 0 where
    pub id : Text
    pub results : List (SearchResult F64)

module _ (d : Deps) (ar : Arithmetic d.floats) where
  open d use {floats}
  open floats use {F64, F32}

  -- preparedBatchQuery
  pub record Prepared : Type 0 where
    pub id : Text
    pub vals : List F64
    pub vals32 : List F32
    pub acc : TopK ar.rank

  -- The loop over the queries; `query_name i` is fmt.Sprintf("query-%d", i).
  unfoldable pub prepare :
      (ℕ → Text)
      → SearchSettings
      → ℕ
      → List (BatchSearchQuery F64)
      → Service d
      → Result (List Prepared)
  prepare query_name set i [] s = ok []
  prepare query_name set i (q ∷ qs) s = do
    _ ← validate_search_request d set q.values q.k s
    rest ← prepare query_name set (i + 1) qs s
    ok (
        record {
          id = if trim_space q.id == [] then query_name i else trim_space q.id;
          vals = q.values;
          vals32 = if set.search_mode == bytes "ann" then [] else to_float32 floats q.values;
          acc = new_top_k ar.rank q.k;
        }
        ∷ rest)

  abbrev pub add_result : Text → F64 → Prepared → Prepared
  add_result id dist p = record p { acc = add ar.rank (record { id = id; distance = dist }) p.acc }

  -- One query against one vector; a length that differs gives a distance that is NaN.
  unfoldable pub scan_single : Text → List F32 → Prepared → Option Prepared
  scan_single id values p = elim (squared_distance32 floats ar p.vals32 values) [
    | none ↦ none
    | some dist ↦ some (if ar.is_nan dist then p else add_result id dist p)
  ]

  abbrev pub both {ℓ} : {A : Type ℓ} → Option A → Option (List A) → Option (List A)
  both (some p) (some ps) = some (p ∷ ps)
  both _ _ = none

  unfoldable pub scan_singles : Text → List F32 → List Prepared → Option (List Prepared)
  scan_singles id values [] = some []
  scan_singles id values (p ∷ ps) = both (scan_single id values p) (scan_singles id values ps)

  abbrev pub fits : List F32 → Prepared → Bool
  fits values p = nat_eq (length p.vals32) (length values)

  -- A group of four queries against one vector, in front of what the others give.
  unfoldable pub scan_four :
      Text
      → List F32
      → Prepared
      → Prepared
      → Prepared
      → Prepared
      → Option (List Prepared)
      → Option (List Prepared)
  scan_four id values p0 p1 p2 p3 rest =
      if fits values p0 && fits values p1 && fits values p2 && fits values p3
      then elim (squared_distance32x4_same_len floats ar p0.vals32 p1.vals32 p2.vals32 p3.vals32
          values) [
            | none ↦ none
            | some (d0, d1, d2, d3) ↦ both (some (add_result id d0 p0)) (
                both (some (add_result id d1 p1))
                  (both (some (add_result id d2 p2)) (both (some (add_result id d3 p3)) rest)))
          ]
      else both (scan_single id values p0) (
          both (scan_single id values p1)
            (both (scan_single id values p2) (both (scan_single id values p3) rest)))

  -- The callback of scanExactBatch: groups of four, then the queries that are left.
  unfoldable pub scan_groups : Text → List F32 → List Prepared → Option (List Prepared)
  scan_groups id values (p0 ∷ p1 ∷ p2 ∷ p3 ∷ ps) =
      scan_four id values p0 p1 p2 p3 (scan_groups id values ps)
  scan_groups id values ps = scan_singles id values ps

  unfoldable pub scan_next :
      Text → List F32 → Option (List Prepared) → Option (List Prepared) × Bool
  scan_next id values none = (none, false)
  scan_next id values (some ps) = elim (scan_groups id values ps) [
    | none ↦ (none, false)
    | some ps' ↦ (some ps', true)
  ]

  unfoldable pub scan_exact_batch : List Prepared → Service d → Option (List Prepared)
  scan_exact_batch ps s = range_vectors32 floats scan_next s.index (some ps)

  unfoldable pub batch_results : Sorting ar.rank → List Prepared → List (BatchSearchResult F64)
  batch_results so [] = []
  batch_results so (p ∷ ps) =
      record { id = p.id; results = results ar.rank so ar.sqrt p.acc } ∷ batch_results so ps

  module _ (so : Sorting ar.rank)
      (ann_search : List F64 → ℤ → d.ann_index.State → Result (List (ℕ × F64))) where
    -- searchBatchANN with one worker; several run the same searches, of all queries.
    unfoldable pub search_batch_ann :
        SearchSettings → List Prepared → Service d → Option (Result (List (BatchSearchResult F64)))
    search_batch_ann set [] s = some (ok [])
    search_batch_ann set (p ∷ ps) s =
        elim (search d ar so ann_search set p.vals (pos p.acc.limit) s) [
          | none ↦ none
          | some (err e) ↦ some (err e)
          | some (ok hits) ↦ elim (search_batch_ann set ps s) [
            | none ↦ none
            | some (err e) ↦ some (err e)
            | some (ok rest) ↦ some (ok (record { id = p.id; results = hits } ∷ rest))
          ]
        ]

    -- SearchBatch
    unfoldable pub search_batch :
        (ℕ → Text)
        → SearchSettings
        → List (BatchSearchQuery F64)
        → Service d
        → Option (Result (List (BatchSearchResult F64)))
    search_batch query_name set [] s = some (err invalid_values)
    search_batch query_name set (q ∷ qs) s = elim (prepare query_name set 0 (q ∷ qs) s) [
      | err e ↦ some (err e)
      | ok ps ↦
          if set.search_mode == bytes "ann"
          then search_batch_ann set ps s
          else elim (scan_exact_batch ps s) [
            | none ↦ none
            | some ps' ↦ some (ok (batch_results so ps'))
          ]
    ]
