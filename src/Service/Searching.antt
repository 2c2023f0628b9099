-- ===== src/Service/Searching.antt =====
-- Exact search returns the nearest vectors of the index.
use lumenvec.Base.{
  ℕ, zero, suc, ◌<◌, ◌≤◌, Text-Eq, ◌==◌, bytes, done, ◌≡◌, refl, ◌∙◌, Bool, true, false, List, [],
  ◌∷◌, ◌++◌, none, some, Text, Map, length, arith, Bool-cases, inl, inr, if◌then◌else◌, All, ok,
  Result,
}
use lumenvec.Base.Ints.{ℤ, pos}
use lumenvec.Base.Arrays.{count, count-append}
use lumenvec.Numeric.{Floats, to_float32}
use lumenvec.Index.{StoredVector, range_entries32, range_vectors32}
use lumenvec.Distance.{Arithmetic, squared_distance32_same_len}
use lumenvec.Distance.Blocks.{squared_distance32-some}
use lumenvec.TopK.{SearchResult, TopK, new_top_k, add, Sorting, results}
use lumenvec.TopK.Order.{Items}
use lumenvec.TopK.Nearest.{Nearest, new-Nearest, add-Nearest}
use lumenvec.TopK.Results.{IsNearest, results-IsNearest}
use lumenvec.Service.{Deps, Service}
use lumenvec.Service.Search.{
  SearchSettings, validate_search_request, scan_vector, search_exact, search,
}

module _ (fl : Floats) (ar : Arithmetic fl) where
  open fl use {F64, F32}

  -- The stored vectors with their squared distances to a query, but for distances that are NaN.
  unfoldable pub candidate : List F32 → StoredVector fl → List (SearchResult F64)
  candidate query vec = elim (squared_distance32_same_len fl ar query vec.values) [
    | none ↦ []
    | some dist ↦ if ar.is_nan dist then [] else record { id = vec.id; distance = dist } ∷ []
  ]

  unfoldable pub candidates : List F32 → Map Text (StoredVector fl) → List (SearchResult F64)
  candidates query [] = []
  candidates query ((_, vec) ∷ m) = candidate query vec ++ candidates query m

  abbrev pub Fit : List F32 → Map Text (StoredVector fl) → Type 0
  Fit query = All (λ e. length query ≡ length e.1.values)

module _ (d : Deps) (ar : Arithmetic d.floats) (so : Sorting ar.rank) where
  open d use {floats, ann_index}
  open floats use {F64, F32}

  Nearest-bag :
      {k : ℕ} (old new : Items ar.rank) (a : TopK ar.rank)
      → ((p : SearchResult F64 → Bool) → count p old ≡ count p new)
      → Nearest ar.rank k old a
      → Nearest ar.rank k new a
  Nearest-bag old new a same h = record {
    bound = h.bound;
    ordered = h.ordered;
    rest = h.rest;
    bag = λ p. h.bag p ∙ same p;
    size = h.size;
    full = h.full;
    farther = h.farther;
  }

  scan_one :
      (query : List F32) (k : ℕ) (vec : StoredVector floats) (seen : Items ar.rank)
      (a : TopK ar.rank)
      → 0 < k
      → length query ≡ length vec.values
      → Nearest ar.rank k seen a
      → (a' : TopK ar.rank) × (scan_vector d ar so query vec.id vec.values (some a)
          ≡ (some a', true))
        × Nearest ar.rank k (candidate floats ar query vec ++ seen) a'
  unfolding scan_vector candidate
  scan_one query k vec seen a above fits h =
      let (dist, measured) = squared_distance32-some floats ar query vec.values fits in
      let item : SearchResult F64 = record { id = vec.id; distance = dist } in
      elim (Bool-cases (ar.is_nan dist)) [
        | inl none_there ↦
            (a, rw (measured, scan_vector, none_there) refl, rw (measured, candidate, none_there) h)
        | inr number ↦ (
          add ar.rank item a,
          rw (measured, scan_vector, number) refl,
          rw (measured, candidate, number) (add-Nearest ar.rank k seen a item above h),
        )
      ]

  -- What the scan has seen grows by a vector's candidate.
  scan-Nearest :
      (query : List F32) (k : ℕ) (m : Map Text (StoredVector floats)) (seen : Items ar.rank)
      (a : TopK ar.rank)
      → 0 < k
      → Fit floats ar query m
      → Nearest ar.rank k seen a
      → (a' : TopK ar.rank) × (range_entries32 floats (scan_vector d ar so query) m (some a)
          ≡ some a')
        × Nearest ar.rank k (candidates floats ar query m ++ seen) a'
  unfolding range_entries32 candidates
  scan-Nearest query k [] seen a above fit h = (a, refl, h)
  scan-Nearest query k ((id, vec) ∷ m) seen a above (first, fit) h =
      let (a1, scanned, one) = scan_one query k vec seen a above first h in
      let own = candidate floats ar query vec in
      let later = candidates floats ar query m in
      let (a', rest, all) = scan-Nearest query k m (own ++ seen) a1 above fit one in
      (
        a',
        rw scanned rest,
        Nearest-bag (later ++ (own ++ seen)) ((own ++ later) ++ seen) a'
            (λ p. omega (
              arith,
              count-append p later (own ++ seen),
              count-append p own seen,
              count-append p (own ++ later) seen,
              count-append p own later,
            ))
            all,
      )

  -- Search in exact mode over an index whose vectors have the length of the query, for a positive
  -- number of results: it does not panic, and returns the nearest of the vectors whose distance to
  -- the query is a number, that many or all that there are, from the nearest on.
  pub search_exact-IsNearest :
      (values : List F64) (k : ℕ) (s : Service d)
      → 0 < k
      → Fit floats ar (to_float32 floats values) s.index.vectors
      → (shown : List (SearchResult F64)) × (search_exact d ar so values (pos k) s ≡ some shown)
        × IsNearest ar.rank ar.sqrt k
            (candidates floats ar (to_float32 floats values) s.index.vectors)
            shown
  unfolding search_exact range_vectors32
  search_exact-IsNearest values k s above fit =
      let query = to_float32 floats values in
      let found = candidates floats ar query s.index.vectors in
      let (a, scanned, nearest) =
        scan-Nearest query k s.index.vectors [] (new_top_k ar.rank (pos k)) above fit
          (new-Nearest ar.rank (pos k)) in
      let all =
        Nearest-bag (found ++ []) found a (λ p. omega (arith, count-append p found [])) nearest in
      (
        results ar.rank so ar.sqrt a,
        rw (scanned, search_exact) refl,
        results-IsNearest ar.rank so ar.sqrt k found a all,
      )

  -- validateSearchRequest accepts a request exactly where it is within the limits.
  validate_search_request-done :
      (set : SearchSettings) (values : List F64) (k : ℕ) (s : Service d)
      → 0 < length values
      → length values ≤ s.max_vector_dim
      → 0 < k
      → k ≤ set.max_k
      → validate_search_request d set values (pos k) s ≡ done
  unfolding validate_search_request
  validate_search_request-done set values zero s inside fits above below = absurd (omega arith)
  validate_search_request-done set values (suc k) s inside fits above below = ground arith

  -- Search in exact mode, for a query and a number of results within the limits, over an index whose
  -- vectors have the length of the query: it does not panic and returns no error, but the nearest of
  -- the vectors whose distance to the query is a number, from the nearest on: as many as asked for,
  -- or all where there are fewer.
  pub search-IsNearest :
      (ann_search : List F64 → ℤ → ann_index.State → Result (List (ℕ × F64))) (set : SearchSettings)
      (values : List F64) (k : ℕ) (s : Service d)
      → set.search_mode == bytes "ann" ≡ false
      → 0 < length values
      → length values ≤ s.max_vector_dim
      → 0 < k
      → k ≤ set.max_k
      → Fit floats ar (to_float32 floats values) s.index.vectors
      → (shown : List (SearchResult F64)) × (search d ar so ann_search set values (pos k) s
          ≡ some (ok shown))
        × IsNearest ar.rank ar.sqrt k
            (candidates floats ar (to_float32 floats values) s.index.vectors)
            shown
  unfolding search
  search-IsNearest ann_search set values k s exact inside fits above below fit =
      let (shown, found, nearest) = search_exact-IsNearest values k s above fit in
      (
        shown,
        rw
            (
              validate_search_request-done set values k s inside fits above below,
              search,
              exact,
              found,
            )
            refl,
        nearest,
      )
