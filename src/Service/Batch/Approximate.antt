-- ===== src/Service/Batch/Approximate.antt =====
-- SearchBatch of internal/core/service.go in ANN mode.
use lumenvec.Base.{
  ℕ, ◌+◌, ◌≡◌, refl, ap, ◌∙◌, ◌⊎◌, inl, inr, true, false, List, [], ◌∷◌, Option, none, some, Text,
  Text-Eq, text_eq_iff, invalid_values, ◌==◌, bytes, Error, Result, ok, err, done, if◌then◌else◌,
  Option-cases, Result-cases, Bool-cases, arith,
}
use lumenvec.Base.Ints.{ℤ, pos, negsuc, to_ℕ, is_nonpos}
use lumenvec.Base.Strings.{trim_space}
use lumenvec.Numeric.{to_float32}
use lumenvec.Distance.{Arithmetic}
use lumenvec.TopK.{SearchResult, Sorting, new_top_k}
use lumenvec.Service.{Deps, Service}
use lumenvec.Service.Search.{
  SearchSettings, validate_search_request, search, search_exact, search_ann,
}
use lumenvec.Service.Batch.{
  BatchSearchQuery, BatchSearchResult, Prepared, prepare, search_batch_ann, search_batch,
}

positive_pos : (k : ℤ) → is_nonpos k ≡ false → pos (to_ℕ k) ≡ k
positive_pos (pos n) h = refl
positive_pos (negsuc n) h = absurd (ground arith)

module _ (d : Deps) (ar : Arithmetic d.floats) (so : Sorting ar.rank)
    (ann_search : List d.floats.F64 → ℤ → d.ann_index.State → Result (List (ℕ × d.floats.F64)))
    (query_name : ℕ → Text) (set : SearchSettings) (s : Service d) where
  open d use {floats}
  open floats use {F64}

  validated-positive :
      (values : List F64) (k : ℤ)
      → validate_search_request d set values k s ≡ done
      → pos (to_ℕ k) ≡ k
  unfolding validate_search_request
  validated-positive values k h = elim (Bool-cases (is_nonpos k)) [
    | inl low ↦ absurd (ground (arith, h, low))
    | inr positive ↦ positive_pos k positive
  ]

  -- The first query that is refused is refused with `e`.
  abbrev pub Rejected : List (BatchSearchQuery F64) → Error → Type 0
  Rejected [] e = ⊥
  Rejected (q ∷ qs) e =
      (validate_search_request d set q.values q.k s ≡ err e)
      ⊎ ((validate_search_request d set q.values q.k s ≡ done) × Rejected qs e)

  -- Each query, from the `i`th on, is answered as Search answers it, under its id or its number.
  abbrev pub Served : ℕ → List (BatchSearchQuery F64) → List (BatchSearchResult F64) → Type 0
  Served i [] [] = Unit
  Served i (q ∷ qs) (r ∷ rs) =
      (search d ar so ann_search set q.values q.k s ≡ some (ok r.results))
      × (r.id ≡ (if trim_space q.id == [] then query_name i else trim_space q.id))
      × Served (i + 1) qs rs
  Served i _ _ = ⊥

  -- Search panics on one of the queries.
  abbrev pub Panics : List (BatchSearchQuery F64) → Type 0
  Panics [] = ⊥
  Panics (q ∷ qs) = (search d ar so ann_search set q.values q.k s ≡ none) ⊎ Panics qs

  abbrev prepared : ℕ → BatchSearchQuery F64 → Prepared d ar
  prepared i q = record {
    id = if trim_space q.id == [] then query_name i else trim_space q.id;
    vals = q.values;
    vals32 = if set.search_mode == bytes "ann" then [] else to_float32 floats q.values;
    acc = new_top_k ar.rank q.k;
  }

  -- The queries as SearchBatch prepares them, from the `i`th on.
  abbrev Ready : ℕ → List (BatchSearchQuery F64) → List (Prepared d ar) → Type 0
  Ready i [] [] = Unit
  Ready i (q ∷ qs) (p ∷ ps) =
      (validate_search_request d set q.values q.k s ≡ done)
      × (p.vals ≡ q.values)
      × (pos p.acc.limit ≡ q.k)
      × (p.id ≡ (if trim_space q.id == [] then query_name i else trim_space q.id))
      × Ready (i + 1) qs ps
  Ready i _ _ = ⊥

  prepare-Ready :
      (i : ℕ) (qs : List (BatchSearchQuery F64))
      → ((e : Error) × (prepare d ar query_name set i qs s ≡ err e) × Rejected qs e)
        ⊎ ((ps : List (Prepared d ar)) × (prepare d ar query_name set i qs s ≡ ok ps)
            × Ready i qs ps)
  unfolding prepare new_top_k
  prepare-Ready i [] = inr ([], refl, tt)
  prepare-Ready i (q ∷ qs) = elim (Result-cases (validate_search_request d set q.values q.k s)) [
    | inr (e, bad) ↦ inl (e, rw (bad, prepare) refl, inl bad)
    | inl (u, good) ↦ elim (prepare-Ready (i + 1) qs) [
      | inl (e, same, bad) ↦ inl (e, rw (good, prepare, same) refl, inr (good, bad))
      | inr (ps, same, ready) ↦ inr (
        prepared i q ∷ ps,
        rw (good, prepare, same) refl,
        (good, refl, validated-positive q.values q.k good, refl, ready),
      )
    ]
  ]

  search-validated :
      (values : List F64) (k : ℤ)
      → validate_search_request d set values k s ≡ done
      → (search d ar so ann_search set values k s ≡ none)
        ⊎ ((rs : List (SearchResult F64)) × (search d ar so ann_search set values k s
              ≡ some (ok rs)))
  unfolding search
  search-validated values k good = elim (Option-cases (search_exact d ar so values k s)) [
    | inl out ↦ elim (Bool-cases (set.search_mode == bytes "ann")) [
      | inr exact ↦ inl (rw (good, search, exact, out) refl)
      | inl ann ↦ elim (Option-cases (search_ann d ar so ann_search values k s)) [
        | inl missed ↦ inl (rw (good, search, ann, missed, out) refl)
        | inr (rs, hit) ↦ inr (rs, rw (good, search, ann, hit) refl)
      ]
    ]
    | inr (rs, found) ↦ elim (Bool-cases (set.search_mode == bytes "ann")) [
      | inr exact ↦ inr (rs, rw (good, search, exact, found) refl)
      | inl ann ↦ elim (Option-cases (search_ann d ar so ann_search values k s)) [
        | inl missed ↦ inr (rs, rw (good, search, ann, missed, found) refl)
        | inr (hits, hit) ↦ inr (hits, rw (good, search, ann, hit) refl)
      ]
    ]
  ]

  search_batch_ann-Served :
      (i : ℕ) (qs : List (BatchSearchQuery F64)) (ps : List (Prepared d ar))
      → Ready i qs ps
      → ((rs : List (BatchSearchResult F64)) × (search_batch_ann d ar so ann_search set ps s
            ≡ some (ok rs))
          × Served i qs rs)
        ⊎ ((search_batch_ann d ar so ann_search set ps s ≡ none) × Panics qs)
  unfolding search_batch_ann
  search_batch_ann-Served i [] [] ready = inl ([], refl, tt)
  search_batch_ann-Served i [] (p ∷ ps) ready = absurd ready
  search_batch_ann-Served i (q ∷ qs) [] ready = absurd ready
  search_batch_ann-Served i (q ∷ qs) (p ∷ ps) (good, values, limit, name, ready) =
      let alone : List F64 → ℤ → Option (Result (List (SearchResult F64))) =
        λ v k. search d ar so ann_search set v k s in
      let same_search : alone p.vals (pos p.acc.limit) ≡ alone q.values q.k =
        ap (λ (v : List F64). alone v (pos p.acc.limit)) values ∙ ap (alone q.values) limit in
      elim (search-validated q.values q.k good) [
        | inl panic ↦ inr (rw (same_search ∙ panic, search_batch_ann) refl, inl panic)
        | inr (hits, hit) ↦ elim (search_batch_ann-Served (i + 1) qs ps ready) [
          | inl (rs, same, served) ↦ inl (
            record { id = p.id; results = hits } ∷ rs,
            rw (same_search ∙ hit, search_batch_ann, same) refl,
            (hit, name, served),
          )
          | inr (same, panics) ↦
              inr (rw (same_search ∙ hit, search_batch_ann, same) refl, inr panics)
        ]
      ]

  abbrev pub Outcome : List (BatchSearchQuery F64) → Type 0
  Outcome qs =
      ((qs ≡ [])
        × (search_batch d ar so ann_search query_name set qs s ≡ some (err invalid_values)))
      ⊎ ((e : Error) × (search_batch d ar so ann_search query_name set qs s ≡ some (err e))
          × Rejected qs e)
      ⊎ ((rs : List (BatchSearchResult F64)) × (search_batch d ar so ann_search query_name set qs s
            ≡ some (ok rs))
          × Served 0 qs rs)
      ⊎ ((search_batch d ar so ann_search query_name set qs s ≡ none) × Panics qs)

  -- In ANN mode, SearchBatch refuses an empty batch, and a batch with an invalid query with the
  -- error of the first such query. Otherwise it answers each query as Search answers it alone, in
  -- order and under its trimmed id, or its number where that is empty, and it panics only where
  -- Search panics on one of the queries.
  pub search_batch-Outcome :
      (qs : List (BatchSearchQuery F64)) → set.search_mode ≡ bytes "ann" → Outcome qs
  unfolding search_batch
  search_batch-Outcome [] mode = inl (refl, refl)
  search_batch-Outcome (q ∷ qs) mode =
      let ann : (set.search_mode == bytes "ann") ≡ true =
        (text_eq_iff set.search_mode (bytes "ann")).1 mode in
      elim (prepare-Ready 0 (q ∷ qs)) [
        | inl (e, same, bad) ↦ inr (inl (e, rw (same, search_batch) refl, bad))
        | inr (ps, same, ready) ↦ elim (search_batch_ann-Served 0 (q ∷ qs) ps ready) [
          | inl (rs, answered, served) ↦
              inr (inr (inl (rs, rw (same, search_batch, ann, answered) refl, served)))
          | inr (answered, panics) ↦
              inr (inr (inr (rw (same, search_batch, ann, answered) refl, panics)))
        ]
      ]
