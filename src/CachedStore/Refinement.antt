-- ===== src/CachedStore/Refinement.antt =====
-- The cached store behaves as the store behind it: it fills the interface VectorStore.
use lumenvec.Base.{
  ℕ, ◌≡◌, refl, ap, ◌∙◌, inl, inr, List, [], ◌∷◌, Option, none, some, Text, Text-Eq, text_eq_iff,
  ◌==◌, arith, Result, ok, done, Option-cases, if◌then◌else◌,
}
use lumenvec.Numeric.{Floats, Vector, to_float64}
use lumenvec.VectorStore.{VectorStore, or_else, latest, get_outcome, delete_outcome}
use lumenvec.CachedStore.{Cache, get_cached_read_only32}
use lumenvec.CachedStore.Counting.{cached}
use lumenvec.CachedStore.Reading.{Shrinks, remove-Shrinks, get_cached-Shrinks}
use lumenvec.CachedStore.Store.{
  CachedStore, upsert_vectors, get_cached, fetch, finish, get_vector, delete_vector, list_vectors,
  is_persistent,
}
use lumenvec.CachedStore.Coherence.{
  view, Agrees, IsValid, put_all-Agrees, counted_miss, counted_miss-IsValid, put-held,
}

module _ (fl : Floats) (vs : VectorStore fl) (clock : ℕ → ℕ) where
  open fl use {F64, F32}

  -- UpsertVectors on a valid state (the cache counts rightly, is within its limits and agrees with
  -- the store behind it) succeeds and leads to a valid state, in which each id of the batch has its
  -- last values and any other id what it had.
  pub upsert-stored :
      (vecs : List (Vector F64)) (s : CachedStore fl vs)
      → IsValid fl vs clock s
      → ((upsert_vectors fl vs clock vecs s).0 ≡ done)
        × IsValid fl vs clock (upsert_vectors fl vs clock vecs s).1
        × ((j : Text)
            → view fl vs clock (upsert_vectors fl vs clock vecs s).1 j
              ≡ or_else (latest fl j vecs) (view fl vs clock s j))
  unfolding upsert_vectors view
  upsert-stored [] s h = (refl, h, λ j. refl)
  upsert-stored (vec ∷ vecs) s h =
      let (cache, agrees) =
        put_all-Agrees fl vs clock (vec ∷ vecs) (vs.view s.backend)
          (vs.view (vs.upsert_vectors (vec ∷ vecs) s.backend).1) s.cache h.cache h.agrees
          (λ j. vs.view-upsert (vec ∷ vecs) s.backend j h.backend) in
      rw (vs.upsert-done (vec ∷ vecs) s.backend h.backend, upsert_vectors)
        (
          refl,
          record {
            backend = vs.upsert-IsValid (vec ∷ vecs) s.backend h.backend;
            cache = cache;
            agrees = agrees;
          },
          λ j. vs.view-upsert (vec ∷ vecs) s.backend j h.backend,
        )

  -- GetVector returns what the store holds, and leaves it so.
  pub record Gets (id : Text) (s : CachedStore fl vs) (r : Result (Vector F64) × CachedStore fl vs)
      : Type 0 where
    pub outcome : r.0 ≡ get_outcome fl id (view fl vs clock s id)
    pub valid : IsValid fl vs clock r.1
    pub same : (j : Text) → view fl vs clock r.1 j ≡ view fl vs clock s j

  finish-Gets :
      (id : Text) (s : CachedStore fl vs)
      → IsValid fl vs clock s
      → Gets id s (finish fl vs clock (fetch fl vs clock id s).0 (fetch fl vs clock id s).1)
  unfolding fetch finish view counted_miss
  finish-Gets id s h =
      let b = (vs.get_vector id s.backend).1 in
      let c = counted_miss fl vs clock s.cache in
      let valid = vs.get-IsValid id s.backend h.backend in
      let cache = counted_miss-IsValid fl vs clock s.cache h.cache in
      let answer = vs.get-view id s.backend h.backend in
      let same : (j : Text) → vs.view b j ≡ vs.view s.backend j =
        λ j. vs.view-get id s.backend j h.backend in
      let agrees : Agrees fl vs clock (vs.view b) c = λ j. ground (arith, h.agrees j, same j) in
      elim (Option-cases (vs.view s.backend id)) [
        | inl missing ↦
            rw (answer, finish, missing)
              (record {
                outcome = rw missing refl;
                valid = record { backend = valid; cache = cache; agrees = agrees };
                same = same;
              })
        | inr (v, held) ↦
            let (cache', agrees') = put-held fl vs clock id v b c cache agrees (same id ∙ held) in
            rw (answer, finish, held)
              (record {
                outcome = rw held refl;
                valid = record { backend = valid; cache = cache'; agrees = agrees' };
                same = same;
              })
      ]

  -- A hit.
  hit-Gets :
      (id : Text) (v : List F32) (c : Cache fl) (s : CachedStore fl vs)
      → IsValid fl vs clock s
      → Shrinks fl s.cache c
      → cached fl s.cache id ≡ some v
      → Gets id s (ok (record { id = id; values = to_float64 fl v }), record s { cache = c })
  unfolding view
  hit-Gets id v c s h shrinks hit =
      let held : vs.view s.backend id ≡ some v = ground (arith, h.agrees id, hit) in
      record {
        outcome = rw held refl;
        valid = record {
          backend = h.backend;
          cache = shrinks.valid;
          agrees = λ j. ground (arith, shrinks.kept j, h.agrees j);
        };
        same = λ j. refl;
      }

  -- GetVector after its look into the cache.
  unfoldable pub answered :
      Text
      → CachedStore fl vs
      → Option (Vector F64) × Cache fl
      → Result (Vector F64) × CachedStore fl vs
  answered id s (hit, c) = elim hit [
    | some vec ↦ (ok vec, record s { cache = c })
    | none ↦ let (r, s') = fetch fl vs clock id (record s { cache = c }) in finish fl vs clock r s'
  ]

  pub get_vector_miss :
      (id : Text) (s : CachedStore fl vs)
      → (get_cached_read_only32 fl clock id s.cache).0 ≡ none
      → get_vector fl vs clock id s
        ≡ answered id s (none, (get_cached_read_only32 fl clock id s.cache).1)
  unfolding get_vector get_cached answered
  get_vector_miss id s miss =
      let r : get_cached fl vs clock id s.cache
          ≡ (none, (get_cached_read_only32 fl clock id s.cache).1) =
        rw (miss, get_cached) refl in
      ap (answered id s) r

  pub get_vector_hit :
      (id : Text) (v : List F32) (s : CachedStore fl vs)
      → (get_cached_read_only32 fl clock id s.cache).0 ≡ some v
      → get_vector fl vs clock id s
        ≡ answered id s (
          some (record { id = id; values = to_float64 fl v }),
          (get_cached_read_only32 fl clock id s.cache).1,
        )
  unfolding get_vector get_cached answered
  get_vector_hit id v s hit =
      let r : get_cached fl vs clock id s.cache ≡ (
        some (record { id = id; values = to_float64 fl v }),
        (get_cached_read_only32 fl clock id s.cache).1,
      ) =
        rw (hit, get_cached) refl in
      ap (answered id s) r

  -- From a valid state, GetVector answers as the view of the store behind the cache says, found or
  -- not found, whether the cache has the id or not; the state after it is valid and has that view.
  pub get_vector-Gets :
      (id : Text) (s : CachedStore fl vs)
      → IsValid fl vs clock s
      → Gets id s (get_vector fl vs clock id s)
  unfolding answered view
  get_vector-Gets id s h =
      let (shrinks, answer) = get_cached-Shrinks fl clock id s.cache h.cache in
      let c = (get_cached_read_only32 fl clock id s.cache).1 in
      elim (Option-cases (get_cached_read_only32 fl clock id s.cache).0) [
        | inr (v, hit) ↦
            rw (get_vector_hit id v s hit)
              (hit-Gets id v c s h shrinks (ground (arith, hit, answer)))
        | inl miss ↦
            let s' : CachedStore fl vs = record s { cache = c } in
            let got = finish-Gets id s' (record {
              backend = h.backend;
              cache = shrinks.valid;
              agrees = λ j. ground (arith, shrinks.kept j, h.agrees j);
            }) in
            rw (get_vector_miss id s miss)
              (record { outcome = got.outcome; valid = got.valid; same = got.same })
      ]

  -- From a valid state, DeleteVector answers as the view of the store says; the state after it is
  -- valid, the id has no values there, and any other id has what it had.
  pub delete-removed :
      (id : Text) (s : CachedStore fl vs)
      → IsValid fl vs clock s
      → ((delete_vector fl vs clock id s).0 ≡ delete_outcome fl (view fl vs clock s id))
        × IsValid fl vs clock (delete_vector fl vs clock id s).1
        × ((j : Text)
            → view fl vs clock (delete_vector fl vs clock id s).1 j
              ≡ (if id == j then none else view fl vs clock s j))
  unfolding delete_vector view
  delete-removed id s h =
      let b = (vs.delete_vector id s.backend).1 in
      let answer = vs.delete-view id s.backend h.backend in
      let valid = vs.delete-IsValid id s.backend h.backend in
      let now : (j : Text) → vs.view b j ≡ (if id == j then none else vs.view s.backend j) =
        λ j. vs.view-delete id s.backend j h.backend in
      elim (Option-cases (vs.view s.backend id)) [
        | inl missing ↦
            rw (answer, delete_vector, missing)
              (
                refl,
                record {
                  backend = valid;
                  cache = h.cache;
                  agrees = λ j. ground (arith, h.agrees j, now j, text_eq_iff id j);
                },
                now,
              )
        | inr (v, held) ↦
            let (shrinks, gone) = remove-Shrinks fl id s.cache h.cache in
            rw (answer, delete_vector, held)
              (
                refl,
                record {
                  backend = valid;
                  cache = shrinks.valid;
                  agrees = λ j.
                      ground (arith, shrinks.kept j, h.agrees j, now j, text_eq_iff id j, gone);
                },
                now,
              )
      ]

  -- cachedVectorStore as the service's VectorStore.
  unfoldable pub cached_store : VectorStore fl
  unfolding view list_vectors
  cached_store = record {
    State = CachedStore fl vs;
    upsert_vectors = upsert_vectors fl vs clock;
    get_vector = get_vector fl vs clock;
    delete_vector = delete_vector fl vs clock;
    list_vectors = list_vectors fl vs clock;
    is_persistent = is_persistent fl vs clock;
    view = view fl vs clock;
    IsValid = IsValid fl vs clock;
    upsert-IsValid = λ vecs s h. (upsert-stored vecs s h).1;
    upsert-done = λ vecs s h. (upsert-stored vecs s h).0;
    view-upsert = λ vecs s j h. (upsert-stored vecs s h).2 j;
    get-IsValid = λ id s h. (get_vector-Gets id s h).valid;
    get-view = λ id s h. (get_vector-Gets id s h).outcome;
    view-get = λ id s j h. (get_vector-Gets id s h).same j;
    delete-IsValid = λ id s h. (delete-removed id s h).1;
    delete-view = λ id s h. (delete-removed id s h).0;
    view-delete = λ id s j h. (delete-removed id s h).2 j;
    latest-list = λ s j h. vs.latest-list s.backend j h.backend;
  }
