-- ===== src/CachedStore/Store.antt =====
-- cachedVectorStore of internal/core/cached_vector_store.go over a store. The store writes batches
-- (batchVectorStore); whether it has the two faster readers is open.
use lumenvec.Base.{
  ℕ, ◌+◌, ◌≡◌, Bool, List, [], ◌∷◌, Option, none, some, Text, Result, ok, err, done,
}
use lumenvec.Numeric.{Floats, Vector, to_float32, to_float64}
use lumenvec.VectorStore.{VectorStore}
use lumenvec.CachedStore.{
  Cache, CacheOptions, new_cache, put_vector, put32, remove_cached, get_cached_read_only32,
}

module _ (fl : Floats) (vs : VectorStore fl) where
  open fl use {F64, F32}

  -- readOnlyVectorReader and readOnlyVector32Reader: they return what GetVector returns.
  abbrev pub narrow : Result (Vector F64) → Result (List F32)
  narrow (ok vec) = ok (to_float32 fl vec.values)
  narrow (err e) = err e

  pub record Readers : Type 0 where
    pub read_only : Option (Text → vs.State → Result (Vector F64) × vs.State)
    pub read_only32 : Option (Text → vs.State → Result (List F32) × vs.State)
    pub read_only_lem :
        (read : Text → vs.State → Result (Vector F64) × vs.State)
        → read_only ≡ some read
        → (id : Text) (s : vs.State) → read id s ≡ vs.get_vector id s
    pub read_only32_lem :
        (read : Text → vs.State → Result (List F32) × vs.State)
        → read_only32 ≡ some read
        → (id : Text) (s : vs.State)
        → read id s ≡ (narrow (vs.get_vector id s).0, (vs.get_vector id s).1)

  pub record CachedStore : Type 0 where
    pub backend : vs.State
    pub cache : Cache fl

  unfoldable pub new_cached_store : CacheOptions → vs.State → CachedStore
  new_cached_store opts b = record { backend = b; cache = new_cache fl opts }

  module _ (clock : ℕ → ℕ) where
    -- The loop of UpsertVectors over the cache.
    unfoldable pub put_all : List (Vector F64) → Cache fl → Cache fl
    put_all [] c = c
    put_all (vec ∷ vecs) c = put_all vecs (put_vector fl clock vec c)

    unfoldable pub upsert_vectors :
        List (Vector F64) → CachedStore → Result (Unit {0}) × CachedStore
    upsert_vectors [] s = (done, s)
    upsert_vectors (vec ∷ vecs) s =
        let (r, b) = vs.upsert_vectors (vec ∷ vecs) s.backend in
        elim r [
          | err e ↦ (err e, record s { backend = b })
          | ok _ ↦ (done, record { backend = b; cache = put_all (vec ∷ vecs) s.cache })
        ]

    unfoldable pub get_cached : Text → Cache fl → Option (Vector F64) × Cache fl
    get_cached id c =
        let (hit, c') = get_cached_read_only32 fl clock id c in
        elim hit [
          | none ↦ (none, c')
          | some values ↦ (some (record { id = id; values = to_float64 fl values }), c')
        ]

    -- GetVector where the cache has nothing: up to the answer of the store, and from there on,
    -- where it takes the lock.
    unfoldable pub fetch : Text → CachedStore → Result (Vector F64) × CachedStore
    fetch id s =
        let (r, b) = vs.get_vector id s.backend in
        (r, record { backend = b; cache = record s.cache { misses = s.cache.misses + 1 } })

    unfoldable pub finish : Result (Vector F64) → CachedStore → Result (Vector F64) × CachedStore
    finish (err e) s = (err e, s)
    finish (ok vec) s = (ok vec, record s { cache = put_vector fl clock vec s.cache })

    unfoldable pub get_vector : Text → CachedStore → Result (Vector F64) × CachedStore
    get_vector id s =
        let (hit, c) = get_cached id s.cache in
        elim hit [
          | some vec ↦ (ok vec, record s { cache = c })
          | none ↦ let (r, s') = fetch id (record s { cache = c }) in finish r s'
        ]

    unfoldable pub get_vector_read_only :
        Readers → Text → CachedStore → Result (Vector F64) × CachedStore
    get_vector_read_only rd id s =
        let (hit, c) = get_cached id s.cache in
        elim hit [
          | some vec ↦ (ok vec, record s { cache = c })
          | none ↦ elim rd.read_only [
            | some read ↦
                let (r, b) = read id s.backend in
                finish r (record { backend = b; cache = record c { misses = c.misses + 1 } })
            | none ↦ let (r, s') = fetch id (record s { cache = c }) in finish r s'
          ]
        ]

    unfoldable pub finish32 :
        Text → Result (List F32) → CachedStore → Result (List F32) × CachedStore
    finish32 id (err e) s = (err e, s)
    finish32 id (ok values) s = (ok values, record s { cache = put32 fl clock id values s.cache })

    unfoldable pub finish_narrow :
        Result (Vector F64) → CachedStore → Result (List F32) × CachedStore
    finish_narrow (err e) s = (err e, s)
    finish_narrow (ok vec) s = (
      ok (to_float32 fl vec.values),
      record s { cache = put32 fl clock vec.id (to_float32 fl vec.values) s.cache },
    )

    unfoldable pub get_vector_read_only32 :
        Readers → Text → CachedStore → Result (List F32) × CachedStore
    get_vector_read_only32 rd id s =
        let (hit, c) = get_cached_read_only32 fl clock id s.cache in
        let counted : Cache fl = record c { misses = c.misses + 1 } in
        elim hit [
          | some values ↦ (ok values, record s { cache = c })
          | none ↦ elim rd.read_only32 [
            | some read ↦
                let (r, b) = read id s.backend in
                finish32 id r (record { backend = b; cache = counted })
            | none ↦ elim rd.read_only [
              | some read ↦
                  let (r, b) = read id s.backend in
                  finish_narrow r (record { backend = b; cache = counted })
              | none ↦
                  let (r, b) = vs.get_vector id s.backend in
                  finish_narrow r (record { backend = b; cache = counted })
            ]
          ]
        ]

    unfoldable pub delete_vector : Text → CachedStore → Result (Unit {0}) × CachedStore
    delete_vector id s =
        let (r, b) = vs.delete_vector id s.backend in
        elim r [
          | err e ↦ (err e, record s { backend = b })
          | ok _ ↦ (done, record { backend = b; cache = remove_cached fl id s.cache })
        ]

    unfoldable pub list_vectors : CachedStore → List (Vector F64)
    list_vectors s = vs.list_vectors s.backend

    unfoldable pub is_persistent : Bool
    is_persistent = vs.is_persistent
