-- ===== src/CachedStore/Readers.antt =====
-- GetVectorReadOnly and GetVectorReadOnly32 against GetVector.
use lumenvec.Base.{
  ℕ, ◌+◌, ◌≡◌, refl, inl, inr, List, Option, none, some, Text, Result, ok, err, Option-cases,
}
use lumenvec.Numeric.{Floats, Vector, to_float32-to_float64}
use lumenvec.VectorStore.{VectorStore, get_outcome}
use lumenvec.CachedStore.{put_vector, get_cached_read_only32}
use lumenvec.CachedStore.Store.{
  narrow, Readers, CachedStore, get_cached, fetch, finish, finish32, finish_narrow, get_vector,
  get_vector_read_only, get_vector_read_only32,
}
use lumenvec.CachedStore.Coherence.{IsValid}
use lumenvec.CachedStore.Refinement.{answered, get_vector_hit, get_vector_miss}

module _ (fl : Floats) (vs : VectorStore fl) (clock : ℕ → ℕ) where
  open fl use {F64, F32}

  get_vector_read_only-get_vector :
      (rd : Readers fl vs) (id : Text) (s : CachedStore fl vs)
      → get_vector_read_only fl vs clock rd id s ≡ get_vector fl vs clock id s
  unfolding get_vector_read_only get_vector fetch
  get_vector_read_only-get_vector rd id s =
      elim (Option-cases (get_cached fl vs clock id s.cache).0) [
        | inr (vec, hit) ↦ rw (hit, get_vector_read_only, get_vector) refl
        | inl miss ↦ elim (Option-cases rd.read_only) [
          | inl without ↦ rw (miss, get_vector_read_only, get_vector, without) refl
          | inr (read, has) ↦
              rw
                (
                  miss,
                  get_vector_read_only,
                  get_vector,
                  has,
                  rd.read_only_lem read has id s.backend,
                )
                refl
        ]
      ]

  narrowed : Result (Vector F64) × CachedStore fl vs → Result (List F32) × CachedStore fl vs
  narrowed (r, s) = (narrow fl vs r, s)

  -- The values of a vector as float32.
  finish_narrow-finish :
      (r : Result (Vector F64)) (s : CachedStore fl vs)
      → finish_narrow fl vs clock r s ≡ narrowed (finish fl vs clock r s)
  unfolding finish_narrow finish narrowed put_vector
  finish_narrow-finish (err e) s = refl
  finish_narrow-finish (ok vec) s = refl

  finish32-finish :
      (id : Text) (o : Option (List F32)) (s : CachedStore fl vs)
      → finish32 fl vs clock id (narrow fl vs (get_outcome fl id o)) s
        ≡ narrowed (finish fl vs clock (get_outcome fl id o) s)
  unfolding finish32 finish narrowed put_vector
  finish32-finish id none s = refl
  finish32-finish id (some v) s = refl

  get_vector_read_only32-get_vector :
      (rd : Readers fl vs) (id : Text) (s : CachedStore fl vs)
      → IsValid fl vs clock s
      → get_vector_read_only32 fl vs clock rd id s
        ≡ (narrow fl vs (get_vector fl vs clock id s).0, (get_vector fl vs clock id s).1)
  unfolding get_vector_read_only32 fetch narrowed answered
  get_vector_read_only32-get_vector rd id s h =
      elim (Option-cases (get_cached_read_only32 fl clock id s.cache).0) [
        | inr (v, hit) ↦
            rw
              (
                hit,
                get_vector_read_only32,
                get_vector_hit fl vs clock id v s hit,
                to_float32-to_float64 fl v,
              )
              refl
        | inl miss ↦
            let c = (get_cached_read_only32 fl clock id s.cache).1 in
            let s' : CachedStore fl vs = record {
              backend = (vs.get_vector id s.backend).1;
              cache = record c { misses = c.misses + 1 };
            } in
            let slow = finish_narrow-finish (vs.get_vector id s.backend).0 s' in
            elim (Option-cases rd.read_only32) [
              | inr (read, has) ↦
                  rw
                    (
                      miss,
                      get_vector_read_only32,
                      has,
                      rd.read_only32_lem read has id s.backend,
                      get_vector_miss fl vs clock id s miss,
                      vs.get-view id s.backend h.backend,
                    )
                    (finish32-finish id (vs.view s.backend id) s')
              | inl plain ↦ elim (Option-cases rd.read_only) [
                | inl without ↦
                    rw
                      (
                        miss,
                        get_vector_read_only32,
                        plain,
                        without,
                        get_vector_miss fl vs clock id s miss,
                      )
                      slow
                | inr (read, has) ↦
                    rw
                      (
                        miss,
                        get_vector_read_only32,
                        plain,
                        has,
                        rd.read_only_lem read has id s.backend,
                        get_vector_miss fl vs clock id s miss,
                      )
                      slow
              ]
            ]
      ]

  -- In a store that is valid, whichever readers the store below has, GetVectorReadOnly returns what
  -- GetVector returns, GetVectorReadOnly32 returns the values of that as float32, and both leave the
  -- state that GetVector leaves.
  pub readers-get_vector :
      (rd : Readers fl vs) (id : Text) (s : CachedStore fl vs)
      → IsValid fl vs clock s
      → (get_vector_read_only fl vs clock rd id s ≡ get_vector fl vs clock id s)
        × (get_vector_read_only32 fl vs clock rd id s
            ≡ (narrow fl vs (get_vector fl vs clock id s).0, (get_vector fl vs clock id s).1))
  readers-get_vector rd id s h =
      (get_vector_read_only-get_vector rd id s, get_vector_read_only32-get_vector rd id s h)
