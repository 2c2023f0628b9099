-- ===== src/CachedStore/Coherence.antt =====
-- What ties the cache to the store behind it.
use lumenvec.Base.{
  ℕ, ◌+◌, ◌≡◌, refl, ◌⊎◌, inr, List, [], ◌∷◌, Option, none, some, Text, Text-Eq, text_eq_iff, ◌==◌,
  lookup, arith, if◌then◌else◌,
}
use lumenvec.Numeric.{Floats, Vector, to_float32, to_float64, to_float32-to_float64}
use lumenvec.VectorStore.{VectorStore, or_else, latest}
use lumenvec.CachedStore.{Cache, CacheOptions, new_cache, is_over, put_vector}
use lumenvec.CachedStore.Counting.{cached}
use lumenvec.CachedStore.Putting.{put32-Puts}
use lumenvec.CachedStore.Reading
use lumenvec.CachedStore.Reading.{Shrinks, remove-Shrinks, get_cached-Shrinks}
use lumenvec.CachedStore.Store.{CachedStore, new_cached_store, put_all}

module _ (fl : Floats) (vs : VectorStore fl) (clock : ℕ → ℕ) where
  open fl use {F64, F32}

  unfoldable pub view : CachedStore fl vs → Text → Option (List F32)
  view s = vs.view s.backend

  -- What the cache holds for an id is what the store holds for it.
  abbrev pub Agrees : (Text → Option (List F32)) → Cache fl → Type 0
  Agrees f c = (j : Text) → (cached fl c j ≡ f j) ⊎ (cached fl c j ≡ none)

  pub record IsValid (s : CachedStore fl vs) : Type 0 where
    pub backend : vs.IsValid s.backend
    pub cache : Reading.IsValid fl s.cache
    pub agrees : Agrees (vs.view s.backend) s.cache

  pub new_cached_store-IsValid :
      (opts : CacheOptions) (b : vs.State) → vs.IsValid b → IsValid (new_cached_store fl vs opts b)
  unfolding new_cached_store new_cache is_over lookup
  new_cached_store-IsValid opts b h = record {
    backend = h;
    cache = record { counted = record { bytes = refl; distinct = tt }; within = ground arith };
    agrees = λ j. inr refl;
  }

  pub put-Agrees :
      (vec : Vector F64) (f g : Text → Option (List F32)) (c : Cache fl)
      → Reading.IsValid fl c
      → Agrees f c
      → ((j : Text) → g j ≡ (if vec.id == j then some (to_float32 fl vec.values) else f j))
      → Reading.IsValid fl (put_vector fl clock vec c) × Agrees g (put_vector fl clock vec c)
  unfolding put_vector
  put-Agrees vec f g c h agrees step =
      let p = put32-Puts fl clock vec.id (to_float32 fl vec.values) c h.counted in
      (
        record { counted = p.counted; within = p.within },
        λ j. ground (arith, p.kept j, agrees j, step j),
      )

  pub put_all-Agrees :
      (vecs : List (Vector F64)) (f g : Text → Option (List F32)) (c : Cache fl)
      → Reading.IsValid fl c
      → Agrees f c
      → ((j : Text) → g j ≡ or_else (latest fl j vecs) (f j))
      → Reading.IsValid fl (put_all fl vs clock vecs c) × Agrees g (put_all fl vs clock vecs c)
  unfolding put_all
  put_all-Agrees [] f g c h agrees step = (h, λ j. ground (arith, step j, agrees j))
  put_all-Agrees (vec ∷ vecs) f g c h agrees step =
      let f' : Text → Option (List F32) =
        λ j. if vec.id == j then some (to_float32 fl vec.values) else f j in
      let (h', agrees') = put-Agrees vec f f' c h agrees (λ j. refl) in
      put_all-Agrees vecs f' g (put_vector fl clock vec c) h' agrees' (λ j. ground (arith, step j))

  unfoldable pub counted_miss : Cache fl → Cache fl
  counted_miss c = record c { misses = c.misses + 1 }

  pub counted_miss-IsValid :
      (c : Cache fl) → Reading.IsValid fl c → Reading.IsValid fl (counted_miss c)
  unfolding is_over counted_miss
  counted_miss-IsValid c h = record {
    counted = record { bytes = h.counted.bytes; distinct = h.counted.distinct };
    within = h.within;
  }

  -- The cache takes values that the store holds.
  pub put-held :
      (id : Text) (v : List F32) (b : vs.State) (c : Cache fl)
      → Reading.IsValid fl c
      → Agrees (vs.view b) c
      → vs.view b id ≡ some v
      → let vec : Vector F64 = record { id = id; values = to_float64 fl v } in
        Reading.IsValid fl (put_vector fl clock vec c)
        × Agrees (vs.view b) (put_vector fl clock vec c)
  put-held id v b c h agrees held =
      put-Agrees (record { id = id; values = to_float64 fl v }) (vs.view b) (vs.view b) c h agrees
        (λ j. ground (arith, to_float32-to_float64 fl v, text_eq_iff id j, held))
