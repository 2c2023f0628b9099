-- ===== src/Tests/Caches.antt =====
-- The theorems on the cached store at concrete inputs.
use lumenvec.Base.{
  ℕ, ◌≡◌, refl, true, List, [], ◌∷◌, Option, none, some, Text, Text-Eq, text_eq, bytes, ok, done,
  Result, sym, ap, ◌∙◌, inl, inr, Option-cases, arith, lookup, insert, ◌==◌, if◌then◌else◌,
}
use lumenvec.Base.Ints.{pos}
use lumenvec.Numeric.{to_float32, to_float64, to_float32-to_float64}
use lumenvec.VectorStore.{VectorStore, delete_outcome, latest, or_else}
use lumenvec.MemoryStore
use lumenvec.MemoryStore.{new_memory_store, upsert_vectors, upsert_one}
use lumenvec.MemoryStore.Laws
use lumenvec.MemoryStore.Laws.{memory_store, new_memory_store-IsValid, upsert-IsValid}
use lumenvec.CachedStore.{CacheOptions, Cache, new_cache, evict, estimate_vector_size_bytes32}
use lumenvec.CachedStore.Eviction.{Evicted, evict-Evicted}
use lumenvec.CachedStore.Store
use lumenvec.CachedStore.Store.{
  CachedStore, Readers, narrow, new_cached_store, get_vector, get_vector_read_only,
  get_vector_read_only32,
}
use lumenvec.CachedStore.Coherence.{IsValid, view, new_cached_store-IsValid}
use lumenvec.CachedStore.Refinement.{Gets, get_vector-Gets, upsert-stored, delete-removed}
use lumenvec.CachedStore.Readers.{readers-get_vector}
use lumenvec.CachedStore.Stale.{overtaken, overtaken_is_stale}
use lumenvec.Tests.Instances.{Number, one, two, numbers, sorted_set}

abbrev memory : VectorStore numbers
memory = memory_store numbers sorted_set

abbrev clock : ℕ → ℕ
clock n = n

abbrev options : CacheOptions
options = record { enabled = true; max_bytes = pos 16; max_items = pos 1; ttl = pos 0 }

abbrev empty_memory : memory.State
unfolding memory_store
empty_memory = new_memory_store numbers sorted_set

abbrev cached_a : CachedStore numbers memory
cached_a =
    (Store.upsert_vectors numbers memory clock (record { id = bytes "a"; values = one ∷ [] } ∷ [])
      (new_cached_store numbers memory options empty_memory)).1

empty-IsValid : IsValid numbers memory clock (new_cached_store numbers memory options empty_memory)
unfolding memory_store
empty-IsValid =
    new_cached_store-IsValid numbers memory clock options empty_memory
      (new_memory_store-IsValid numbers sorted_set)

cached_a-IsValid : IsValid numbers memory clock cached_a
cached_a-IsValid =
    (upsert-stored numbers memory clock (record { id = bytes "a"; values = one ∷ [] } ∷ [])
      (new_cached_store numbers memory options empty_memory) empty-IsValid).1

upsert-stored_example :
    ((Store.upsert_vectors numbers memory clock
        (record { id = bytes "b"; values = two ∷ [] } ∷ [])
        cached_a).0
      ≡ done)
    × IsValid numbers memory clock
        (Store.upsert_vectors numbers memory clock
          (record { id = bytes "b"; values = two ∷ [] } ∷ [])
          cached_a).1
    × ((j : Text)
        → view numbers memory clock
            (Store.upsert_vectors numbers memory clock
              (record { id = bytes "b"; values = two ∷ [] } ∷ [])
              cached_a).1
            j
          ≡ or_else
              (latest numbers j (record { id = bytes "b"; values = two ∷ [] } ∷ []))
              (view numbers memory clock cached_a j))
upsert-stored_example =
    upsert-stored numbers memory clock (record { id = bytes "b"; values = two ∷ [] } ∷ []) cached_a
      cached_a-IsValid

get_vector-Gets_example :
    Gets numbers memory clock
      (bytes "a")
      cached_a
      (get_vector numbers memory clock (bytes "a") cached_a)
get_vector-Gets_example = get_vector-Gets numbers memory clock (bytes "a") cached_a cached_a-IsValid

delete-removed_example :
    ((Store.delete_vector numbers memory clock (bytes "a") cached_a).0
      ≡ delete_outcome numbers (view numbers memory clock cached_a (bytes "a")))
    × IsValid numbers memory clock (Store.delete_vector numbers memory clock (bytes "a") cached_a).1
    × ((j : Text)
        → view numbers memory clock
            (Store.delete_vector numbers memory clock (bytes "a") cached_a).1
            j
          ≡ (if bytes "a" == j then none else view numbers memory clock cached_a j))
delete-removed_example = delete-removed numbers memory clock (bytes "a") cached_a cached_a-IsValid

read_only32_lem :
    (id : Text) (s : MemoryStore.MemoryStore numbers sorted_set)
    → MemoryStore.get_vector_read_only32 numbers sorted_set id s
      ≡ narrow numbers memory (MemoryStore.get_vector numbers sorted_set id s)
unfolding MemoryStore.get_vector_read_only32 MemoryStore.get_vector
read_only32_lem id s = elim (Option-cases (lookup id s.vectors)) [
  | inl missing ↦ rw (missing, MemoryStore.get_vector_read_only32, MemoryStore.get_vector) refl
  | inr (vec, held) ↦
      rw
        (
          held,
          MemoryStore.get_vector_read_only32,
          MemoryStore.get_vector,
          to_float32-to_float64 numbers vec.values,
        )
        refl
]

-- The memory store reads float32 values directly.
abbrev read32 : Text → memory.State → Result (List Number) × memory.State
unfolding memory_store
read32 id s = (MemoryStore.get_vector_read_only32 numbers sorted_set id s, s)

abbrev chosen :
    Option (Text → memory.State → Result (List Number) × memory.State)
    → Text
    → memory.State
    → Result (List Number) × memory.State
chosen none = read32
chosen (some read) = read

abbrev readers : Readers numbers memory
unfolding memory_store
readers = record {
  read_only = none;
  read_only32 = some read32;
  read_only_lem = λ read h. absurd (ground arith);
  read_only32_lem =
      λ read h id s. ap (λ o. chosen o id s) (sym h) ∙ ap (λ r. (r, s)) (read_only32_lem id s);
}

readers-get_vector_example :
    (get_vector_read_only numbers memory clock readers (bytes "a") cached_a
      ≡ get_vector numbers memory clock (bytes "a") cached_a)
    × (get_vector_read_only32 numbers memory clock readers (bytes "a") cached_a ≡ (
      narrow numbers memory (get_vector numbers memory clock (bytes "a") cached_a).0,
      (get_vector numbers memory clock (bytes "a") cached_a).1,
    ))
readers-get_vector_example =
    readers-get_vector numbers memory clock readers (bytes "a") cached_a cached_a-IsValid

-- Two entries where one may stay.
abbrev two_entries : Cache numbers
two_entries = record {
  max_bytes = 16;
  max_items = 1;
  ttl = pos 0;
  order =
      (bytes "b", record { values = two ∷ []; expires_at = none; size_bytes = 5 })
      ∷ (bytes "a", record { values = one ∷ []; expires_at = none; size_bytes = 5 })
      ∷ [];
  current_bytes = pos 10;
  hits = 0;
  misses = 0;
  evictions = 0;
  ticks = 0;
}

evict-Evicted_example : Evicted numbers two_entries (evict numbers 2 two_entries)
unfolding lookup text_eq
evict-Evicted_example =
    evict-Evicted numbers 2 two_entries (record { bytes = refl; distinct = (refl, (refl, tt)) })
      (omega arith)

-- One vector in the store, and nothing in the cache.
abbrev uncached_a : CachedStore numbers memory
unfolding memory_store
uncached_a =
    new_cached_store numbers memory options
      (upsert_vectors numbers sorted_set (record { id = bytes "a"; values = one ∷ [] } ∷ [])
        (new_memory_store numbers sorted_set)).1

overtaken_is_stale_example :
    (view numbers memory clock (overtaken numbers memory clock (bytes "a") uncached_a) (bytes "a")
      ≡ none)
    × ((get_vector numbers memory clock
          (bytes "a")
          (overtaken numbers memory clock (bytes "a") uncached_a)).0
        ≡ ok (record { id = bytes "a"; values = one ∷ [] }))
unfolding memory_store view MemoryStore.Laws.view lookup insert text_eq upsert_vectors upsert_one
    to_float32 to_float64 new_cached_store new_cache estimate_vector_size_bytes32
overtaken_is_stale_example =
    overtaken_is_stale numbers memory clock (bytes "a") (one ∷ []) uncached_a
      (new_cached_store-IsValid numbers memory clock options uncached_a.backend (
        upsert-IsValid numbers sorted_set (record { id = bytes "a"; values = one ∷ [] } ∷ [])
          (new_memory_store numbers sorted_set) (new_memory_store-IsValid numbers sorted_set)))
      refl (omega arith) (omega arith) refl
