-- ===== src/Tests/Stores.antt =====
-- The theorems on the memory store at concrete inputs.
use lumenvec.Base.{◌≡◌, List, [], ◌∷◌, none, some, Text-Eq, text_eq, bytes, ok, lookup, insert}
use lumenvec.Numeric.{Vector, to_float32, to_float64}
use lumenvec.MemoryStore.{
  MemoryStore, new_memory_store, upsert_one, upsert_vectors, get_vector, delete_vector,
}
use lumenvec.MemoryStore.Laws.{
  IsValid, view, new_memory_store-IsValid, upsert-IsValid, operations-IsValid,
}
use lumenvec.MemoryStore.Refinement.{operations-view}
use lumenvec.Tests.Instances.{Number, nought, one, two, numbers, sorted_set}

-- The second vector replaces the first.
abbrev batch : List (Vector Number)
batch =
    record { id = bytes "a"; values = one ∷ [] }
    ∷ record { id = bytes "a"; values = two ∷ [] }
    ∷ record { id = bytes "b"; values = nought ∷ [] }
    ∷ []

abbrev filled : MemoryStore numbers sorted_set
filled = (upsert_vectors numbers sorted_set batch (new_memory_store numbers sorted_set)).1

filled-IsValid : IsValid numbers sorted_set filled
filled-IsValid =
    upsert-IsValid numbers sorted_set batch (new_memory_store numbers sorted_set)
      (new_memory_store-IsValid numbers sorted_set)

operations-IsValid_example :
    IsValid numbers sorted_set (upsert_vectors numbers sorted_set batch filled).1
    × IsValid numbers sorted_set (delete_vector numbers sorted_set (bytes "a") filled).1
operations-IsValid_example =
    operations-IsValid numbers sorted_set batch (bytes "a") filled filled-IsValid

operations-view_example :
    (get_vector numbers sorted_set (bytes "a") filled
      ≡ ok (record { id = bytes "a"; values = two ∷ [] }))
    × (view numbers sorted_set (upsert_vectors numbers sorted_set batch filled).1 (bytes "a")
        ≡ some (two ∷ []))
    × (view numbers sorted_set (delete_vector numbers sorted_set (bytes "a") filled).1 (bytes "a")
        ≡ none)
unfolding view lookup insert text_eq to_float32 to_float64 upsert_vectors upsert_one
operations-view_example =
    operations-view numbers sorted_set batch (bytes "a") filled (bytes "a") filled-IsValid
