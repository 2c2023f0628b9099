-- ===== src/MemoryStore.antt =====
-- memoryVectorStore of internal/core/vector_store.go. `ids` stands from the constructor on, so the
-- branches that build it lazily are not modelled; the locks guard each call as a whole.
pub mod Laws
pub mod Refinement
use lumenvec.Base.{
  ℕ, Bool, false, List, [], ◌∷◌, none, some, Text, Text-Eq, Map, lookup, insert, delete, Result, ok,
  err, done, vector_not_found,
}
use lumenvec.Base.Ints.{ℤ}
use lumenvec.Numeric.{Floats, Vector, to_float32, to_float64}
use lumenvec.OrderedIds
use lumenvec.OrderedIds.{BTree, OrderedIdIndex, new_ordered_id_index, page_after}

module _ (fl : Floats) (bt : BTree) where
  open fl use {F64, F32}

  pub record MemoryVector : Type 0 where
    pub id : Text
    pub values : List F32

  pub record MemoryStore : Type 0 where
    pub vectors : Map Text MemoryVector
    pub ids : OrderedIdIndex bt

  abbrev pub new_memory_store : MemoryStore
  new_memory_store = record { vectors = []; ids = new_ordered_id_index bt }

  unfoldable pub upsert_one : Vector F64 → MemoryStore → MemoryStore
  upsert_one vec s = record {
    vectors = insert vec.id (record { id = vec.id; values = to_float32 fl vec.values }) s.vectors;
    ids = OrderedIds.upsert bt vec.id s.ids;
  }

  unfoldable pub upsert_vectors : List (Vector F64) → MemoryStore → Result (Unit {0}) × MemoryStore
  upsert_vectors [] s = (done, s)
  upsert_vectors (vec ∷ vecs) s = upsert_vectors vecs (upsert_one vec s)

  unfoldable pub get_vector_read_only32 : Text → MemoryStore → Result (List F32)
  get_vector_read_only32 id s = elim (lookup id s.vectors) [
    | none ↦ err vector_not_found
    | some vec ↦ ok vec.values
  ]

  unfoldable pub get_vector : Text → MemoryStore → Result (Vector F64)
  get_vector id s = elim (lookup id s.vectors) [
    | none ↦ err vector_not_found
    | some vec ↦ ok (record { id = vec.id; values = to_float64 fl vec.values })
  ]

  unfoldable pub delete_vector : Text → MemoryStore → Result (Unit {0}) × MemoryStore
  delete_vector id s = elim (lookup id s.vectors) [
    | none ↦ (err vector_not_found, s)
    | some _ ↦ (done, record { vectors = delete id s.vectors; ids = OrderedIds.delete bt id s.ids })
  ]

  unfoldable pub list_entries : Map Text MemoryVector → List (Vector F64)
  list_entries [] = []
  list_entries ((_, vec) ∷ m) =
      record { id = vec.id; values = to_float64 fl vec.values } ∷ list_entries m

  unfoldable pub list_vectors : MemoryStore → List (Vector F64)
  list_vectors s = list_entries s.vectors

  unfoldable pub page_vector_ids : Text → ℤ → MemoryStore → List Text
  page_vector_ids after limit s = page_after bt after limit s.ids
