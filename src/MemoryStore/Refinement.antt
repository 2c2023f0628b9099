-- ===== src/MemoryStore/Refinement.antt =====
-- The operations of the memory store against the finite map that it stands for.
use lumenvec.Base.{◌≡◌, none, List, Text, Text-Eq, ◌==◌, if◌then◌else◌}
use lumenvec.Numeric.{Floats, Vector}
use lumenvec.OrderedIds.{BTree}
use lumenvec.VectorStore.{latest, or_else, get_outcome}
use lumenvec.MemoryStore.{MemoryStore, upsert_vectors, get_vector, delete_vector}
use lumenvec.MemoryStore.Laws.{IsValid, view, get-view, view-upsert, view-delete}

-- In a store whose entries carry their ids, hold each id once, and have exactly the ids of the
-- ordered index: GetVector returns the id with its values, as float64, or reports that it has none;
-- after UpsertVectors an id of the batch has the values of its last vector there, as float32, and
-- any other id what it had; after DeleteVector the id has no values, and any other id what it had.
pub operations-view :
    (fl : Floats) (bt : BTree) (vecs : List (Vector fl.F64)) (id : Text) (s : MemoryStore fl bt)
    (j : Text)
    → IsValid fl bt s
    → (get_vector fl bt id s ≡ get_outcome fl id (view fl bt s id))
      × (view fl bt (upsert_vectors fl bt vecs s).1 j ≡ or_else (latest fl j vecs) (view fl bt s j))
      × (view fl bt (delete_vector fl bt id s).1 j ≡ (if id == j then none else view fl bt s j))
operations-view fl bt vecs id s j h =
    (get-view fl bt id s h, view-upsert fl bt vecs s j, view-delete fl bt id s j)
