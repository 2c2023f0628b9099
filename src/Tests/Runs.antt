-- ===== src/Tests/Runs.antt =====
-- The theorems at concrete inputs.
use lumenvec.Base.{
  system, text_eq, is_blank, lookup, insert, Text-Eq, ◌≡◌, refl, false, [], ◌∷◌, none, some, bytes,
  done, arith, inr,
}
use lumenvec.Numeric.{Vector, to_float32}
use lumenvec.Index.{new_index, add_vector}
use lumenvec.Index.Laws.{find}
use lumenvec.Resolver.{new_resolver}
use lumenvec.MemoryStore
use lumenvec.MemoryStore.{MemoryStore, new_memory_store, upsert_vectors}
use lumenvec.MemoryStore.Laws.{memory_store, new_memory_store-IsValid, upsert-IsValid}
use lumenvec.Persistence.{AppendIo, encode_all}
use lumenvec.OrderedIds
use lumenvec.Service.{Deps, Io, Service}
use lumenvec.Service.Consistency.{View, Holds}
use lumenvec.Service.Operations
use lumenvec.Service.Atomic
use lumenvec.Service.Deleting
use lumenvec.Service.Admission.{add_vectors-done}
use lumenvec.Service.Removal.{delete_vector-done}
use lumenvec.VectorStore.{latest, or_else}
use lumenvec.Tests.Instances.{Number, nought, one, two, numbers, counting, sorted_set}
use lumenvec.Tests.Formats.{plain_json}

abbrev pub deps : Deps
deps = record {
  floats = numbers;
  vector_store = memory_store numbers sorted_set;
  ann_index = counting;
  json = plain_json;
}

-- Files that answer every call, and an append that fails to sync.
abbrev good_append : AppendIo
good_append = record { mkdir = none; open_file = none; flush = none; sync = none; residue = [] }

abbrev full_disk : AppendIo
full_disk = record { mkdir = none; open_file = none; flush = some 28; sync = none; residue = [] }

abbrev io_of : AppendIo → Io
io_of append = record {
  store_get = none;
  store_upsert = none;
  store_delete = none;
  append = append;
  sync = record { open_file = none; seek = none; sync = none };
  save = record { mkdir = none; write = none; rename = none };
  truncate = record { mkdir = none; write = none; emptied = false };
}

abbrev vec_a : Vector Number
vec_a = record { id = bytes "a"; values = one ∷ two ∷ [] }

abbrev vec_b : Vector Number
vec_b = record { id = bytes "b"; values = nought ∷ one ∷ [] }

-- A service that holds `vec_a`.
abbrev holding_a : Service deps
unfolding memory_store
holding_a = record {
  index = (add_vector numbers vec_a (new_index numbers)).1;
  store = (upsert_vectors numbers sorted_set (vec_a ∷ []) (new_memory_store numbers sorted_set)).1;
  ann = record { dim = 2; nodes = 1; deleted = 0 };
  resolver = new_resolver;
  backend = record { snapshot = none; wal = none; sync_every = 1; pending_ops = 0 };
  persist_ops = 0;
  max_vector_dim = 4096;
  snapshot_every = 25;
}

abbrev only_a : View deps
only_a j = find numbers (add_vector numbers vec_a (new_index numbers)).1 j

holding_a-Holds : Holds deps only_a holding_a
unfolding memory_store add_vector find MemoryStore.Laws.view upsert_vectors MemoryStore.upsert_one
    lookup insert
holding_a-Holds = record {
  valid =
      upsert-IsValid numbers sorted_set (vec_a ∷ []) (new_memory_store numbers sorted_set)
        (new_memory_store-IsValid numbers sorted_set);
  indexed = λ j. refl;
  stored = λ j. ground arith;
}

-- The store does not delete.
abbrev store_fails : Io
store_fails = record (io_of good_append) { store_delete = some (system 5) }

add_vectors-done_example :
    ((Operations.add_vectors deps (io_of good_append) (vec_b ∷ []) holding_a).0 ≡ done)
    × Holds deps
        (λ j. or_else (latest numbers j (vec_b ∷ [])) (only_a j))
        (Operations.add_vectors deps (io_of good_append) (vec_b ∷ []) holding_a).1
unfolding is_blank find add_vector lookup insert text_eq encode_all plain_json holding_a
add_vectors-done_example =
    add_vectors-done deps 2 (io_of good_append) vec_b [] holding_a (omega arith) (omega arith)
      (inr refl) (refl, refl, refl, refl, tt)
      (record { mkdir = refl; open_file = refl; flush = refl; sync = refl; encoded = (_, refl) })
      (omega arith) refl holding_a-Holds

delete_vector-done_example :
    ((Operations.delete_vector deps (io_of good_append) (bytes "a") holding_a).0 ≡ done)
    × Holds deps
        (Deleting.without deps only_a (bytes "a"))
        (Operations.delete_vector deps (io_of good_append) (bytes "a") holding_a).1
unfolding is_blank find add_vector lookup insert text_eq to_float32 encode_all plain_json holding_a
delete_vector-done_example =
    delete_vector-done deps (io_of good_append) (bytes "a") (one ∷ two ∷ []) holding_a refl refl
      (record { mkdir = refl; open_file = refl; flush = refl; sync = refl; encoded = (_, refl) })
      (omega arith) refl refl holding_a-Holds

-- Pages of two ids over three.
abbrev three : MemoryStore numbers sorted_set
three =
    (upsert_vectors numbers sorted_set
      (record { id = bytes "c"; values = one ∷ [] } ∷ vec_b ∷ vec_a ∷ [])
      (new_memory_store numbers sorted_set)).1
