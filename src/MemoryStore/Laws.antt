-- ===== src/MemoryStore/Laws.antt =====
-- The memory store meets the interface, and its ordered ids are the ids that it holds.
use lumenvec.Base.{
  ap, ◌≡◌, refl, Bool, true, false, List, [], ◌∷◌, Option, none, some, Text, Text-Eq, text_eq_iff,
  ◌==◌, Map, lookup, insert, delete, lookup-insert, lookup-delete, ok, done, if◌then◌else◌, arith,
  Option-cases, inl, inr,
}
use lumenvec.Numeric.{Floats, Vector, to_float32, to_float64, to_float32-to_float64}
use lumenvec.OrderedIds
use lumenvec.OrderedIds.{BTree, contains, ensure}
use lumenvec.VectorStore.{VectorStore, latest, or_else, get_outcome, delete_outcome}
use lumenvec.MemoryStore.{
  new_memory_store, MemoryVector, MemoryStore, upsert_one, upsert_vectors, get_vector,
  delete_vector, list_entries, list_vectors,
}

abbrev is_some {ℓ} : {A : Type ℓ} → Option A → Bool
is_some none = false
is_some (some _) = true

module _ (fl : Floats) (bt : BTree) where
  open fl use {F64, F32}

  abbrev values_of : Option (MemoryVector fl bt) → Option (List F32)
  values_of none = none
  values_of (some v) = some v.values

  unfoldable pub view : MemoryStore fl bt → Text → Option (List F32)
  view s id = values_of (lookup id s.vectors)

  -- Entries carry the id that they stand under, each id has one entry, and the ordered ids are
  -- exactly those of the map.
  abbrev IsFresh : Text → Map Text (MemoryVector fl bt) → Type 0
  IsFresh k m = lookup k m ≡ none

  abbrev IsKeyed : Map Text (MemoryVector fl bt) → Type 0
  IsKeyed [] = Unit
  IsKeyed ((k, v) ∷ m) = (v.id ≡ k) × IsFresh k m × IsKeyed m

  pub record IsValid (s : MemoryStore fl bt) : Type 0 where
    pub keyed : IsKeyed s.vectors
    pub indexed :
        (j : Text) → contains j (bt.items (ensure bt s.ids)) ≡ is_some (lookup j s.vectors)

  pub new_memory_store-IsValid : IsValid (new_memory_store fl bt)
  unfolding lookup
  new_memory_store-IsValid = record { keyed = tt; indexed = λ j. ap (contains j) bt.items-new }

  insert-IsKeyed :
      (k : Text) (v : MemoryVector fl bt) (m : Map Text (MemoryVector fl bt))
      → v.id ≡ k
      → IsKeyed m
      → IsKeyed (insert k v m)
  unfolding insert lookup
  insert-IsKeyed k v [] e h = (e, refl, tt)
  insert-IsKeyed k v ((j, w) ∷ m) e h =
      ground (arith, text_eq_iff j k, text_eq_iff k j, lookup-insert k j v m, insert-IsKeyed k v m)

  delete-IsKeyed : (k : Text) (m : Map Text (MemoryVector fl bt)) → IsKeyed m → IsKeyed (delete k m)
  unfolding delete lookup
  delete-IsKeyed k [] h = tt
  delete-IsKeyed k ((j, w) ∷ m) h = ground (arith, lookup-delete k j m, delete-IsKeyed k m)

  lookup-IsKeyed :
      (k : Text) (v : MemoryVector fl bt) (m : Map Text (MemoryVector fl bt))
      → IsKeyed m
      → lookup k m ≡ some v
      → v.id ≡ k
  unfolding lookup
  lookup-IsKeyed k v [] h e = ground arith
  lookup-IsKeyed k v ((j, w) ∷ m) h e = ground (arith, text_eq_iff j k, lookup-IsKeyed k v m)

  pub latest-list_entries :
      (m : Map Text (MemoryVector fl bt)) (j : Text)
      → IsKeyed m
      → latest fl j (list_entries fl bt m) ≡ values_of (lookup j m)
  unfolding list_entries lookup
  latest-list_entries [] j h = refl
  latest-list_entries ((k, v) ∷ m) j h = ground (
    arith,
    text_eq_iff v.id j,
    text_eq_iff k j,
    latest-list_entries m j,
    to_float32-to_float64 fl v.values,
  )

  pub upsert_one-IsValid :
      (vec : Vector F64) (s : MemoryStore fl bt) → IsValid s → IsValid (upsert_one fl bt vec s)
  unfolding upsert_one OrderedIds.upsert
  upsert_one-IsValid vec s h = record {
    keyed = insert-IsKeyed vec.id _ s.vectors refl h.keyed;
    indexed = λ j. ground (
      arith,
      h.indexed j,
      bt.contains-insert vec.id j (ensure bt s.ids),
      lookup-insert vec.id j (record { id = vec.id; values = to_float32 fl vec.values }) s.vectors,
    );
  }

  -- From a store whose entries carry their ids, hold each id once, and have exactly the ids of the
  -- ordered index, UpsertVectors leads to such a store.
  pub upsert-IsValid :
      (vecs : List (Vector F64)) (s : MemoryStore fl bt)
      → IsValid s
      → IsValid (upsert_vectors fl bt vecs s).1
  unfolding upsert_vectors
  upsert-IsValid [] s h = h
  upsert-IsValid (vec ∷ vecs) s h =
      upsert-IsValid vecs (upsert_one fl bt vec s) (upsert_one-IsValid vec s h)

  pub upsert-done :
      (vecs : List (Vector F64)) (s : MemoryStore fl bt) → (upsert_vectors fl bt vecs s).0 ≡ done
  unfolding upsert_vectors
  upsert-done [] s = refl
  upsert-done (vec ∷ vecs) s = upsert-done vecs (upsert_one fl bt vec s)

  -- After UpsertVectors, an id of the batch has the values of its last vector there, as float32, and
  -- any other id has what it had.
  pub view-upsert :
      (vecs : List (Vector F64)) (s : MemoryStore fl bt) (j : Text)
      → view (upsert_vectors fl bt vecs s).1 j ≡ or_else (latest fl j vecs) (view s j)
  unfolding upsert_vectors view upsert_one
  view-upsert [] s j = refl
  view-upsert (vec ∷ vecs) s j = ground (
    arith,
    view-upsert vecs (upsert_one fl bt vec s) j,
    lookup-insert vec.id j (record { id = vec.id; values = to_float32 fl vec.values }) s.vectors,
  )

  -- In a store whose entries carry their ids, hold each id once, and have exactly the ids of the
  -- ordered index, GetVector returns the id with its values, as float64, or reports that it has none.
  pub get-view :
      (id : Text) (s : MemoryStore fl bt)
      → IsValid s
      → get_vector fl bt id s ≡ get_outcome fl id (view s id)
  unfolding get_vector view
  get-view id s h = elim (Option-cases (lookup id s.vectors)) [
    | inl miss ↦ rw (miss, get_vector, view)
    | inr (v, hit) ↦
        rw (hit, get_vector, view)
          (λ t. ok (record {
            id = lookup-IsKeyed id v s.vectors h.keyed hit t;
            values = to_float64 fl v.values;
          }))
  ]

  -- From a store whose entries carry their ids, hold each id once, and have exactly the ids of the
  -- ordered index, DeleteVector leads to such a store.
  pub delete-IsValid :
      (id : Text) (s : MemoryStore fl bt) → IsValid s → IsValid (delete_vector fl bt id s).1
  unfolding delete_vector OrderedIds.delete
  delete-IsValid id s h = elim (Option-cases (lookup id s.vectors)) [
    | inl miss ↦ rw (miss, delete_vector) h
    | inr (v, hit) ↦
        rw (hit, delete_vector)
          (record {
            keyed = delete-IsKeyed id s.vectors h.keyed;
            indexed = λ j. ground (
              arith,
              h.indexed j,
              bt.contains-delete id j (ensure bt s.ids),
              lookup-delete id j s.vectors,
            );
          })
  ]

  -- From a store whose entries carry their ids, hold each id once, and have exactly the ids of the
  -- ordered index, UpsertVectors and DeleteVector lead to such stores.
  pub operations-IsValid :
      (vecs : List (Vector F64)) (id : Text) (s : MemoryStore fl bt)
      → IsValid s
      → IsValid (upsert_vectors fl bt vecs s).1 × IsValid (delete_vector fl bt id s).1
  operations-IsValid vecs id s h = (upsert-IsValid vecs s h, delete-IsValid id s h)

  pub delete-view :
      (id : Text) (s : MemoryStore fl bt)
      → (delete_vector fl bt id s).0 ≡ delete_outcome fl (view s id)
  unfolding delete_vector view
  delete-view id s = ground arith

  -- After DeleteVector the id has no values, and any other id has what it had.
  pub view-delete :
      (id : Text) (s : MemoryStore fl bt) (j : Text)
      → view (delete_vector fl bt id s).1 j ≡ (if id == j then none else view s j)
  unfolding delete_vector view
  view-delete id s j = ground (arith, lookup-delete id j s.vectors, text_eq_iff id j)

  -- memoryVectorStore as the service's VectorStore.
  unfoldable pub memory_store : VectorStore fl
  unfolding list_vectors view
  memory_store = record {
    State = MemoryStore fl bt;
    upsert_vectors = upsert_vectors fl bt;
    get_vector = λ id s. (get_vector fl bt id s, s);
    delete_vector = delete_vector fl bt;
    list_vectors = list_vectors fl bt;
    is_persistent = false;
    view = view;
    IsValid = IsValid;
    upsert-IsValid = upsert-IsValid;
    upsert-done = λ vs s _. upsert-done vs s;
    view-upsert = λ vs s j _. view-upsert vs s j;
    get-IsValid = λ id s h. h;
    get-view = get-view;
    view-get = λ id s j _. refl;
    delete-IsValid = delete-IsValid;
    delete-view = λ id s _. delete-view id s;
    view-delete = λ id s j _. view-delete id s j;
    latest-list = λ s j h. latest-list_entries s.vectors j h.keyed;
  }
