-- ===== src/VectorStore.antt =====
-- The interface VectorStore of internal/core/vector_store.go: its operations, and laws of a store
-- whose calls do not fail, which the memory store and the cached store over such a store prove. The
-- file store, whose calls can fail, does not fill it. The failing calls of a store that the service
-- meets are answers of the service's operations (Service.Io).
use lumenvec.Base.{
  ◌≡◌, Bool, List, [], ◌∷◌, Option, none, some, Text, Text-Eq, ◌==◌, Result, ok, err, done,
  vector_not_found, if◌then◌else◌,
}
use lumenvec.Numeric.{Floats, Vector, to_float32, to_float64}

abbrev pub or_else {ℓ} : {A : Type ℓ} → Option A → Option A → Option A
or_else (some x) d = some x
or_else none d = d

module _ (fl : Floats) where
  open fl use {F64, F32}

  -- The values that a list of vectors binds to an id, as stored: the last one wins.
  abbrev pub latest : Text → List (Vector F64) → Option (List F32)
  latest j [] = none
  latest j (v ∷ vs) =
      or_else (latest j vs) (if v.id == j then some (to_float32 fl v.values) else none)

  abbrev pub get_outcome : Text → Option (List F32) → Result (Vector F64)
  get_outcome id none = err vector_not_found
  get_outcome id (some v) = ok (record { id = id; values = to_float64 fl v })

  abbrev pub delete_outcome : Option (List F32) → Result (Unit {0})
  delete_outcome none = err vector_not_found
  delete_outcome (some _) = done

  pub record VectorStore : Type 1 where
    pub State : Type 0
    pub upsert_vectors : List (Vector F64) → State → Result (Unit {0}) × State
    pub get_vector : Text → State → Result (Vector F64) × State
    pub delete_vector : Text → State → Result (Unit {0}) × State
    pub list_vectors : State → List (Vector F64)
    pub is_persistent : Bool
    -- what a store holds, and the states for which the laws are stated
    pub view : State → Text → Option (List F32)
    pub IsValid : State → Type 0
    pub upsert-IsValid :
        (vs : List (Vector F64)) (s : State) → IsValid s → IsValid (upsert_vectors vs s).1
    pub upsert-done :
        (vs : List (Vector F64)) (s : State) → IsValid s → (upsert_vectors vs s).0 ≡ done
    pub view-upsert :
        (vs : List (Vector F64)) (s : State) (j : Text)
        → IsValid s
        → view (upsert_vectors vs s).1 j ≡ or_else (latest j vs) (view s j)
    pub get-IsValid : (id : Text) (s : State) → IsValid s → IsValid (get_vector id s).1
    pub get-view :
        (id : Text) (s : State) → IsValid s → (get_vector id s).0 ≡ get_outcome id (view s id)
    pub view-get :
        (id : Text) (s : State) (j : Text) → IsValid s → view (get_vector id s).1 j ≡ view s j
    pub delete-IsValid : (id : Text) (s : State) → IsValid s → IsValid (delete_vector id s).1
    pub delete-view :
        (id : Text) (s : State) → IsValid s → (delete_vector id s).0 ≡ delete_outcome (view s id)
    pub view-delete :
        (id : Text) (s : State) (j : Text)
        → IsValid s
        → view (delete_vector id s).1 j ≡ (if id == j then none else view s j)
    pub latest-list : (s : State) (j : Text) → IsValid s → latest j (list_vectors s) ≡ view s j
