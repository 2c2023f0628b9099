-- ===== src/Index.antt =====
-- internal/index/index.go: the index that exact search scans.
pub mod Laws
pub mod Refinement
use lumenvec.Base.{
  ℕ, Bool, List, [], ◌∷◌, none, some, Text, Text-Eq, Map, lookup, insert, delete, Result, ok, err,
  done, vector_exists, vector_not_found, if◌then◌else◌,
}
use lumenvec.Numeric.{Floats, Vector, to_float32, to_float64}

module _ (fl : Floats) where
  open fl use {F64, F32}

  -- storedVector
  pub record StoredVector : Type 0 where
    pub id : Text
    pub values : List F32

  pub record Index : Type 0 where
    pub vectors : Map Text StoredVector

  abbrev pub new_index : Index
  new_index = record { vectors = [] }

  unfoldable pub add_vector : Vector F64 → Index → Result (Unit {0}) × Index
  add_vector vec i = elim (lookup vec.id i.vectors) [
    | some _ ↦ (err vector_exists, i)
    | none ↦ (
      done,
      record {
        vectors =
            insert vec.id (record { id = vec.id; values = to_float32 fl vec.values }) i.vectors;
      },
    )
  ]

  abbrev pub public_vector : StoredVector → Vector F64
  public_vector vec = record { id = vec.id; values = to_float64 fl vec.values }

  unfoldable pub search_vector : Text → Index → Result (Vector F64)
  search_vector id i = elim (lookup id i.vectors) [
    | none ↦ err vector_not_found
    | some vec ↦ ok (public_vector vec)
  ]

  unfoldable pub delete_vector : Text → Index → Result (Unit {0}) × Index
  delete_vector id i = elim (lookup id i.vectors) [
    | none ↦ (err vector_not_found, i)
    | some _ ↦ (done, record { vectors = delete id i.vectors })
  ]

  list_entries : Map Text StoredVector → List (Vector F64)
  list_entries [] = []
  list_entries ((_, vec) ∷ m) = public_vector vec ∷ list_entries m

  unfoldable pub list_vectors : Index → List (Vector F64)
  unfolding list_entries
  list_vectors i = list_entries i.vectors

  module _ {S : Type 0} where
    range_entries : (Vector F64 → S → S × Bool) → Map Text StoredVector → S → S
    range_entries fn [] s = s
    range_entries fn ((_, vec) ∷ m) s =
        let (s', more) = fn (public_vector vec) s in
        let rest = range_entries fn m s' in if more then rest else s'

    -- RangeVectors; the callback's state is carried along
    unfoldable pub range_vectors : (Vector F64 → S → S × Bool) → Index → S → S
    unfolding range_entries
    range_vectors fn i = range_entries fn i.vectors

    unfoldable pub range_entries32 :
        (Text → List F32 → S → S × Bool) → Map Text StoredVector → S → S
    range_entries32 fn [] s = s
    range_entries32 fn ((_, vec) ∷ m) s =
        let (s', more) = fn vec.id vec.values s in
        let rest = range_entries32 fn m s' in if more then rest else s'

    -- RangeVectors32
    unfoldable pub range_vectors32 : (Text → List F32 → S → S × Bool) → Index → S → S
    unfolding range_entries32
    range_vectors32 fn i = range_entries32 fn i.vectors
