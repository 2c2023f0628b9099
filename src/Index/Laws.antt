-- ===== src/Index/Laws.antt =====
-- The index as a finite map from ids to float32 vectors.
use lumenvec.Base.{
  ◌≡◌, refl, List, Option, none, some, Text, Text-Eq, text_eq_iff, ◌==◌, lookup, lookup-insert,
  lookup-delete, Result, ok, err, done, vector_exists, vector_not_found, if◌then◌else◌, arith,
  Option-cases, inl, inr, ◌⊎◌,
}
use lumenvec.Numeric.{Floats, Vector, to_float32, to_float64}
use lumenvec.Index.{StoredVector, Index, new_index, add_vector, search_vector, delete_vector}

module _ (fl : Floats) where
  open fl use {F64, F32}

  abbrev values_of : Option (StoredVector fl) → Option (List F32)
  values_of none = none
  values_of (some v) = some v.values

  -- The vector of an id.
  unfoldable pub find : Index fl → Text → Option (List F32)
  find i id = values_of (lookup id i.vectors)

  -- Every entry carries the id that it stands under.
  pub record IsKeyed (i : Index fl) : Type 0 where
    pub at_key : (k : Text) (v : StoredVector fl) → lookup k i.vectors ≡ some v → v.id ≡ k

  pub new_index-IsKeyed : IsKeyed (new_index fl)
  unfolding lookup
  new_index-IsKeyed = record { at_key = λ k v h. ground arith }

  pub add_vector-IsKeyed :
      (vec : Vector F64) (i : Index fl) → IsKeyed i → IsKeyed (add_vector fl vec i).1
  unfolding add_vector
  add_vector-IsKeyed vec i h = record {
    at_key = λ k v e. ground (
      arith,
      h.at_key k v,
      lookup-insert vec.id k (record { id = vec.id; values = to_float32 fl vec.values }) i.vectors,
      text_eq_iff vec.id k,
    );
  }

  pub delete_vector-IsKeyed :
      (id : Text) (i : Index fl) → IsKeyed i → IsKeyed (delete_vector fl id i).1
  unfolding delete_vector
  delete_vector-IsKeyed id i h = record {
    at_key = λ k v e. ground (arith, h.at_key k v, lookup-delete id k i.vectors);
  }

  abbrev pub add_outcome : Option (List F32) → Result (Unit {0})
  add_outcome none = done
  add_outcome (some _) = err vector_exists

  abbrev pub delete_outcome : Option (List F32) → Result (Unit {0})
  delete_outcome none = err vector_not_found
  delete_outcome (some _) = done

  abbrev pub search_outcome : Text → Option (List F32) → Result (Vector F64)
  search_outcome id none = err vector_not_found
  search_outcome id (some v) = ok (record { id = id; values = to_float64 fl v })

  abbrev pub keep_first : Option (List F32) → List F32 → Option (List F32)
  keep_first none new = some new
  keep_first (some old) new = some old

  -- AddVector reports a taken id and then changes nothing; else it binds the id to the float32
  -- vector. Other ids are untouched.
  pub add_vector_lem :
      (vec : Vector F64) (i : Index fl) (j : Text)
      → ((add_vector fl vec i).0 ≡ add_outcome (find i vec.id))
        × (find (add_vector fl vec i).1 j ≡ (
            if vec.id == j
            then keep_first (find i vec.id) (to_float32 fl vec.values)
            else find i j))
  unfolding add_vector find
  add_vector_lem vec i j =
      let fresh =
        lookup-insert vec.id j (record { id = vec.id; values = to_float32 fl vec.values })
          i.vectors in
      (ground arith, ground (arith, fresh, text_eq_iff vec.id j))

  -- DeleteVector reports an id without a vector and then changes nothing; else it removes the id.
  -- Other ids are untouched.
  pub delete_vector_lem :
      (id : Text) (i : Index fl) (j : Text)
      → ((delete_vector fl id i).0 ≡ delete_outcome (find i id))
        × (find (delete_vector fl id i).1 j ≡ (if id == j then none else find i j))
  unfolding delete_vector find
  delete_vector_lem id i j =
      (ground arith, ground (arith, lookup-delete id j i.vectors, text_eq_iff id j))

  -- In an index whose entries carry the id that they stand under, SearchVector returns the id with
  -- its vector, as float64, or reports that the id has none.
  pub search_vector_lem :
      (id : Text) (i : Index fl) → IsKeyed i → search_vector fl id i ≡ search_outcome id (find i id)
  unfolding search_vector find
  search_vector_lem id i h = elim (Option-cases (lookup id i.vectors)) [
    | inl miss ↦ rw (miss, search_vector, find)
    | inr (v, hit) ↦
        rw (hit, search_vector, find)
          (λ t. ok (record { id = h.at_key id v hit t; values = to_float64 fl v.values }))
  ]

  -- AddVector either binds the id, or reports that it is taken and leaves the index as it was.
  pub add_vector-cases :
      (vec : Vector F64) (i : Index fl)
      → ((add_vector fl vec i).0 ≡ done)
        ⊎ (((add_vector fl vec i).0 ≡ err vector_exists) × ((add_vector fl vec i).1 ≡ i))
  unfolding add_vector
  add_vector-cases vec i = elim (Option-cases (lookup vec.id i.vectors)) [
    | inl miss ↦ rw (miss, add_vector) (inl refl)
    | inr (v, hit) ↦ rw (hit, add_vector) (inr (refl, refl))
  ]
