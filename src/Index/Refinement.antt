-- ===== src/Index/Refinement.antt =====
-- The operations of the index against the finite map that it stands for.
use lumenvec.Base.{◌≡◌, none, Text, Text-Eq, ◌==◌, if◌then◌else◌}
use lumenvec.Numeric.{Floats, Vector, to_float32}
use lumenvec.Index.{Index, add_vector, search_vector, delete_vector}
use lumenvec.Index.Laws.{
  IsKeyed, find, add_outcome, keep_first, delete_outcome, search_outcome, add_vector-IsKeyed,
  delete_vector-IsKeyed, add_vector_lem, delete_vector_lem, search_vector_lem,
}

-- In an index whose entries carry the id that they stand under: SearchVector returns the id with
-- its vector, as float64, or reports that the id has none; AddVector reports an id that has a
-- vector and leaves it that vector, and gives any other id the new one as float32; DeleteVector
-- reports an id without a vector and takes the vector of any other away. No other id is touched,
-- and the entries carry their ids afterwards.
pub operations-find :
    (fl : Floats) (vec : Vector fl.F64) (id : Text) (i : Index fl) (j : Text)
    → IsKeyed fl i
    → (search_vector fl id i ≡ search_outcome fl id (find fl i id))
      × ((add_vector fl vec i).0 ≡ add_outcome fl (find fl i vec.id))
      × (find fl (add_vector fl vec i).1 j ≡ (
          if vec.id == j
          then keep_first fl (find fl i vec.id) (to_float32 fl vec.values)
          else find fl i j))
      × IsKeyed fl (add_vector fl vec i).1
      × ((delete_vector fl id i).0 ≡ delete_outcome fl (find fl i id))
      × (find fl (delete_vector fl id i).1 j ≡ (if id == j then none else find fl i j))
      × IsKeyed fl (delete_vector fl id i).1
operations-find fl vec id i j h =
    let (added, kept) = add_vector_lem fl vec i j in
    let (deleted, left) = delete_vector_lem fl id i j in
    (
      search_vector_lem fl id i h,
      added,
      kept,
      add_vector-IsKeyed fl vec i h,
      deleted,
      left,
      delete_vector-IsKeyed fl id i h,
    )
