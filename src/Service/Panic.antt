-- ===== src/Service/Panic.antt =====
-- Exact search panics on a query that is longer than a stored vector.
use lumenvec.Base.{
  ◌<◌, Text-Eq, ◌≡◌, refl, true, false, List, [], ◌∷◌, ◌++◌, Option, none, some, Text, Map, length,
  Option-cases, inl, inr, if◌then◌else◌,
}
use lumenvec.Base.Ints.{ℤ}
use lumenvec.Numeric.{to_float32, length-to_float32}
use lumenvec.Index.{StoredVector, range_entries32, range_vectors32}
use lumenvec.Distance.{Arithmetic, squared_distance32_same_len}
use lumenvec.Distance.Blocks.{squared_distance32-none}
use lumenvec.TopK.{TopK, new_top_k, add, Sorting}
use lumenvec.Service.{Deps, Service}
use lumenvec.Service.Search.{scan_vector, search_exact}

module _ (d : Deps) (ar : Arithmetic d.floats) (so : Sorting ar.rank) where
  open d use {floats}
  open floats use {F64, F32}

  none_scanned :
      (query : List F32) (m : Map Text (StoredVector floats))
      → range_entries32 floats (scan_vector d ar so query) m none ≡ none
  unfolding range_entries32 scan_vector
  none_scanned query [] = refl
  none_scanned query ((id, vec) ∷ m) = refl

  scan_vector-none :
      (query : List F32) (vec : StoredVector floats) (a : TopK ar.rank)
      → squared_distance32_same_len floats ar query vec.values ≡ none
      → scan_vector d ar so query vec.id vec.values (some a) ≡ (none, false)
  unfolding scan_vector
  scan_vector-none query vec a panic = rw (panic, scan_vector) refl

  scan_vector-some :
      (query : List F32) (vec : StoredVector floats) (a : TopK ar.rank) (dist : F64)
      → squared_distance32_same_len floats ar query vec.values ≡ some dist
      → scan_vector d ar so query vec.id vec.values (some a) ≡ (
        some
            (if ar.is_nan dist then a else add ar.rank (record { id = vec.id; distance = dist }) a),
        true,
      )
  unfolding scan_vector
  scan_vector-some query vec a dist measured = rw (measured, scan_vector) refl

  short-none :
      (query : List F32) (id : Text) (vec : StoredVector floats)
      (before after : Map Text (StoredVector floats)) (o : Option (TopK ar.rank))
      → length vec.values < length query
      → range_entries32 floats (scan_vector d ar so query) (before ++ (id, vec) ∷ after) o ≡ none
  unfolding range_entries32
  short-none query id vec before after none h = none_scanned query (before ++ (id, vec) ∷ after)
  short-none query id vec [] after (some a) h =
      rw (scan_vector-none query vec a (squared_distance32-none floats ar query vec.values h)) refl
  short-none query id vec ((_, v) ∷ before) after (some a) h =
      elim (Option-cases (squared_distance32_same_len floats ar query v.values)) [
        | inl panic ↦ rw (scan_vector-none query v a panic) refl
        | inr (dist, measured) ↦ rw (scan_vector-some query v a dist measured) (
            short-none query id vec before after
              (some (
                if ar.is_nan dist
                then a
                else add ar.rank (record { id = v.id; distance = dist }) a))
              h)
      ]

  -- Where the index holds a vector with fewer values than the query has, exact search panics, whatever
  -- else the index holds.
  pub search_exact_panics :
      (values : List F64) (k : ℤ) (s : Service d) (id : Text) (vec : StoredVector floats)
      (before after : Map Text (StoredVector floats))
      → s.index.vectors ≡ before ++ (id, vec) ∷ after
      → length vec.values < length values
      → search_exact d ar so values k s ≡ none
  unfolding search_exact range_vectors32
  search_exact_panics values k s id vec before after held short =
      let query = to_float32 floats values in
      let stopped =
        short-none query id vec before after (some (new_top_k ar.rank k))
          (rw (length-to_float32 floats values) short) in
      rw (held, stopped, search_exact) refl
