-- ===== src/CachedStore/Stale.antt =====
-- A GetVector that a DeleteVector overtakes. GetVector asks the store without the lock of the cache
-- and takes the lock to put the answer into the cache: fetch and finish are its two steps.
use lumenvec.Base.{
  ℕ, ◌≤◌, ◌∙◌, true, ◌≡◌, refl, inl, List, none, some, Text, Text-Eq, text_eq_refl, arith, ok,
}
use lumenvec.Base.Ints.{is_nonpos}
use lumenvec.Numeric.{Floats, to_float64, to_float32-to_float64}
use lumenvec.VectorStore.{VectorStore}
use lumenvec.CachedStore.{remove_cached, put_vector, put32, estimate_vector_size_bytes32}
use lumenvec.CachedStore.Reading.{remove-Shrinks}
use lumenvec.CachedStore.Found.{put32-get}
use lumenvec.CachedStore.Store.{CachedStore, fetch, finish, get_vector, delete_vector}
use lumenvec.CachedStore.Coherence.{IsValid, view, counted_miss, counted_miss-IsValid}
use lumenvec.CachedStore.Refinement.{answered, get_vector_hit}

module _ (fl : Floats) (vs : VectorStore fl) (clock : ℕ → ℕ) where
  open fl use {F64, F32}

  -- The state after a GetVector that asked the store for an id before a DeleteVector of that id
  -- ran, and filled the cache after it.
  unfoldable pub overtaken : Text → CachedStore fl vs → CachedStore fl vs
  overtaken id s =
      let (r, asked) = fetch fl vs clock id s in
      let deleted = (delete_vector fl vs clock id asked).1 in (finish fl vs clock r deleted).1

  overtaken_lem :
      (id : Text) (v : List F32) (s : CachedStore fl vs)
      → IsValid fl vs clock s
      → view fl vs clock s id ≡ some v
      → overtaken id s ≡ record {
        backend = (vs.delete_vector id (vs.get_vector id s.backend).1).1;
        cache = put32 fl clock id v (remove_cached fl id (counted_miss fl vs clock s.cache));
      }
  unfolding overtaken fetch delete_vector finish view counted_miss put_vector
  overtaken_lem id v s h held =
      let b = (vs.get_vector id s.backend).1 in
      let still : vs.view b id ≡ some v = vs.view-get id s.backend id h.backend ∙ held in
      rw
        (
          vs.get-view id s.backend h.backend,
          overtaken,
          finish,
          held,
          vs.delete-view id b (vs.get-IsValid id s.backend h.backend),
          delete_vector,
          still,
          to_float32-to_float64 fl v,
        )
        refl

  -- Where the store holds values for an id, they fit into the cache, and entries do not expire: after
  -- a GetVector that a DeleteVector of the id overtook, the store holds nothing for the id, and every
  -- GetVector still returns the deleted values from the cache.
  pub overtaken_is_stale :
      (id : Text) (v : List F32) (s : CachedStore fl vs)
      → IsValid fl vs clock s
      → view fl vs clock s id ≡ some v
      → estimate_vector_size_bytes32 fl id v ≤ s.cache.max_bytes
      → 1 ≤ s.cache.max_items
      → is_nonpos s.cache.ttl ≡ true
      → (view fl vs clock (overtaken id s) id ≡ none)
        × ((get_vector fl vs clock id (overtaken id s)).0
            ≡ ok (record { id = id; values = to_float64 fl v }))
  unfolding view answered counted_miss
  overtaken_is_stale id v s h held fits room forever =
      let b = (vs.get_vector id s.backend).1 in
      let valid = vs.get-IsValid id s.backend h.backend in
      let c = counted_miss fl vs clock s.cache in
      let (shrinks, _) =
        remove-Shrinks fl id c (counted_miss-IsValid fl vs clock s.cache h.cache) in
      let s' : CachedStore fl vs = record {
        backend = (vs.delete_vector id b).1;
        cache = put32 fl clock id v (remove_cached fl id c);
      } in
      let hit =
        put32-get fl clock id v (remove_cached fl id c) shrinks.valid (rw shrinks.max_bytes fits)
          (rw shrinks.max_items room) (inl (rw shrinks.ttl forever)) in
      rw (overtaken_lem id v s h held) (
        ground (arith, vs.view-delete id b id valid, text_eq_refl id),
        rw (get_vector_hit fl vs clock id v s' hit) refl,
      )
