-- ===== src/FileStore/Compact/Values.antt =====
-- The records of the new file hold the values that the old file serves.
use lumenvec.Base.{
  ℕ, ◌≡◌, refl, ap, ◌∙◌, false, List, [], ◌∷◌, Option, none, some, Text, Text-Eq, text_eq_iff, ◌==◌,
  Map, lookup, ok, arith, All, AreDistinct, insert-AreDistinct, delete-AreDistinct, Bool-cases, inl,
  inr, if◌then◌else◌, nat_eq,
}
use lumenvec.Numeric.{Floats, Vector, to_float64, to_float32-to_float64}
use lumenvec.OrderedIds.{BTree}
use lumenvec.FileStore.Codec.{op_delete, Record32}
use lumenvec.FileStore.Rebuild.{Meta, Scan, index_record}
use lumenvec.FileStore.Log.{Entry, size, decoded, replay}
use lumenvec.FileStore.Read.{read_record32_at, read_record_at}
use lumenvec.FileStore.Reopen.{last_values, Serves}
use lumenvec.FileStore.Write.Consistency.{puts}
use lumenvec.FileStore.Write.Tidy.{is_held}
use lumenvec.FileStore.Compact.{live_vectors}

module _ (fl : Floats) (bt : BTree) where
  open fl use {F64, F32}

  index_record-AreDistinct :
      (r : Record32 fl) (n : ℕ) (st : Scan)
      → AreDistinct st.offsets
      → AreDistinct (index_record fl r n st).offsets
  unfolding index_record
  index_record-AreDistinct r n st h = elim (Bool-cases (nat_eq r.op op_delete)) [
    | inl deletion ↦ rw deletion (delete-AreDistinct r.id st.offsets h)
    | inr write ↦ rw write (insert-AreDistinct r.id _ st.offsets h)
  ]

  pub replay-AreDistinct :
      (log : List (Entry fl)) (st : Scan)
      → AreDistinct st.offsets
      → AreDistinct (replay fl log st).offsets
  replay-AreDistinct [] st h = h
  replay-AreDistinct (e ∷ log) st h =
      replay-AreDistinct log (index_record fl (decoded fl e) (size fl e) st)
        (index_record-AreDistinct (decoded fl e) (size fl e) st h)

  -- Every entry of the offsets serves its id.
  abbrev pub ServesAll : List ℕ → (Text → Option (List F32)) → Map Text Meta → Type 0
  ServesAll file vals =
      All (λ e. (v : List F32) × (vals e.0 ≡ some v) × Serves fl file e.0 (some v) (some e.1))

  abbrev meta_of : Meta → Option Meta → Meta
  meta_of meta none = meta
  meta_of _ (some meta) = meta

  pub live-cons :
      (file : List ℕ) (id : Text) (meta : Meta) (v : List F32) (m : Map Text Meta)
      → Serves fl file id (some v) (some meta)
      → live_vectors fl bt file ((id, meta) ∷ m)
        ≡ record { id = id; values = to_float64 fl v } ∷ live_vectors fl bt file m
  unfolding live_vectors read_record_at
  live-cons file id meta v m (meta', r, same, live, good, named, valued, put) =
      let read : read_record32_at fl file meta ≡ ok r =
        ap (λ o. read_record32_at fl file (meta_of meta o)) same ∙ good in
      rw (read, live_vectors, put, valued) refl

  -- The last values that the new records leave for an id are those that the old file serves.
  pub live-last_values :
      (file : List ℕ) (vals : Text → Option (List F32)) (m : Map Text Meta) (j : Text)
      (acc : Option (List F32))
      → AreDistinct m
      → ServesAll file vals m
      → last_values fl j acc (puts fl bt (live_vectors fl bt file m))
        ≡ (if is_held (lookup j m) then vals j else acc)
  unfolding live_vectors lookup
  live-last_values file vals [] j acc d h = refl
  live-last_values file vals ((id, meta) ∷ m) j acc d ((v, held, serves), hs) =
      let rest = live_vectors fl bt file m in
      let before : (if is_held (lookup j m) then vals j else if id == j then some v else acc)
          ≡ (if is_held (lookup j ((id, meta) ∷ m)) then vals j else acc) =
        ground (arith, text_eq_iff id j, d.0, held) in
      ap (λ l. last_values fl j acc (puts fl bt l)) (live-cons file id meta v m serves)
      ∙ ap (λ (w : List F32). last_values fl j (if id == j then some w else acc) (puts fl bt rest))
          (to_float32-to_float64 fl v)
      ∙ live-last_values file vals m j (if id == j then some v else acc) d.1 hs
      ∙ before

  abbrev pub Differs : Text → List (Vector F64) → Type 0
  Differs id = All (λ vec. id == vec.id ≡ false)

  abbrev pub DistinctIds : List (Vector F64) → Type 0
  DistinctIds [] = Unit
  DistinctIds (vec ∷ vecs) = Differs vec.id vecs × DistinctIds vecs

  live-Differs :
      (file : List ℕ) (vals : Text → Option (List F32)) (id : Text) (m : Map Text Meta)
      → ServesAll file vals m
      → lookup id m ≡ none
      → Differs id (live_vectors fl bt file m)
  unfolding live_vectors lookup
  live-Differs file vals id [] h absent = tt
  live-Differs file vals id ((k, meta) ∷ m) ((v, held, serves), hs) absent =
      rw (live-cons file k meta v m serves) (
        ground (arith, text_eq_iff id k, text_eq_iff k id),
        live-Differs file vals id m hs (ground arith),
      )

  pub live-DistinctIds :
      (file : List ℕ) (vals : Text → Option (List F32)) (m : Map Text Meta)
      → AreDistinct m
      → ServesAll file vals m
      → DistinctIds (live_vectors fl bt file m)
  unfolding live_vectors
  live-DistinctIds file vals [] d h = tt
  live-DistinctIds file vals ((k, meta) ∷ m) d ((v, held, serves), hs) =
      rw (live-cons file k meta v m serves)
        (live-Differs file vals k m hs d.0, live-DistinctIds file vals m d.1 hs)
