-- ===== src/FileStore/Reopen.antt =====
-- What a data file that is opened again gives for an id.
use lumenvec.Base.{
  subst, ℕ, ◌+◌, ◌-◌, ◌%◌, ◌^◌, ◌≡◌, refl, sym, ◌∙◌, ap, false, List, [], ◌∷◌, ◌++◌, Option, none,
  some, Text, Text-Eq, text_eq_iff, ◌==◌, All, Map, lookup, lookup-insert, lookup-delete, length,
  Bool-cases, inl, inr, take, drop, ltb, nat_eq, if◌then◌else◌, Result, ok, err, ◌>>=◌,
  vector_not_found, arith, length-append, take_prefix, drop_prefix,
}
use mathlib.Core.List.{append_assoc, append-nil}
use lumenvec.Numeric.{Floats, Vector, to_float32, to_float64}
use lumenvec.FileStore.Codec.{op_delete, u32, Record32}
use lumenvec.FileStore.RoundTrip.{u32-put_u32, drop-put_u32}
use lumenvec.FileStore.Rebuild.{Meta, Scan, scan_start, index_record, rebuild_index}
use lumenvec.FileStore.Log.{
  Entry, payload, size, decoded, Fits, frame, file_of, replay, written, length-payload,
  length-frame, decode-payload, written-file_of, rebuild-written,
}
use lumenvec.FileStore.Read.{read_record32_at, read_record_at, read_vector_record, get_vector}

take_whole : (xs : List ℕ) → take (length xs) xs ≡ xs
take_whole xs = ap (take (length xs)) (sym (append-nil xs)) ∙ take_prefix xs []

module _ (fl : Floats) where
  open fl use {F64, F32}

  abbrev pub id_of : Entry fl → Text
  id_of (Entry.put id values) = id
  id_of (Entry.put_float64 id values) = id
  id_of (Entry.delete id) = id

  -- What an entry leaves under its id.
  abbrev pub left_by : Entry fl → Option (List F32)
  left_by (Entry.put id values) = some (to_float32 fl values)
  left_by (Entry.put_float64 id values) = some (to_float32 fl values)
  left_by (Entry.delete id) = none

  -- The values that a log leaves under an id, from `acc` on: those of the last entry for the id.
  abbrev pub last_values : Text → Option (List F32) → List (Entry fl) → Option (List F32)
  last_values j acc [] = acc
  last_values j acc (e ∷ es) = last_values j (if id_of e == j then left_by e else acc) es

  abbrev pub get_outcome : Text → Option (List F32) → Result (Vector F64)
  get_outcome id none = err vector_not_found
  get_outcome id (some v) = ok (record { id = id; values = to_float64 fl v })

  -- A record is read back from where it stands.
  read-frame :
      (front rest : List ℕ) (e : Entry fl)
      → Fits fl e
      → read_record32_at fl (front ++ (frame fl e ++ rest)) (record {
        record_offset = length front;
        record_length = (4 + size fl e) % 2 ^ 32;
        deleted = false;
      })
        ≡ ok (decoded fl e)
  unfolding read_record32_at
  read-frame front rest e h =
      let n = size fl e in
      let whole : (4 + n) % 2 ^ 32 ≡ length (frame fl e) = omega (arith, length-frame fl e) in
      let fit : ltb (length (frame fl e)) (length (frame fl e)) ≡ false = ground arith in
      let count : u32 (frame fl e) ≡ n = u32-put_u32 n (payload fl e) (omega arith) in
      let room : ltb (length (frame fl e) % 2 ^ 32) (length (frame fl e)) ≡ false =
        ground (arith, length-frame fl e) in
      let body : take (length (frame fl e) - 4) (drop 4 (frame fl e)) ≡ payload fl e =
        ap (take (length (frame fl e) - 4)) (drop-put_u32 n (payload fl e))
        ∙ (ap (λ (m : ℕ). take m (payload fl e))
              (omega (arith, length-frame fl e, length-payload fl e))
            ∙ take_whole (payload fl e)) in
      rw
        (
          drop_prefix front (frame fl e ++ rest),
          whole,
          take_prefix (frame fl e) rest,
          fit,
          count,
          whole,
          room,
          body,
        )
        (decode-payload fl e h)

  -- An offset from which a put of `v` under `j` can be read, or none.
  abbrev pub Serves : List ℕ → Text → Option (List F32) → Option Meta → Type 0
  Serves file j none m = m ≡ none
  Serves file j (some v) m =
      (meta : Meta) × (r : Record32 fl) × (m ≡ some meta)
      × (meta.deleted ≡ false)
      × (read_record32_at fl file meta ≡ ok r)
      × (r.id ≡ j)
      × (r.values ≡ v)
      × (nat_eq r.op op_delete ≡ false)

  abbrev after : Entry fl → Text → Option (List F32) → Option (List F32)
  after e j acc = if id_of e == j then left_by e else acc

  put-Serves :
      (file : List ℕ) (r : Record32 fl) (n : ℕ) (st : Scan) (j : Text) (acc : Option (List F32))
      → nat_eq r.op op_delete ≡ false
      → read_record32_at fl file
          (record { record_offset = st.offset; record_length = (4 + n) % 2 ^ 32; deleted = false })
        ≡ ok r
      → Serves file j acc (lookup j st.offsets)
      → Serves file j
          (if r.id == j then some r.values else acc)
          (lookup j (index_record fl r n st).offsets)
  unfolding index_record
  put-Serves file r n st j acc put good old =
      let meta : Meta = record {
        record_offset = st.offset;
        record_length = (4 + n) % 2 ^ 32;
        deleted = false;
      } in
      rw (put, index_record, lookup-insert r.id j meta st.offsets)
        (elim (Bool-cases (r.id == j)) [
          | inl same ↦ rw same (meta, r, refl, refl, good, (text_eq_iff r.id j).0 same, refl, put)
          | inr other ↦ rw other old
        ])

  step-Serves :
      (file : List ℕ) (e : Entry fl) (st : Scan) (j : Text) (acc : Option (List F32))
      → read_record32_at fl file (record {
        record_offset = st.offset;
        record_length = (4 + size fl e) % 2 ^ 32;
        deleted = false;
      })
        ≡ ok (decoded fl e)
      → Serves file j acc (lookup j st.offsets)
      → Serves file j
          (after e j acc)
          (lookup j (index_record fl (decoded fl e) (size fl e) st).offsets)
  unfolding index_record
  step-Serves file (Entry.put id values) st j acc good old =
      put-Serves file (decoded fl (Entry.put id values)) _ st j acc refl good old
  step-Serves file (Entry.put_float64 id values) st j acc good old =
      put-Serves file (decoded fl (Entry.put_float64 id values)) _ st j acc refl good old
  step-Serves file (Entry.delete id) st j acc good old =
      rw (lookup-delete id j st.offsets)
        (elim (Bool-cases (id == j)) [ inl same ↦ rw same refl | inr other ↦ rw other old ])

  offset-index_record :
      (r : Record32 fl) (n : ℕ) (st : Scan) → (index_record fl r n st).offset ≡ st.offset + 4 + n
  unfolding index_record
  offset-index_record r n st = ground arith

  pub replay-Serves :
      (file front : List ℕ) (log : List (Entry fl)) (st : Scan) (j : Text) (acc : Option (List F32))
      → file ≡ front ++ file_of fl log
      → st.offset ≡ length front
      → All (Fits fl) log
      → Serves file j acc (lookup j st.offsets)
      → Serves file j (last_values j acc log) (lookup j (replay fl log st).offsets)
  replay-Serves file front [] st j acc whole at h old = old
  replay-Serves file front (e ∷ log) st j acc whole at h old =
      let good : read_record32_at fl file (record {
        record_offset = st.offset;
        record_length = (4 + size fl e) % 2 ^ 32;
        deleted = false;
      })
          ≡ ok (decoded fl e) =
        rw (whole, at) (read-frame front (file_of fl log) e h.0) in
      replay-Serves file (front ++ frame fl e) log (index_record fl (decoded fl e) (size fl e) st) j
        (after e j acc) (whole ∙ sym (append_assoc front (frame fl e) (file_of fl log)))
        (omega (
          arith,
          at,
          offset-index_record (decoded fl e) (size fl e) st,
          length-append {0} front (frame fl e),
          length-frame fl e,
        ))
        h.1 (step-Serves file e st j acc good old)

  get-Serves :
      (file : List ℕ) (offsets : Map Text Meta) (j : Text) (o : Option (List F32))
      → Serves file j o (lookup j offsets)
      → get_vector fl (some file) offsets j ≡ get_outcome j o
  unfolding get_vector read_vector_record read_record_at
  get-Serves file offsets j none h = rw (h, read_vector_record)
  get-Serves file offsets j (some v) (meta, r, found, live, good, named, same, put) =
      rw (found, live, good, put, read_vector_record)
        (λ i. ok (record { id = named i; values = to_float64 fl (same i) }))

  pub missing-replay :
      (log : List (Entry fl)) (j : Text)
      → All (Fits fl) log
      → last_values j none log ≡ none
      → lookup j (replay fl log scan_start).offsets ≡ none
  unfolding lookup
  missing-replay log j h none_left =
      subst (λ o. Serves (file_of fl log) j o (lookup j (replay fl log scan_start).offsets))
        none_left (replay-Serves (file_of fl log) [] log scan_start j none refl refl h refl)

  pub held-replay :
      (log : List (Entry fl)) (j : Text) (v : List F32)
      → All (Fits fl) log
      → last_values j none log ≡ some v
      → (meta : Meta) × (lookup j (replay fl log scan_start).offsets ≡ some meta)
        × (meta.deleted ≡ false)
  unfolding lookup
  held-replay log j v h left =
      let (meta, _, found, live, _, _, _, _) =
        subst (λ o. Serves (file_of fl log) j o (lookup j (replay fl log scan_start).offsets)) left
          (replay-Serves (file_of fl log) [] log scan_start j none refl refl h refl) in
      (meta, found, live)

  pub get-replay :
      (log : List (Entry fl)) (j : Text)
      → All (Fits fl) log
      → get_vector fl (some (file_of fl log)) (replay fl log scan_start).offsets j
        ≡ get_outcome j (last_values j none log)
  unfolding lookup
  get-replay log j h =
      get-Serves (file_of fl log) (replay fl log scan_start).offsets j (last_values j none log)
        (replay-Serves (file_of fl log) [] log scan_start j none refl refl h refl)

  -- Once the file that the encodings of a log make up has been opened, GetVector returns for every
  -- id the values of the log's last entry for it, as float32, and reports an id that the log lacks
  -- or deletes last. The records, with their lengths, are shorter than 2 ^ 32.
  pub get_vector-rebuild :
      (log : List (Entry fl)) (j : Text)
      → All (Fits fl) log
      → (do
        file ← written fl log
        st ← rebuild_index fl file
        get_vector fl (some file) st.offsets j)
        ≡ get_outcome j (last_values j none log)
  get_vector-rebuild log j h =
      let opened : rebuild_index fl (file_of fl log) ≡ ok (replay fl log scan_start) =
        ap (λ r. r >>= rebuild_index fl) (sym (written-file_of fl log))
        ∙ rebuild-written fl log h in
      rw (written-file_of fl log, opened) (get-replay log j h)
