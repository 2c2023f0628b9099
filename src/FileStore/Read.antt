-- ===== src/FileStore/Read.antt =====
-- readFileVectorRecordAt, readVectorRecord and GetVector of internal/core/file_vector_store.go.
use lumenvec.Base.{
  ℕ, ◌+◌, ◌-◌, ◌%◌, ◌^◌, true, false, List, Option, none, some, Text, Text-Eq, Map, lookup, length,
  take, drop, ltb, nat_eq, if◌then◌else◌, Result, ok, err, ◌>>=◌, Error, eof, unexpected_eof,
  closed, vector_not_found,
}
use lumenvec.Numeric.{Floats, Vector, to_float64}
use lumenvec.FileStore.Codec.{op_delete, u32, Record32, decode_payload32}
use lumenvec.FileStore.Rebuild.{Meta}

module _ (fl : Floats) where
  open fl use {F64}

  -- readFileVectorRecord32At; the sums of 32-bit numbers wrap around. An offset that the store notes
  -- has at least four bytes, and a length as written; on others, Go's slicing may panic where this
  -- gives an error.
  unfoldable pub read_record32_at : List ℕ → Meta → Result (Record32 fl)
  read_record32_at file meta =
      let buf = take meta.record_length (drop meta.record_offset file) in
      if ltb (length buf) meta.record_length
      then err eof
      else if ltb (length buf % 2 ^ 32) ((4 + u32 buf) % 2 ^ 32)
      then err unexpected_eof
      else decode_payload32 fl (take ((4 + u32 buf) % 2 ^ 32 - 4) (drop 4 buf))

  -- fileVectorRecord
  pub record Record64 : Type 0 where
    pub op : ℕ
    pub id : Text
    pub values : List F64

  -- decodeFileVectorPayload, on what decodeFileVectorPayload32 returned
  abbrev pub widen : Record32 fl → Record64
  widen r = record { op = r.op; id = r.id; values = to_float64 fl r.values }

  -- readFileVectorRecordAt
  unfoldable pub read_record_at : List ℕ → Meta → Result Record64
  read_record_at file meta = do r ← read_record32_at file meta; ok (widen r)

  -- Both ends of the file count as a missing vector.
  abbrev pub hide_end : Error → Error
  hide_end eof = vector_not_found
  hide_end unexpected_eof = vector_not_found
  hide_end e = e

  -- readVectorRecord; the file is `none` where the store is closed
  unfoldable pub read_vector_record : Option (List ℕ) → Map Text Meta → Text → Result Record64
  read_vector_record file offsets id = elim (lookup id offsets) [
    | none ↦ err vector_not_found
    | some meta ↦ elim meta.deleted [
      | true ↦ err vector_not_found
      | false ↦ elim file [
        | none ↦ err closed
        | some bs ↦ elim (read_record_at bs meta) [
          | err e ↦ err (hide_end e)
          | ok r ↦ if nat_eq r.op op_delete then err vector_not_found else ok r
        ]
      ]
    ]
  ]

  -- GetVector
  unfoldable pub get_vector : Option (List ℕ) → Map Text Meta → Text → Result (Vector F64)
  get_vector file offsets id = do
    r ← read_vector_record file offsets id
    ok (record { id = r.id; values = r.values })
