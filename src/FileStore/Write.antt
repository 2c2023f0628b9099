-- ===== src/FileStore/Write.antt =====
-- UpsertVectors and DeleteVector of internal/core/file_vector_store.go on an open file, up to the
-- compaction that may follow them.
pub mod Tidy
pub mod Consistency
pub mod Outcomes
use lumenvec.Base.{
  ℕ, ◌+◌, ◌%◌, ◌^◌, ◌&&◌, Bool, true, false, not, List, [], ◌∷◌, ◌++◌, Option, none, some, Text,
  Text-Eq, Map, lookup, insert, delete, length, ltb, nat_eq, Result, ok, err, done, system,
  vector_not_found, ◌>>=◌, if◌then◌else◌,
}
use lumenvec.Numeric.{Floats, Vector, to_float32}
use lumenvec.OrderedIds
use lumenvec.OrderedIds.{BTree, OrderedIdIndex}
use lumenvec.FileStore.Codec.{op_put, op_delete, encode_record}
use lumenvec.FileStore.Rebuild.{Meta, stale_step}
use lumenvec.FileStore.HotCache.{HotCache, put_hot_vector, delete_hot_vector}

-- What the file system answers to the calls of one operation: an error of Seek, of Write, after
-- which part of the bytes may be in the file, and of Sync.
pub record WriteIo : Type 0 where
  pub seek : Option ℕ
  pub write : Option ℕ
  pub residue : List ℕ
  pub sync : Option ℕ

module _ (fl : Floats) (bt : BTree) where
  open fl use {F64}

  -- fileVectorStore with its file open; `disk` is what the file holds.
  pub record FileVectorStore : Type 0 where
    pub disk : List ℕ
    pub offsets : Map Text Meta
    pub ids : OrderedIdIndex bt
    pub writes : ℕ
    pub stale : ℕ
    pub pending : ℕ
    pub sync_every : ℕ
    pub hot : HotCache fl

  unfoldable pub sync_pending :
      Bool → Option ℕ → FileVectorStore → Result (Unit {0}) × FileVectorStore
  sync_pending force answer s =
      if nat_eq s.pending 0
      then (done, s)
      else if not force && ltb s.pending s.sync_every
      then (done, s)
      else elim answer [ some e ↦ (err (system e), s) | none ↦ (done, record s { pending = 0 }) ]

  -- The file as Seek to its end and Write leave it.
  unfoldable pub append_bytes :
      WriteIo → List ℕ → FileVectorStore → Result (Unit {0}) × FileVectorStore
  append_bytes io bytes s = elim io.seek [
    | some e ↦ (err (system e), s)
    | none ↦ elim io.write [
      | some e ↦ (err (system e), record s { disk = s.disk ++ io.residue })
      | none ↦ (done, record s { disk = s.disk ++ bytes })
    ]
  ]

  -- The records of a batch, and the bytes that they make up.
  unfoldable pub encode_batch : List (Vector F64) → Result (List (Vector F64 × List ℕ))
  encode_batch [] = ok []
  encode_batch (vec ∷ vecs) = do
    bytes ← encode_record fl op_put vec.id vec.values
    rest ← encode_batch vecs
    ok ((vec, bytes) ∷ rest)

  unfoldable pub joined : List (Vector F64 × List ℕ) → List ℕ
  joined [] = []
  joined ((_, bytes) ∷ records) = bytes ++ joined records

  -- The body of the loop over the records that have been written.
  unfoldable pub note_put : Vector F64 → ℕ → ℕ → FileVectorStore → FileVectorStore
  note_put vec offset size s = record s {
    stale = s.stale + stale_step (lookup vec.id s.offsets);
    ids = elim (lookup vec.id s.offsets) [
      | some _ ↦ s.ids
      | none ↦ OrderedIds.upsert bt vec.id s.ids
    ];
    offsets =
        insert vec.id
          (record { record_offset = offset; record_length = size % 2 ^ 32; deleted = false })
          s.offsets;
    writes = s.writes + 1;
    hot = put_hot_vector fl vec.id (to_float32 fl vec.values) s.hot;
  }

  unfoldable pub note_all : List (Vector F64 × List ℕ) → ℕ → FileVectorStore → FileVectorStore
  note_all [] offset s = s
  note_all ((vec, bytes) ∷ records) offset s =
      note_all records (offset + length bytes) (note_put vec offset (length bytes) s)

  -- UpsertVectors from the answer of Write on.
  unfoldable pub finish_upsert :
      WriteIo
      → List (Vector F64 × List ℕ)
      → ℕ
      → Result (Unit {0}) × FileVectorStore
      → Result (Unit {0}) × FileVectorStore
  finish_upsert io records offset (err e, s) = (err e, s)
  finish_upsert io records offset (ok _, s) =
      let noted = note_all records offset s in
      sync_pending false io.sync (record noted { pending = noted.pending + length records })

  -- UpsertVectors up to maybeCompactLocked.
  unfoldable pub upsert_records :
      WriteIo → List (Vector F64) → FileVectorStore → Result (Unit {0}) × FileVectorStore
  upsert_records io [] s = (done, s)
  upsert_records io (vec ∷ vecs) s = elim (encode_batch (vec ∷ vecs)) [
    | err e ↦ (err e, s)
    | ok records ↦ finish_upsert io records (length s.disk) (append_bytes io (joined records) s)
  ]

  -- DeleteVector from the answer of Write on.
  unfoldable pub finish_delete :
      WriteIo → Text → Result (Unit {0}) × FileVectorStore → Result (Unit {0}) × FileVectorStore
  finish_delete io id (err e, s) = (err e, s)
  finish_delete io id (ok _, s) = sync_pending false io.sync (record s {
    offsets = delete id s.offsets;
    ids = OrderedIds.delete bt id s.ids;
    hot = delete_hot_vector fl id s.hot;
    writes = s.writes + 1;
    stale = s.stale + 1;
    pending = s.pending + 1;
  })

  -- DeleteVector up to maybeCompactLocked.
  unfoldable pub delete_record :
      WriteIo → Text → FileVectorStore → Result (Unit {0}) × FileVectorStore
  delete_record io id s = elim (lookup id s.offsets) [
    | none ↦ (err vector_not_found, s)
    | some meta ↦ elim meta.deleted [
      | true ↦ (err vector_not_found, s)
      | false ↦ elim (encode_record fl op_delete id []) [
        | err e ↦ (err e, s)
        | ok bytes ↦ finish_delete io id (append_bytes io bytes s)
      ]
    ]
  ]
