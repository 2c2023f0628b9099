-- ===== src/FileStore/Compact.antt =====
-- maybeCompactLocked and compactLocked of internal/core/file_vector_store.go, where the data file
-- is written anew with one record for each id, and UpsertVectors and DeleteVector, which end with
-- them, on an open file.
pub mod Values
pub mod Answered
pub mod Sizes
pub mod Outcome
pub mod Changes
use lumenvec.Base.{
  ℕ, ◌+◌, ◌*◌, ◌%◌, ◌^◌, Bool, true, false, List, [], ◌∷◌, Option, none, some, Text, Text-Eq, Map,
  insert, length, ltb, nat_eq, Result, ok, err, Error, done, system, if◌then◌else◌,
}
use lumenvec.Numeric.{Floats, Vector}
use lumenvec.OrderedIds
use lumenvec.OrderedIds.{BTree, OrderedIdIndex, new_ordered_id_index}
use lumenvec.FileStore.Codec.{op_delete}
use lumenvec.FileStore.Rebuild.{Meta}
use lumenvec.FileStore.Read.{read_record_at}
use lumenvec.FileStore.HotCache.{clear_hot_vectors}
use lumenvec.FileStore.Write.{
  WriteIo, upsert_records, delete_record, FileVectorStore, sync_pending, encode_batch, joined,
}

-- What the file system answers; `unreadable` tells for which ids the read of the record from the
-- data file fails, and `write_tmp` is the first error of the writes of the records.
pub record CompactIo : Type 0 where
  pub sync : Option ℕ
  pub unreadable : Text → Bool
  pub open_tmp : Option ℕ
  pub write_tmp : Option ℕ
  pub sync_tmp : Option ℕ
  pub close_tmp : Option ℕ
  pub close_file : Option ℕ
  pub rename : Option ℕ
  pub open_file : Option ℕ
  pub seek : Option ℕ

unfoldable pub first_error : List (Option ℕ) → Option ℕ
first_error [] = none
first_error (some e ∷ os) = some e
first_error (none ∷ os) = first_error os

module _ (fl : Floats) (bt : BTree) where
  open fl use {F64}

  -- A compaction ends with the file still open, or with a handle that has been closed.
  pub data Compaction : Type 0 where
    kept : Result (Unit {0}) → FileVectorStore fl bt → Compaction
    shut : ℕ → FileVectorStore fl bt → Compaction

  -- The offsets whose records are read: the loop goes on past a read that fails, and the record is
  -- not in the new file.
  unfoldable pub answered : (Text → Bool) → Map Text Meta → Map Text Meta
  answered unreadable [] = []
  answered unreadable ((id, meta) ∷ m) =
      let rest = answered unreadable m in if unreadable id then rest else (id, meta) ∷ rest

  -- The loop over the offsets.
  unfoldable pub live_vectors : List ℕ → Map Text Meta → List (Vector F64)
  live_vectors file [] = []
  live_vectors file ((id, meta) ∷ m) =
      let rest = live_vectors file m in
      elim (read_record_at fl file meta) [
        | err e ↦ rest
        | ok r ↦
            if nat_eq r.op op_delete then rest else record { id = id; values = r.values } ∷ rest
      ]

  -- newOffsets and newIDs
  unfoldable pub new_offsets : List (Vector F64 × List ℕ) → ℕ → Map Text Meta → Map Text Meta
  new_offsets [] offset m = m
  new_offsets ((vec, bytes) ∷ records) offset m = new_offsets records (offset + length bytes) (
      insert vec.id
        (record { record_offset = offset; record_length = length bytes % 2 ^ 32; deleted = false })
        m)

  unfoldable pub new_ids : List (Vector F64 × List ℕ) → OrderedIdIndex bt → OrderedIdIndex bt
  new_ids [] ids = ids
  new_ids ((vec, _) ∷ records) ids = new_ids records (OrderedIds.upsert bt vec.id ids)

  -- The store after the new file has been opened; the count of compactions is left out.
  unfoldable pub compacted :
      List (Vector F64 × List ℕ) → FileVectorStore fl bt → FileVectorStore fl bt
  compacted records s = record s {
    disk = joined fl bt records;
    offsets = new_offsets records 0 [];
    ids = new_ids records (new_ordered_id_index bt);
    writes = length (new_offsets records 0 []);
    stale = 0;
    pending = 0;
    hot = clear_hot_vectors fl s.hot;
  }

  -- From the writes of the records to the new file on.
  unfoldable pub replace_file :
      CompactIo → List (Vector F64 × List ℕ) → FileVectorStore fl bt → Compaction
  replace_file io records s = elim (first_error (io.write_tmp ∷ io.sync_tmp ∷ io.close_tmp ∷ [])) [
    | some e ↦ kept (err (system e)) s
    | none ↦ elim (first_error (io.close_file ∷ io.rename ∷ [])) [
      | some e ↦ shut e s
      | none ↦ elim (first_error (io.open_file ∷ io.seek ∷ [])) [
        | some e ↦ shut e (record s { disk = joined fl bt records })
        | none ↦ kept done (compacted records s)
      ]
    ]
  ]

  unfoldable pub compact_synced : CompactIo → Result (Unit {0}) × FileVectorStore fl bt → Compaction
  compact_synced io (err e, s) = kept (err e) s
  compact_synced io (ok _, s) = elim io.open_tmp [
    | some e ↦ kept (err (system e)) s
    | none ↦ elim (encode_batch fl bt (live_vectors s.disk (answered io.unreadable s.offsets))) [
      | err e ↦ kept (err e) s
      | ok records ↦ replace_file io records s
    ]
  ]

  unfoldable pub compact : CompactIo → FileVectorStore fl bt → Compaction
  compact io s = compact_synced io (sync_pending fl bt true io.sync s)

  unfoldable pub maybe_compact : CompactIo → FileVectorStore fl bt → Compaction
  maybe_compact io s =
      let rewritten = compact io s in
      if ltb s.stale 1
      then kept done s
      else if ltb (s.stale * 2) s.writes
      then kept done s
      else rewritten

  -- What UpsertVectors and DeleteVector end with.
  unfoldable pub then_compact : CompactIo → Result (Unit {0}) × FileVectorStore fl bt → Compaction
  then_compact io (err e, s) = kept (err e) s
  then_compact io (ok _, s) = maybe_compact io s

  unfoldable pub upsert_vectors :
      WriteIo → CompactIo → List (Vector F64) → FileVectorStore fl bt → Compaction
  upsert_vectors io compact_io [] s = kept done s
  upsert_vectors io compact_io (vec ∷ vecs) s =
      then_compact compact_io (upsert_records fl bt io (vec ∷ vecs) s)

  unfoldable pub delete_vector : WriteIo → CompactIo → Text → FileVectorStore fl bt → Compaction
  delete_vector io compact_io id s = then_compact compact_io (delete_record fl bt io id s)
