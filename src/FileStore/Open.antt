-- ===== src/FileStore/Open.antt =====
-- openLocked of internal/core/file_vector_store.go, which reads the data file back.
pub mod Recovery
use lumenvec.Base.{
  ℕ, List, [], ◌∷◌, Option, none, some, Text, Text-Eq, Map, Result, ok, err, Error, system,
  if◌then◌else◌,
}
use lumenvec.Numeric.{Floats}
use lumenvec.OrderedIds
use lumenvec.OrderedIds.{BTree, OrderedIdIndex, new_ordered_id_index}
use lumenvec.FileStore.Rebuild.{Meta, Scan, rebuild_index}
use lumenvec.FileStore.HotCache.{clear_hot_vectors}
use lumenvec.FileStore.Write.{FileVectorStore}
use lumenvec.FileStore.Compact.{CompactIo, Compaction, first_error, maybe_compact}

-- What the file system answers; the two seeks are those of rebuildFileVectorStoreIndex, and `read`
-- is an error of its reads, before any record that it refuses.
pub record OpenIo : Type 0 where
  pub mkdir : Option ℕ
  pub open_file : Option ℕ
  pub seek_start : Option ℕ
  pub read : Option ℕ
  pub seek_end : Option ℕ

module _ (fl : Floats) (bt : BTree) where
  unfoldable pub ids_from_file_offsets : Map Text Meta → OrderedIdIndex bt
  ids_from_file_offsets [] = new_ordered_id_index bt
  ids_from_file_offsets ((id, meta) ∷ m) =
      let rest = ids_from_file_offsets m in
      if meta.deleted then rest else OrderedIds.upsert bt id rest

  -- The store that the offsets and counts of a file are put into.
  unfoldable pub loaded : Scan → FileVectorStore fl bt → FileVectorStore fl bt
  loaded st s = record s {
    offsets = st.offsets;
    ids = ids_from_file_offsets st.offsets;
    writes = st.total_records;
    stale = st.stale_records;
    hot = clear_hot_vectors fl s.hot;
  }

  -- On an error the file stays closed.
  unfoldable pub open_locked :
      OpenIo → CompactIo → FileVectorStore fl bt → Result (Compaction fl bt)
  open_locked io compact_io s =
      elim (first_error (io.mkdir ∷ io.open_file ∷ io.seek_start ∷ io.read ∷ [])) [
        | some e ↦ err (system e)
        | none ↦ elim (rebuild_index fl s.disk) [
          | err e ↦ err e
          | ok st ↦ elim io.seek_end [
            | some e ↦ err (system e)
            | none ↦ ok (maybe_compact fl bt compact_io (loaded st s))
          ]
        ]
      ]
