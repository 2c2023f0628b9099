-- ===== src/FileStore/Compact/Changes.antt =====
-- UpsertVectors and DeleteVector with the compaction that they end with.
use lumenvec.Base.{Bool, ℕ, ◌≡◌, List, ◌++◌, Text, err, system, ◌⊎◌}
use lumenvec.Numeric.{Floats}
use lumenvec.OrderedIds.{BTree}
use lumenvec.FileStore.Log.{Entry}
use lumenvec.FileStore.Write.{FileVectorStore}
use lumenvec.FileStore.Compact.{Compaction, kept}
use lumenvec.FileStore.Compact.Outcome.{Keeps}

module _ (fl : Floats) (bt : BTree) where
  open fl use {F64}

  -- The store holds what the log with the entries `more` leaves, but for ids that are lost; or Seek
  -- or Write failed, the memory is as before, and the file may have bytes of the write at its end.
  abbrev pub Changed :
      (Text → Bool)
      → List (Entry fl)
      → List (Entry fl)
      → FileVectorStore fl bt
      → Compaction fl bt
      → Type 0
  Changed lost log more s c =
      Keeps fl bt lost (log ++ more) c
      ⊎ ((e : ℕ) × (residue : List ℕ) × (c
            ≡ kept (err (system e)) (record s { disk = s.disk ++ residue })))
