-- ===== src/FileStore/Rebuild.antt =====
-- rebuildFileVectorStoreIndex of internal/core/file_vector_store.go: the offsets and the record
-- counts that a file of records stands for.
use lumenvec.Base.{
  ℕ, zero, suc, ◌+◌, ◌%◌, ◌^◌, Bool, true, false, List, [], ◌∷◌, Option, none, some, Text, Text-Eq,
  Map, lookup, insert, delete, length, take, drop, ltb, nat_eq, Result, ok, err, eof,
  unexpected_eof, system, if◌then◌else◌,
}
use lumenvec.Numeric.{Floats}
use lumenvec.FileStore.Codec.{op_delete, u32, Record32, decode_payload32}

-- fileVectorRecordMeta
pub record Meta : Type 0 where
  pub record_offset : ℕ
  pub record_length : ℕ
  pub deleted : Bool

-- The variables of the loop: `offsets`, the two counts of `stats`, and `offset`.
pub record Scan : Type 0 where
  pub offsets : Map Text Meta
  pub total_records : ℕ
  pub stale_records : ℕ
  pub offset : ℕ

abbrev pub scan_start : Scan
scan_start = record { offsets = []; total_records = 0; stale_records = 0; offset = 0 }

abbrev pub stale_step : Option Meta → ℕ
stale_step none = 0
stale_step (some _) = 1

module _ (fl : Floats) where
  -- The rest of the loop's body, for a payload of `n` bytes that decodes to `r`.
  unfoldable pub index_record : Record32 fl → ℕ → Scan → Scan
  index_record r n st =
      if nat_eq r.op op_delete
      then record {
        offsets = delete r.id st.offsets;
        total_records = st.total_records + 1;
        stale_records = st.stale_records + 1;
        offset = st.offset + 4 + n;
      }
      else record {
        offsets =
            insert r.id
              (record {
                record_offset = st.offset;
                record_length = (4 + n) % 2 ^ 32;
                deleted = false;
              })
              st.offsets;
        total_records = st.total_records + 1;
        stale_records = st.stale_records + stale_step (lookup r.id st.offsets);
        offset = st.offset + 4 + n;
      }

  abbrev pub read_error : List ℕ → Result Scan
  read_error [] = err eof
  read_error (b ∷ bs) = err unexpected_eof

  -- Each round takes four bytes at least, so the length of the file is fuel enough.
  unfoldable pub scan : ℕ → Scan → List ℕ → Result Scan
  scan zero st bs = if nat_eq (length bs) 0 then ok st else err (system 0)
  scan (suc fuel) st bs = elim (nat_eq (length bs) 0) [
    | true ↦ ok st
    | false ↦ elim (ltb (length bs) 4) [
      | true ↦ err unexpected_eof
      | false ↦ elim (ltb (length (drop 4 bs)) (u32 bs)) [
        | true ↦ read_error (drop 4 bs)
        | false ↦ elim (decode_payload32 fl (take (u32 bs) (drop 4 bs))) [
          | err e ↦ err e
          | ok r ↦ scan fuel (index_record r (u32 bs) st) (drop (u32 bs) (drop 4 bs))
        ]
      ]
    ]
  ]

  unfoldable pub rebuild_index : List ℕ → Result Scan
  unfolding scan
  rebuild_index file = scan (length file) scan_start file
