-- ===== src/FileStore/Write/Outcomes.antt =====
-- UpsertVectors and DeleteVector on every answer of the file system.
use lumenvec.Base.{
  Option, ℕ, ◌≡◌, refl, ap, ◌∙◌, Bool, false, List, [], ◌∷◌, ◌++◌, none, Text, Text-Eq, length, err,
  done, system, arith, All, Option-cases, inl, inr, ◌⊎◌,
}
use mathlib.Core.List.{append-nil}
use lumenvec.Numeric.{Floats, Vector}
use lumenvec.OrderedIds.{BTree}
use lumenvec.FileStore.Log.{Entry, Fits}
use lumenvec.FileStore.Write.{
  WriteIo, FileVectorStore, sync_pending, append_bytes, joined, note_all, upsert_records,
  finish_upsert,
}
use lumenvec.FileStore.Write.Tidy.{IsTidy}
use lumenvec.FileStore.Write.Consistency.{
  left, note_all-IsTidy, Mirrors, Written, puts, records_of, encode_batch-records_of,
  joined-records_of, note_all-replay, note_all-disk, sync_pending-pending, append-Mirrors,
  pending-Mirrors,
}

module _ (fl : Floats) (bt : BTree) where
  open fl use {F64, F32}

  -- Every call of the file system succeeds.
  pub record IsGood (io : WriteIo) : Type 0 where
    pub seek : io.seek ≡ none
    pub write : io.write ≡ none
    pub sync : io.sync ≡ none

  append_bytes-cases :
      (io : WriteIo) (bytes : List ℕ) (s : FileVectorStore fl bt)
      → (append_bytes fl bt io bytes s ≡ (done, record s { disk = s.disk ++ bytes }))
        ⊎ ((e : ℕ) × (residue : List ℕ) × (append_bytes fl bt io bytes s
              ≡ (err (system e), record s { disk = s.disk ++ residue }))
            × (IsGood io → ⊥))
  unfolding append_bytes
  append_bytes-cases io bytes s = elim (Option-cases io.seek) [
    | inr (e, failed) ↦ inr (
      e,
      [],
      rw (failed, append_bytes, append-nil s.disk) refl,
      λ g. ground (arith, g.seek, failed),
    )
    | inl sought ↦ elim (Option-cases io.write) [
      | inr (e, failed) ↦ inr (
        e,
        io.residue,
        rw (sought, append_bytes, failed) refl,
        λ g. ground (arith, g.write, failed),
      )
      | inl done_so ↦ inl (rw (sought, append_bytes, done_so) refl)
    ]
  ]

  synced-Written :
      (log more : List (Entry fl)) (force : Bool) (io : WriteIo) (s s' : FileVectorStore fl bt)
      → Mirrors fl bt (log ++ more) s'
      → Written fl bt log more s (sync_pending fl bt force io.sync s')
        × (IsGood io → (sync_pending fl bt force io.sync s').0 ≡ done)
  synced-Written log more force io s s' h =
      let (n, same, synced) = sync_pending-pending fl bt force io.sync s' in
      (inl (rw same (pending-Mirrors fl bt (log ++ more) n s' h)), λ g. synced g.sync)

  -- The bytes of the file do not matter.
  moved-IsTidy :
      (s s' : FileVectorStore fl bt) (vals : Text → Option (List F32))
      → s'.ids ≡ s.ids
      → s'.offsets ≡ s.offsets
      → s'.hot ≡ s.hot
      → IsTidy fl bt vals s
      → IsTidy fl bt vals s'
  moved-IsTidy s s' vals ids offsets hot h = record {
    capacity = h.capacity;
    listed = rw (ids, offsets) h.listed;
    hot = rw hot h.hot;
    fresh = rw hot h.fresh;
  }

  noted-Mirrors :
      (vecs : List (Vector F64)) (log : List (Entry fl)) (s : FileVectorStore fl bt) (n : ℕ)
      → All (Fits fl) (puts fl bt vecs)
      → Mirrors fl bt log s
      → let bytes = joined fl bt (records_of fl bt vecs) in
        Mirrors fl bt
          (log ++ puts fl bt vecs)
          (record (note_all fl bt
            (records_of fl bt vecs)
            (length s.disk)
            (record s { disk = s.disk ++ bytes })) { pending = n })
  noted-Mirrors vecs log s n fits h =
      let records = records_of fl bt vecs in
      let s1 : FileVectorStore fl bt = record s { disk = s.disk ++ joined fl bt records } in
      let s2 = note_all fl bt records (length s.disk) s1 in
      pending-Mirrors fl bt (log ++ puts fl bt vecs) n s2 (
        append-Mirrors fl bt log (puts fl bt vecs) s s2 h fits
          (note_all-disk fl bt records (length s.disk) s1
            ∙ ap (◌++◌ s.disk) (joined-records_of fl bt vecs))
          (note_all-replay fl bt vecs (length s.disk) s1)
          (note_all-IsTidy fl bt vecs (length s.disk) s1 (left fl bt log)
            (moved-IsTidy s s1 (left fl bt log) refl refl refl h.tidy)))

  pub upsert_records-Written :
      (io : WriteIo) (vecs : List (Vector F64)) (log : List (Entry fl)) (s : FileVectorStore fl bt)
      → All (Fits fl) (puts fl bt vecs)
      → Mirrors fl bt log s
      → Written fl bt log (puts fl bt vecs) s (upsert_records fl bt io vecs s)
        × (IsGood io → (upsert_records fl bt io vecs s).0 ≡ done)
  unfolding upsert_records finish_upsert
  upsert_records-Written io [] log s fits h = (inl (rw (append-nil log) h), λ g. refl)
  upsert_records-Written io (vec ∷ vecs) log s fits h =
      let more = puts fl bt (vec ∷ vecs) in
      let records = records_of fl bt (vec ∷ vecs) in
      rw (encode_batch-records_of fl bt (vec ∷ vecs), upsert_records)
        (elim (append_bytes-cases io (joined fl bt records) s) [
          | inr (e, residue, failed, bad) ↦
              rw failed (inr (e, residue, refl, refl), λ g. absurd (bad g))
          | inl appended ↦
              rw appended
                (synced-Written log more false io s _ (noted-Mirrors (vec ∷ vecs) log s _ fits h))
        ])
