-- ===== src/FileStore/Open/Recovery.antt =====
-- What the store holds once a data file has been opened.
use lumenvec.Base.{
  ◌++◌, Option, none, some, false, Text, Text-Eq, text_eq_iff, text_eq_refl, ◌==◌, Map, lookup,
  insert, delete, lookup-insert, lookup-delete, AreDistinct, nat_eq, Bool-cases, if◌then◌else◌, sym,
  ℕ, ◌≡◌, refl, ap, ◌∙◌, List, [], ◌∷◌, ok, err, system, arith, length, length-append, All, ◌+◌,
  Option-cases, inl, inr, ◌⊎◌,
}
use lumenvec.Numeric.{Floats}
use lumenvec.VectorStore.{or_else}
use lumenvec.OrderedIds
use lumenvec.OrderedIds.{BTree, OrderedIdIndex, contains, ensure}
use lumenvec.Base.Bags.{some_injective}
use lumenvec.FileStore.Rebuild.{Meta, Scan, index_record, scan_start, rebuild_index}
use lumenvec.FileStore.Log.{
  Entry, Fits, file_of, frame, size, decoded, length-frame, replay, rebuild-file_of,
}
use lumenvec.FileStore.Codec.{op_delete, Record32}
use lumenvec.FileStore.HotCache.{clear_hot_vectors}
use lumenvec.FileStore.HotCache.Laws.{IsValid}
use lumenvec.FileStore.Compact.Values.{replay-AreDistinct}
use lumenvec.FileStore.Write.Tidy.{Lists, clear-IsValid, is_held}
use lumenvec.FileStore.Write.{FileVectorStore}
use lumenvec.FileStore.Write.Consistency.{Mirrors}
use lumenvec.FileStore.Compact.{CompactIo, Compaction, first_error, maybe_compact}
use lumenvec.FileStore.Compact.Outcome.{Keeps, maybe_compact-Keeps}
use lumenvec.FileStore.Open.{ids_from_file_offsets, OpenIo, loaded, open_locked}

module _ (fl : Floats) (bt : BTree) where
  -- A log is read up to its end.
  offset-replay :
      (log : List (Entry fl)) (st : Scan)
      → (replay fl log st).offset ≡ st.offset + length (file_of fl log)
  unfolding index_record
  offset-replay [] st = omega arith
  offset-replay (e ∷ log) st =
      let after = index_record fl (decoded fl e) (size fl e) st in
      let step : after.offset ≡ st.offset + 4 + size fl e = ground arith in
      omega (
        arith,
        step,
        offset-replay log after,
        length-frame fl e,
        length-append {0} (frame fl e) (file_of fl log),
      )

  -- No offset is marked as deleted.
  abbrev AreLive : Map Text Meta → Type 0
  AreLive m = (j : Text) (meta : Meta) → lookup j m ≡ some meta → meta.deleted ≡ false

  delete-AreLive : (id : Text) (m : Map Text Meta) → AreLive m → AreLive (delete id m)
  delete-AreLive id m h j meta found = h j meta (ground (arith, lookup-delete id j m, found))

  insert-AreLive :
      (id : Text) (new : Meta) (m : Map Text Meta)
      → new.deleted ≡ false
      → AreLive m
      → AreLive (insert id new m)
  insert-AreLive id new m live h j meta found = elim (Bool-cases (id == j)) [
    | inl same ↦
        let put : lookup j (insert id new m) ≡ some new = lookup-insert id j new m ∙ rw same refl in
        let here : new ≡ meta = some_injective (sym put ∙ found) in
        ap (λ (x : Meta). x.deleted) (sym here) ∙ live
    | inr other ↦ h j meta (ground (arith, lookup-insert id j new m, found, other))
  ]

  index_record-AreLive :
      (r : Record32 fl) (n : ℕ) (st : Scan)
      → AreLive st.offsets
      → AreLive (index_record fl r n st).offsets
  unfolding index_record
  index_record-AreLive r n st h = elim (Bool-cases (nat_eq r.op op_delete)) [
    | inl deletion ↦ rw deletion (delete-AreLive r.id st.offsets h)
    | inr write ↦ rw write (insert-AreLive r.id _ st.offsets refl h)
  ]

  replay-AreLive :
      (log : List (Entry fl)) (st : Scan) → AreLive st.offsets → AreLive (replay fl log st).offsets
  replay-AreLive [] st h = h
  replay-AreLive (e ∷ log) st h =
      replay-AreLive log (index_record fl (decoded fl e) (size fl e) st)
        (index_record-AreLive (decoded fl e) (size fl e) st h)

  id_first :
      (id j : Text) (meta : Meta) (ids : OrderedIdIndex bt) (m : Map Text Meta)
      → Lists fl bt ids m
      → contains j (bt.items (ensure bt (OrderedIds.upsert bt id ids)))
        ≡ is_held (lookup j ((id, meta) ∷ m))
  unfolding OrderedIds.upsert lookup
  id_first id j meta ids m h = ground (arith, bt.contains-insert id j (ensure bt ids), h j)

  ids_from_file_offsets-Lists :
      (m : Map Text Meta)
      → AreDistinct m
      → AreLive m
      → Lists fl bt (ids_from_file_offsets fl bt m) m
  unfolding ids_from_file_offsets lookup
  ids_from_file_offsets-Lists [] d h j = rw bt.items-new refl
  ids_from_file_offsets-Lists ((id, meta) ∷ m) (new, d) h j =
      let live : meta.deleted ≡ false = h id meta (ground (arith, text_eq_refl id)) in
      let rest =
        ids_from_file_offsets-Lists m d
          (λ k other found. h k other (ground (arith, text_eq_iff id k, new, found))) in
      let ids = ids_from_file_offsets fl bt m in
      ap
        (λ gone.
          contains j (bt.items (ensure bt (if gone then ids else OrderedIds.upsert bt id ids))))
        live
      ∙ id_first id j meta ids m rest

  loaded-Mirrors :
      (log : List (Entry fl)) (s : FileVectorStore fl bt) (n : ℕ)
      → IsValid fl n s.hot
      → All (Fits fl) log
      → s.disk ≡ file_of fl log
      → Mirrors fl bt log (loaded fl bt (replay fl log scan_start) s)
  unfolding loaded clear_hot_vectors lookup
  loaded-Mirrors log s n hot fits same =
      let st = replay fl log scan_start in
      let whole : length s.disk ≡ st.offset =
        omega (arith, ap (λ (file : List ℕ). length file) same, offset-replay log scan_start) in
      record {
        fit = fits;
        disk = same;
        memory = λ i. record {
          offsets = st.offsets;
          total_records = st.total_records;
          stale_records = st.stale_records;
          offset = whole i;
        };
        tidy = record {
          capacity = n;
          listed =
              ids_from_file_offsets-Lists st.offsets (replay-AreDistinct fl bt log scan_start tt)
                (replay-AreLive log scan_start (λ j meta found. absurd (ground arith)));
          hot = clear-IsValid fl bt n s.hot hot;
          fresh = λ j v at. absurd (ground arith);
        };
      }

  -- The answers before a compaction.
  abbrev pub answers : OpenIo → List (Option ℕ)
  answers io = io.mkdir ∷ io.open_file ∷ io.seek_start ∷ io.read ∷ io.seek_end ∷ []

  -- The last answer counts where the others are good.
  first_error-append :
      (os : List (Option ℕ)) (o : Option ℕ)
      → first_error (os ++ o ∷ []) ≡ or_else (first_error os) o
  unfolding first_error
  first_error-append [] none = refl
  first_error-append [] (some e) = refl
  first_error-append (none ∷ os) o = first_error-append os o
  first_error-append (some e ∷ os) o = refl

  -- openLocked on a file that holds the records of a log, by a store whose hot cache keeps its limit,
  -- on every answer of the file system: where a call before the compaction fails, it returns that
  -- error and the file stays closed. Otherwise it opens the store and keeps the values under every
  -- id through the compaction that may follow, in the file and in memory, ordered ids and hot cache
  -- included, but for an id whose record the compaction could not read, which may have none. The
  -- records' lengths fit in 32 bits.
  pub open_locked-Keeps :
      (io : OpenIo) (compact_io : CompactIo) (log : List (Entry fl)) (s : FileVectorStore fl bt)
      (n : ℕ)
      → IsValid fl n s.hot
      → All (Fits fl) log
      → s.disk ≡ file_of fl log
      → ((e : ℕ) × (first_error (answers io) ≡ some e)
          × (open_locked fl bt io compact_io s ≡ err (system e)))
        ⊎ ((c : Compaction fl bt) × (first_error (answers io) ≡ none)
            × (open_locked fl bt io compact_io s ≡ ok c)
            × Keeps fl bt compact_io.unreadable log c)
  unfolding open_locked
  open_locked-Keeps io compact_io log s n hot fits same =
      let st = replay fl log scan_start in
      let opened : rebuild_index fl s.disk ≡ ok st =
        ap (rebuild_index fl) same ∙ rebuild-file_of fl log fits in
      let before = io.mkdir ∷ io.open_file ∷ io.seek_start ∷ io.read ∷ [] in
      let all = first_error-append before io.seek_end in
      elim (Option-cases (first_error before)) [
        | inr (e, failed) ↦
            inl (e, all ∙ ap (λ o. or_else o io.seek_end) failed, rw (failed, open_locked) refl)
        | inl ready ↦
            let last = all ∙ ap (λ o. or_else o io.seek_end) ready in
            elim (Option-cases io.seek_end) [
              | inr (e, failed) ↦
                  inl (e, last ∙ failed, rw (ready, open_locked, opened, failed) refl)
              | inl sought ↦ inr (
                maybe_compact fl bt compact_io (loaded fl bt st s),
                last ∙ sought,
                rw (ready, open_locked, opened, sought) refl,
                maybe_compact-Keeps fl bt compact_io log (loaded fl bt st s)
                    (loaded-Mirrors log s n hot fits same),
              )
            ]
      ]
