-- ===== src/FileStore/Compact/Outcome.antt =====
-- A compaction keeps what every read returns.
use lumenvec.Base.{
  Bool, ◌⊎◌, subst, text_eq_refl, ℕ, ◌+◌, ◌%◌, ◌^◌, ◌*◌, ◌≡◌, refl, sym, ap, ◌∙◌, true, false, List,
  [], ◌∷◌, Option, none, some, Text, Text-Eq, text_eq_iff, Map, lookup, insert, lookup-insert,
  length, length-insert_new, Result, ok, err, done, system, arith, All, AreDistinct, Bool-cases,
  Option-cases, inl, inr, if◌then◌else◌, ltb,
}
use lumenvec.Numeric.{Floats, Vector}
use lumenvec.OrderedIds
use lumenvec.OrderedIds.{BTree, OrderedIdIndex, new_ordered_id_index}
use lumenvec.FileStore.HotCache.{clear_hot_vectors}
use lumenvec.FileStore.Rebuild.{Meta, Scan, scan_start, stale_step}
use lumenvec.FileStore.Log.{Entry, Fits, frame, file_of, replay}
use lumenvec.FileStore.Reopen.{last_values, Serves, replay-Serves}
use lumenvec.FileStore.Write.{FileVectorStore, sync_pending, note_put, note_all}
use lumenvec.FileStore.Write.Consistency.{
  left, scan_at, Mirrors, puts, records_of, encode_batch-records_of, joined-records_of,
  note_all-replay, sync_pending-pending, pending-Mirrors,
}
use lumenvec.FileStore.Compact.{
  CompactIo, Compaction, kept, shut, live_vectors, answered, new_offsets, new_ids, compacted,
  replace_file, compact_synced, compact, maybe_compact, first_error,
}
use lumenvec.FileStore.Compact.Answered.{lookup-answered, answered-AreDistinct, answered-ServesAll}
use lumenvec.FileStore.Write.Tidy.{IsTidy, Lists, is_held, upsert-Lists, clear-IsValid}
use lumenvec.FileStore.Compact.Values.{
  replay-AreDistinct, ServesAll, live-last_values, Differs, DistinctIds, live-DistinctIds,
}
use lumenvec.FileStore.Compact.Sizes.{live-Fits, last_values-LeftFits}

module _ (fl : Floats) (bt : BTree) where
  open fl use {F64, F32}

  abbrev Absent : List (Vector F64) → Map Text Meta → Type 0
  Absent vecs m = All (λ vec. lookup vec.id m ≡ none) vecs

  all-Absent : (vecs : List (Vector F64)) → Absent vecs []
  unfolding lookup
  all-Absent [] = tt
  all-Absent (vec ∷ vecs) = (refl, all-Absent vecs)

  insert-Absent :
      (id : Text) (meta : Meta) (vecs : List (Vector F64)) (m : Map Text Meta)
      → Differs fl bt id vecs
      → Absent vecs m
      → Absent vecs (insert id meta m)
  insert-Absent id meta [] m d h = tt
  insert-Absent id meta (vec ∷ vecs) m (d, ds) (h, hs) =
      (ground (arith, lookup-insert id vec.id meta m), insert-Absent id meta vecs m ds hs)

  -- Noting new ids makes one entry for each and no record stale.
  note_all-new :
      (vecs : List (Vector F64)) (offset : ℕ) (s : FileVectorStore fl bt)
      → DistinctIds fl bt vecs
      → Absent vecs s.offsets
      → let records = records_of fl bt vecs in
        let s' = note_all fl bt records offset s in
        (s'.offsets ≡ new_offsets fl bt records offset s.offsets)
        × (s'.stale ≡ s.stale)
        × (s'.writes + length s.offsets ≡ s.writes + length s'.offsets)
  unfolding note_all note_put new_offsets
  note_all-new [] offset s d h = (refl, refl, refl)
  note_all-new (vec ∷ vecs) offset s (d, ds) (h, hs) =
      let n = length (frame fl (Entry.put vec.id vec.values)) in
      let meta : Meta = record {
        record_offset = offset;
        record_length = n % 2 ^ 32;
        deleted = false;
      } in
      let s1 = note_put fl bt vec offset n s in
      let (same, unchanged, counted) =
        note_all-new vecs (offset + n) s1 ds (insert-Absent vec.id meta vecs s.offsets d hs) in
      let grown : length (insert vec.id meta s.offsets) ≡ length s.offsets + 1 =
        length-insert_new vec.id meta s.offsets h in
      let no_stale : s.stale + stale_step (lookup vec.id s.offsets) ≡ s.stale =
        rw h (omega arith) in
      (same, unchanged ∙ no_stale, omega (arith, counted, grown))

  -- A store without records.
  blank : FileVectorStore fl bt → FileVectorStore fl bt
  blank s = record s { disk = []; offsets = []; writes = 0; stale = 0 }

  new-Lists :
      (vecs : List (Vector F64)) (offset : ℕ) (ids : OrderedIdIndex bt) (m : Map Text Meta)
      → Lists fl bt ids m
      → Lists fl bt
          (new_ids fl bt (records_of fl bt vecs) ids)
          (new_offsets fl bt (records_of fl bt vecs) offset m)
  unfolding new_ids new_offsets
  new-Lists [] offset ids m h = h
  new-Lists (vec ∷ vecs) offset ids m h =
      let n = length (frame fl (Entry.put vec.id vec.values)) in
      let meta : Meta = record {
        record_offset = offset;
        record_length = n % 2 ^ 32;
        deleted = false;
      } in
      new-Lists vecs (offset + n) (OrderedIds.upsert bt vec.id ids) (insert vec.id meta m)
        (upsert-Lists fl bt vec.id meta ids m h)

  no_ids-Lists : Lists fl bt (new_ordered_id_index bt) []
  unfolding lookup
  no_ids-Lists j = rw bt.items-new refl

  compacted-IsTidy :
      (vals new : Text → Option (List F32)) (vecs : List (Vector F64)) (s : FileVectorStore fl bt)
      → IsTidy fl bt vals s
      → IsTidy fl bt new (compacted fl bt (records_of fl bt vecs) s)
  unfolding compacted clear_hot_vectors lookup
  compacted-IsTidy vals new vecs s h = record {
    capacity = h.capacity;
    listed = new-Lists vecs 0 (new_ordered_id_index bt) [] no_ids-Lists;
    hot = clear-IsValid fl bt h.capacity s.hot h.hot;
    fresh = λ j v at. absurd (ground arith);
  }

  compacted-Mirrors :
      (vals : Text → Option (List F32)) (vecs : List (Vector F64)) (s : FileVectorStore fl bt)
      → IsTidy fl bt vals s
      → DistinctIds fl bt vecs
      → All (Fits fl) (puts fl bt vecs)
      → Mirrors fl bt (puts fl bt vecs) (compacted fl bt (records_of fl bt vecs) s)
  unfolding compacted blank
  compacted-Mirrors vals vecs s tidy d fits =
      let records = records_of fl bt vecs in
      let (same, unchanged, counted) = note_all-new vecs 0 (blank s) d (all-Absent vecs) in
      let noted = note_all fl bt records 0 (blank s) in
      let writes : noted.writes ≡ length (new_offsets fl bt records 0 []) =
        omega (arith, counted, ap (λ (m : Map Text Meta). length m) same) in
      let bytes = length (file_of fl (puts fl bt vecs)) in
      let start : bytes ≡ 0 + bytes = omega arith in
      record {
        fit = fits;
        disk = joined-records_of fl bt vecs;
        memory =
            (λ i. record {
              offsets = sym same i;
              total_records = sym writes i;
              stale_records = sym unchanged i;
              offset = length (joined-records_of fl bt vecs i);
            })
            ∙ ap (λ (o : ℕ). scan_at fl bt o noted) start
            ∙ note_all-replay fl bt vecs 0 (blank s);
        tidy = compacted-IsTidy vals (left fl bt (puts fl bt vecs)) vecs s tidy;
      }

  serves_all :
      (file : List ℕ) (vals : Text → Option (List F32)) (m : Map Text Meta)
      → AreDistinct m
      → ((k : Text) (meta : Meta)
          → lookup k m ≡ some meta
          → (v : List F32) × (vals k ≡ some v) × Serves fl file k (some v) (some meta))
      → ServesAll fl bt file vals m
  unfolding lookup
  serves_all file vals [] d each = tt
  serves_all file vals ((k, meta) ∷ m) (fresh, d) each = (
    each k meta (ground (arith, text_eq_refl k)),
    serves_all file vals m d
        (λ j at found. each j at (ground (arith, text_eq_iff k j, fresh, found))),
  )

  held_entry :
      (file : List ℕ) (k : Text) (o : Option (List F32)) (found : Option Meta) (meta : Meta)
      → Serves fl file k o found
      → found ≡ some meta
      → (v : List F32) × (o ≡ some v) × Serves fl file k (some v) (some meta)
  held_entry file k none found meta h e = absurd (ground arith)
  held_entry file k (some v) found meta h e = (v, refl, subst (Serves fl file k (some v)) e h)

  held_or_none :
      (file : List ℕ) (k : Text) (o : Option (List F32)) (found : Option Meta)
      → Serves fl file k o found
      → (if is_held found then o else none) ≡ o
  held_or_none file k none none h = refl
  held_or_none file k none (some meta) h = refl
  held_or_none file k (some v) none (meta, r, same, _, _, _, _, _) = absurd (ground arith)
  held_or_none file k (some v) (some meta) h = refl

  -- The same values under every id, but for the lost ones, which may have none.
  abbrev pub SameValues : (Text → Bool) → List (Entry fl) → List (Entry fl) → Type 0
  SameValues lost new old =
      (j : Text)
      → (last_values fl j none new ≡ last_values fl j none old)
        ⊎ ((lost j ≡ true) × (last_values fl j none new ≡ none))

  live_of : (Text → Bool) → FileVectorStore fl bt → List (Vector F64)
  live_of lost s = live_vectors fl bt s.disk (answered fl bt lost s.offsets)

  mirrored-ServesAll :
      (log : List (Entry fl)) (s : FileVectorStore fl bt)
      → Mirrors fl bt log s
      → AreDistinct s.offsets
        × ServesAll fl bt s.disk (λ j. last_values fl j none log) s.offsets
        × ((j : Text) → Serves fl s.disk j (last_values fl j none log) (lookup j s.offsets))
  unfolding lookup
  mirrored-ServesAll log s h =
      let same : s.offsets ≡ (replay fl log scan_start).offsets =
        ap (λ (st : Scan). st.offsets) h.memory in
      let distinct : AreDistinct s.offsets =
        subst AreDistinct (sym same) (replay-AreDistinct fl bt log scan_start tt) in
      let serves : (j : Text)
          → Serves fl s.disk j (last_values fl j none log) (lookup j s.offsets) =
        λ j.
          rw (h.disk, same)
            (replay-Serves fl (file_of fl log) [] log scan_start j none refl refl h.fit refl) in
      (
        distinct,
        serves_all s.disk (λ j. last_values fl j none log) s.offsets distinct
            (λ k meta found.
              held_entry s.disk k (last_values fl k none log) (lookup k s.offsets) meta (serves k)
                found),
        serves,
      )

  live-SameValues :
      (lost : Text → Bool) (log : List (Entry fl)) (s : FileVectorStore fl bt)
      → Mirrors fl bt log s
      → SameValues lost (puts fl bt (live_of lost s)) log
  unfolding live_of
  live-SameValues lost log s h j =
      let (distinct, all, serves) = mirrored-ServesAll log s h in
      let vals : Text → Option (List F32) = λ k. last_values fl k none log in
      let read = answered fl bt lost s.offsets in
      let found = lookup-answered fl bt lost j s.offsets in
      let new =
        live-last_values fl bt s.disk vals read j none
          (answered-AreDistinct fl bt lost s.offsets distinct)
          (answered-ServesAll fl bt lost s.disk vals s.offsets all) in
      elim (Bool-cases (lost j)) [
        | inl gone ↦
            let missing : lookup j read ≡ none = found ∙ rw gone refl in
            inr (gone, new ∙ ap (λ o. if is_held o then vals j else none) missing)
        | inr readable ↦
            let same : lookup j read ≡ lookup j s.offsets = found ∙ rw readable refl in
            inl (
              new
              ∙ ap (λ o. if is_held o then vals j else none) same
              ∙ held_or_none s.disk j (vals j) (lookup j s.offsets) (serves j))
      ]

  -- What a compaction of a store that holds a log leaves: a file and a memory that agree, or a file
  -- whose handle has been closed; under every id the file has the values that the log has, or none
  -- where the id is lost.
  pub Keeps : (Text → Bool) → List (Entry fl) → Compaction fl bt → Type 0
  Keeps lost log (kept r s) =
      (new : List (Entry fl)) × Mirrors fl bt new s × SameValues lost new log
  Keeps lost log (shut e s) =
      (new : List (Entry fl)) × (s.disk ≡ file_of fl new)
      × All (Fits fl) new
      × SameValues lost new log

  pub unchanged-Keeps :
      (lost : Text → Bool) (log : List (Entry fl)) (r : Result (Unit {0}))
      (s : FileVectorStore fl bt)
      → Mirrors fl bt log s
      → Keeps lost log (kept r s)
  unfolding Keeps
  unchanged-Keeps lost log r s h = (log, h, λ j. inl refl)

  replace_file-Keeps :
      (io : CompactIo) (log : List (Entry fl)) (s : FileVectorStore fl bt)
      → Mirrors fl bt log s
      → All (Fits fl) (puts fl bt (live_of io.unreadable s))
      → Keeps io.unreadable log
          (replace_file fl bt io (records_of fl bt (live_of io.unreadable s)) s)
  unfolding Keeps replace_file live_of
  replace_file-Keeps io log s h fits =
      let (distinct, all, _) = mirrored-ServesAll log s h in
      let live = live_of io.unreadable s in
      let vals : Text → Option (List F32) = λ j. last_values fl j none log in
      let temporary = first_error (io.write_tmp ∷ io.sync_tmp ∷ io.close_tmp ∷ []) in
      elim (Option-cases temporary) [
        | inr (e, failed) ↦
            rw (failed, replace_file) (unchanged-Keeps io.unreadable log (err (system e)) s h)
        | inl written ↦ elim (Option-cases (first_error (io.close_file ∷ io.rename ∷ []))) [
          | inr (e, failed) ↦ rw (written, replace_file, failed) (log, h.disk, h.fit, λ j. inl refl)
          | inl renamed ↦ elim (Option-cases (first_error (io.open_file ∷ io.seek ∷ []))) [
            | inr (e, failed) ↦
                rw (written, replace_file, renamed, failed)
                  (
                    puts fl bt live,
                    joined-records_of fl bt live,
                    fits,
                    live-SameValues io.unreadable log s h,
                  )
            | inl opened ↦
                rw (written, replace_file, renamed, opened)
                  (
                    puts fl bt live,
                    compacted-Mirrors vals live s h.tidy
                        (live-DistinctIds fl bt s.disk vals (answered fl bt io.unreadable s.offsets)
                          (answered-AreDistinct fl bt io.unreadable s.offsets distinct)
                          (answered-ServesAll fl bt io.unreadable s.disk vals s.offsets all))
                        fits,
                    live-SameValues io.unreadable log s h,
                  )
          ]
        ]
      ]

  synced-Keeps :
      (io : CompactIo) (log : List (Entry fl)) (answer : Result (Unit {0}) × FileVectorStore fl bt)
      → Mirrors fl bt log answer.1
      → All (Fits fl) (puts fl bt (live_of io.unreadable answer.1))
      → Keeps io.unreadable log (compact_synced fl bt io answer)
  unfolding compact_synced live_of
  synced-Keeps io log (err e, s) h fits = unchanged-Keeps io.unreadable log (err e) s h
  synced-Keeps io log (ok _, s) h fits = elim (Option-cases io.open_tmp) [
    | inr (e, failed) ↦
        rw (failed, compact_synced) (unchanged-Keeps io.unreadable log (err (system e)) s h)
    | inl opened ↦
        rw (opened, compact_synced, encode_batch-records_of fl bt (live_of io.unreadable s))
          (replace_file-Keeps io log s h fits)
  ]

  -- maybeCompactLocked, on a store whose file holds the records of a log and whose memory is what
  -- these leave, ordered ids and hot cache included: on every answer of the file system, a failing
  -- read of a record included, the file and the memory agree afterwards, or the handle of the file
  -- has been closed, and the file has under every id the values that it had. Only an id whose record
  -- could not be read may have none instead.
  pub maybe_compact-Keeps :
      (io : CompactIo) (log : List (Entry fl)) (s : FileVectorStore fl bt)
      → Mirrors fl bt log s
      → Keeps io.unreadable log (maybe_compact fl bt io s)
  unfolding maybe_compact compact live_of
  maybe_compact-Keeps io log s h =
      let (_, all, _) = mirrored-ServesAll log s h in
      let fits : All (Fits fl) (puts fl bt (live_of io.unreadable s)) =
        live-Fits fl bt s.disk (λ j. last_values fl j none log)
          (answered fl bt io.unreadable s.offsets)
          (answered-ServesAll fl bt io.unreadable s.disk (λ j. last_values fl j none log) s.offsets
            all)
          (λ j. last_values-LeftFits fl bt log j none h.fit tt) in
      let idle = unchanged-Keeps io.unreadable log done s h in
      let (n, same, _) = sync_pending-pending fl bt true io.sync s in
      elim (Bool-cases (ltb s.stale 1)) [
        | inl few ↦ rw few idle
        | inr some_stale ↦ elim (Bool-cases (ltb (s.stale * 2) s.writes)) [
          | inl mostly_live ↦ rw (some_stale, mostly_live) idle
          | inr due ↦
              rw (some_stale, due)
                (synced-Keeps io log (sync_pending fl bt true io.sync s)
                  (rw same (pending-Mirrors fl bt log n s h)) (rw same fits))
        ]
      ]
