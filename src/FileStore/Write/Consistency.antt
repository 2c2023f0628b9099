-- ===== src/FileStore/Write/Consistency.antt =====
-- What the store keeps in memory is what opening its file again would give.
use lumenvec.Base.{
  Text, some, ◌==◌, if◌then◌else◌, ℕ, ◌+◌, ◌≡◌, refl, sym, ap, ◌∙◌, Bool, List, [], ◌∷◌, ◌++◌,
  Option, none, Text-Eq, length, length-append, Result, ok, err, done, system, arith, All,
  Option-cases, Bool-cases, nat_eq, ltb, not, ◌&&◌, inl, inr, ◌⊎◌,
}
use mathlib.Core.List.{append_assoc}
use lumenvec.Numeric.{Floats, Vector, to_float32}
use lumenvec.OrderedIds.{BTree}
use lumenvec.FileStore.Codec.{encode_record, value_bytes}
use lumenvec.FileStore.Rebuild.{Scan, scan_start, index_record}
use lumenvec.FileStore.Log.{Entry, Fits, size, decoded, frame, file_of, replay, length-frame}
use lumenvec.FileStore.Reopen.{id_of, left_by, last_values}
use lumenvec.FileStore.Write.Tidy.{IsTidy, with_values, note_put-IsTidy}
use lumenvec.FileStore.Write.{
  FileVectorStore, sync_pending, encode_batch, joined, note_put, note_all,
}

module _ (fl : Floats) (bt : BTree) where
  open fl use {F64, F32}

  -- What the rebuild of the offsets computes, as the store keeps it.
  abbrev pub scan_of : FileVectorStore fl bt → Scan
  scan_of s = record {
    offsets = s.offsets;
    total_records = s.writes;
    stale_records = s.stale;
    offset = length s.disk;
  }

  -- The values that a log leaves.
  abbrev pub left : List (Entry fl) → Text → Option (List F32)
  left log j = last_values fl j none log

  -- The file holds the records of a log, and the memory what these leave, the ordered ids and the
  -- hot cache included.
  pub record Mirrors (log : List (Entry fl)) (s : FileVectorStore fl bt) : Type 0 where
    pub fit : All (Fits fl) log
    pub disk : s.disk ≡ file_of fl log
    pub memory : scan_of s ≡ replay fl log scan_start
    pub tidy : IsTidy fl bt (left log) s

  abbrev pub puts : List (Vector F64) → List (Entry fl)
  puts [] = []
  puts (vec ∷ vecs) = Entry.put vec.id vec.values ∷ puts vecs

  file_of-append : (a b : List (Entry fl)) → file_of fl (a ++ b) ≡ file_of fl a ++ file_of fl b
  file_of-append [] b = refl
  file_of-append (e ∷ a) b =
      ap (◌++◌ (frame fl e)) (file_of-append a b)
      ∙ sym (append_assoc (frame fl e) (file_of fl a) (file_of fl b))

  replay-append :
      (a b : List (Entry fl)) (st : Scan) → replay fl (a ++ b) st ≡ replay fl b (replay fl a st)
  replay-append [] b st = refl
  replay-append (e ∷ a) b st = replay-append a b (index_record fl (decoded fl e) (size fl e) st)

  abbrev pub records_of : List (Vector F64) → List (Vector F64 × List ℕ)
  records_of [] = []
  records_of (vec ∷ vecs) = (vec, frame fl (Entry.put vec.id vec.values)) ∷ records_of vecs

  pub encode_batch-records_of :
      (vecs : List (Vector F64)) → encode_batch fl bt vecs ≡ ok (records_of vecs)
  unfolding encode_batch encode_record value_bytes
  encode_batch-records_of [] = refl
  encode_batch-records_of (vec ∷ vecs) = rw (encode_batch-records_of vecs) refl

  pub joined-records_of :
      (vecs : List (Vector F64)) → joined fl bt (records_of vecs) ≡ file_of fl (puts vecs)
  unfolding joined
  joined-records_of [] = refl
  joined-records_of (vec ∷ vecs) =
      ap (◌++◌ (frame fl (Entry.put vec.id vec.values))) (joined-records_of vecs)

  -- The memory with an offset of its own.
  abbrev pub scan_at : ℕ → FileVectorStore fl bt → Scan
  scan_at offset s = record {
    offsets = s.offsets;
    total_records = s.writes;
    stale_records = s.stale;
    offset = offset;
  }

  note_put-index_record :
      (vec : Vector F64) (offset : ℕ) (s : FileVectorStore fl bt)
      → let e = Entry.put vec.id vec.values in
        let n = length (frame fl e) in
        scan_at (offset + n) (note_put fl bt vec offset n s)
        ≡ index_record fl (decoded fl e) (size fl e) (scan_at offset s)
  unfolding note_put index_record
  note_put-index_record vec offset s =
      let e : Entry fl = Entry.put vec.id vec.values in
      let moved : offset + (4 + size fl e) ≡ offset + 4 + size fl e = omega arith in
      rw (length-frame fl e)
        (ap (λ (o : ℕ). scan_at o (note_put fl bt vec offset (4 + size fl e) s)) moved)

  pub note_all-replay :
      (vecs : List (Vector F64)) (offset : ℕ) (s : FileVectorStore fl bt)
      → scan_at
          (offset + length (file_of fl (puts vecs)))
          (note_all fl bt (records_of vecs) offset s)
        ≡ replay fl (puts vecs) (scan_at offset s)
  unfolding note_all
  note_all-replay [] offset s =
      let same : offset + 0 ≡ offset = omega arith in ap (λ (o : ℕ). scan_at o s) same
  note_all-replay (vec ∷ vecs) offset s =
      let e : Entry fl = Entry.put vec.id vec.values in
      let n = length (frame fl e) in
      let s' = note_put fl bt vec offset n s in
      let moved : offset + length (frame fl e ++ file_of fl (puts vecs))
          ≡ (offset + n) + length (file_of fl (puts vecs)) =
        omega (arith, length-append (frame fl e) (file_of fl (puts vecs))) in
      ap (λ (o : ℕ). scan_at o (note_all fl bt (records_of vecs) (offset + n) s')) moved
      ∙ note_all-replay vecs (offset + n) s'
      ∙ ap (replay fl (puts vecs)) (note_put-index_record vec offset s)

  pub note_all-IsTidy :
      (vecs : List (Vector F64)) (offset : ℕ) (s : FileVectorStore fl bt)
      (vals : Text → Option (List F32))
      → IsTidy fl bt vals s
      → IsTidy fl bt
          (λ j. last_values fl j (vals j) (puts vecs))
          (note_all fl bt (records_of vecs) offset s)
  unfolding note_all
  note_all-IsTidy [] offset s vals h = h
  note_all-IsTidy (vec ∷ vecs) offset s vals h =
      let n = length (frame fl (Entry.put vec.id vec.values)) in
      note_all-IsTidy vecs (offset + n) (note_put fl bt vec offset n s)
        (with_values fl bt vec.id (some (to_float32 fl vec.values)) vals)
        (note_put-IsTidy fl bt vec offset n s vals h)

  last_values-append :
      (a b : List (Entry fl)) (j : Text) (acc : Option (List F32))
      → last_values fl j acc (a ++ b) ≡ last_values fl j (last_values fl j acc a) b
  last_values-append [] b j acc = refl
  last_values-append (e ∷ a) b j acc =
      last_values-append a b j (if id_of fl e == j then left_by fl e else acc)

  -- Values that are the same.
  pub same-IsTidy :
      (old new : Text → Option (List F32)) (s : FileVectorStore fl bt)
      → ((j : Text) → new j ≡ old j)
      → IsTidy fl bt old s
      → IsTidy fl bt new s
  same-IsTidy old new s same h = record {
    capacity = h.capacity;
    listed = h.listed;
    hot = h.hot;
    fresh = λ j v at. same j ∙ h.fresh j v at;
  }

  -- The fields that the loop leaves alone.
  pub note_all-disk :
      (records : List (Vector F64 × List ℕ)) (offset : ℕ) (s : FileVectorStore fl bt)
      → (note_all fl bt records offset s).disk ≡ s.disk
  unfolding note_all note_put
  note_all-disk [] offset s = refl
  note_all-disk ((vec, bytes) ∷ records) offset s =
      note_all-disk records (offset + length bytes) (note_put fl bt vec offset (length bytes) s)

  pub sync_pending-pending :
      (force : Bool) (answer : Option ℕ) (s : FileVectorStore fl bt)
      → (n : ℕ) × ((sync_pending fl bt force answer s).1 ≡ record s { pending = n })
        × (answer ≡ none → (sync_pending fl bt force answer s).0 ≡ done)
  unfolding sync_pending
  sync_pending-pending force answer s = elim (Bool-cases (nat_eq s.pending 0)) [
    | inl idle ↦ (s.pending, rw (idle, sync_pending) refl, λ e. rw (idle, sync_pending) refl)
    | inr busy ↦ elim (Bool-cases (not force && ltb s.pending s.sync_every)) [
      | inl early ↦
          (s.pending, rw (busy, sync_pending, early) refl, λ e. rw (busy, sync_pending, early) refl)
      | inr due ↦ elim (Option-cases answer) [
        | inl synced ↦ (
          0,
          rw (busy, sync_pending, due, synced) refl,
          λ e. rw (busy, sync_pending, due, synced) refl,
        )
        | inr (n, failed) ↦ (
          s.pending,
          rw (busy, sync_pending, due, failed) refl,
          λ e. absurd (ground (arith, e, failed)),
        )
      ]
    ]
  ]

  fit-append : (a b : List (Entry fl)) → All (Fits fl) a → All (Fits fl) b → All (Fits fl) (a ++ b)
  fit-append [] b ha hb = hb
  fit-append (e ∷ a) b (h, ha) hb = (h, fit-append a b ha hb)

  -- After the records of `more` have been written and noted.
  pub append-Mirrors :
      (log more : List (Entry fl)) (s s' : FileVectorStore fl bt)
      → Mirrors log s
      → All (Fits fl) more
      → s'.disk ≡ s.disk ++ file_of fl more
      → scan_at (length s.disk + length (file_of fl more)) s' ≡ replay fl more (scan_of s)
      → IsTidy fl bt (λ j. last_values fl j (left log j) more) s'
      → Mirrors (log ++ more) s'
  append-Mirrors log more s s' h fits disk memory tidy =
      let longer : length s'.disk ≡ length s.disk + length (file_of fl more) =
        ap length disk ∙ length-append s.disk (file_of fl more) in
      record {
        fit = fit-append log more h.fit fits;
        disk = disk ∙ ap (λ d. d ++ file_of fl more) h.disk ∙ sym (file_of-append log more);
        memory =
            ap (λ (o : ℕ). scan_at o s') longer
            ∙ memory
            ∙ ap (replay fl more) h.memory
            ∙ sym (replay-append log more scan_start);
        tidy =
            same-IsTidy (λ j. last_values fl j (left log j) more) (left (log ++ more)) s'
              (λ j. last_values-append log more j none) tidy;
      }

  pub pending-Mirrors :
      (log : List (Entry fl)) (n : ℕ) (s : FileVectorStore fl bt)
      → Mirrors log s
      → Mirrors log (record s { pending = n })
  pending-Mirrors log n s h = record {
    fit = h.fit;
    disk = h.disk;
    memory = h.memory;
    tidy = record {
      capacity = h.tidy.capacity;
      listed = h.tidy.listed;
      hot = h.tidy.hot;
      fresh = h.tidy.fresh;
    };
  }

  -- A write went through, and file and memory have the records of `more`; or it failed, the memory is
  -- as before, and the file may have bytes of the write at its end.
  abbrev pub Written :
      List (Entry fl)
      → List (Entry fl)
      → FileVectorStore fl bt
      → Result (Unit {0}) × FileVectorStore fl bt
      → Type 0
  Written log more s (r, s') =
      Mirrors (log ++ more) s'
      ⊎ ((e : ℕ) × (residue : List ℕ) × (r ≡ err (system e))
          × (s' ≡ record s { disk = s.disk ++ residue }))
