-- ===== src/Service/Admission.antt =====
-- The batches that AddVectors of internal/core/service.go accepts.
use lumenvec.Base.{
  ℕ, ◌+◌, ◌≤◌, ◌<◌, ◌≡◌, refl, sym, ◌∙◌, ap, subst, ◌⊎◌, inl, inr, true, false, List, [], ◌∷◌, ◌++◌,
  none, Text, Text-Eq, text_eq_iff, text_eq_refl, arith, ok, done, is_blank, nat_eq, ltb, length,
}
use mathlib.Core.List.{append_assoc, append-nil}
use lumenvec.Numeric.{Vector}
use lumenvec.Index
use lumenvec.Index.Laws.{find, add_vector_lem}
use lumenvec.OrderedIds.{contains}
use lumenvec.Resolver.{assign}
use lumenvec.VectorStore.{latest, or_else}
use lumenvec.Persistence.{WalOp, AppendIo, Backend, encode_all, append_opened, append_wal_batch}
use lumenvec.Service.{Deps, Io, Service, unless_lem, append_wal_ops}
use lumenvec.Service.Operations.{
  index_all, ann_all, upsert_ops, log_added, link_added, store_added, add_vectors,
}
use lumenvec.Service.Consistency.{View, Holds, Adding, Adding-start, ids_of}
use lumenvec.Service.Adding.{
  Indexed, index_all-Indexed, Linked, ann_all-Linked, Adding-upsert, AllIn-suffix,
}
use lumenvec.Service.Atomic.{maybe_snapshot-due, append-fields, add_vectors-Outcome}

module _ (d : Deps) where
  open d use {floats, vector_store, ann_index, json}
  open floats use {F64}

  -- Vectors of one dimension, under ids that are not blank, new, and different from each other.
  abbrev pub AreNew : View d → ℕ → List (Vector F64) → Type 0
  AreNew v n [] = Unit
  AreNew v n (vec ∷ vecs) =
      (is_blank vec.id ≡ false)
      × (length vec.values ≡ n)
      × (v vec.id ≡ none)
      × (contains vec.id (ids_of floats vecs) ≡ false)
      × AreNew v n vecs

  -- The log takes the operations: they have an encoding, and the file system reports no error.
  pub record Appends (io : AppendIo) (ops : List (WalOp floats)) : Type 0 where
    pub mkdir : io.mkdir ≡ none
    pub open_file : io.open_file ≡ none
    pub flush : io.flush ≡ none
    pub sync : io.sync ≡ none
    pub encoded : (ls : List Text) × (encode_all floats json ops ≡ ok ls)

  append-done :
      (io : AppendIo) (ops : List (WalOp floats)) (b : Backend)
      → Appends io ops
      → (append_wal_batch floats json io ops b).0 ≡ done
  unfolding append_wal_batch append_opened
  append-done io [] b h = refl
  append-done io (op ∷ ops) b h =
      let (ls, e) = h.encoded in
      rw (h.mkdir, h.open_file, append_opened, e, h.flush) (ground (arith, h.sync))

  pub append_wal_ops-done :
      (io : AppendIo) (ops : List (WalOp floats)) (s : Service d)
      → Appends io ops
      → (append_wal_ops d io ops s).0 ≡ done
  unfolding append_wal_ops
  append_wal_ops-done io ops s h = ground (arith, append-done io ops s.backend h)

  index_all-ok :
      (v : View d) (n : ℕ) (vecs : List (Vector F64)) (added : List Text) (s : Service d)
      → 0 < n
      → n ≤ s.max_vector_dim
      → AreNew v n vecs
      → ((j : Text) → contains j (ids_of floats vecs) ≡ true → find floats s.index j ≡ none)
      → (index_all d vecs added s).0 ≡ ok (added ++ ids_of floats vecs)
  unfolding index_all
  index_all-ok v n [] added s p q h free = ap ok (sym (append-nil added))
  index_all-ok v n (vec ∷ vecs) added s p q (named, size, _, apart, h) free =
      let some_values : nat_eq (length vec.values) 0 ≡ false = rw size (ground arith) in
      let low : ltb s.max_vector_dim (length vec.values) ≡ false = rw size (ground arith) in
      let new : (Index.add_vector floats vec s.index).0 ≡ done =
        ground
          (arith, (add_vector_lem floats vec s.index vec.id).0, free vec.id, text_eq_refl vec.id) in
      rw (named, some_values, low, new, index_all)
        (index_all-ok v n vecs (added ++ vec.id ∷ [])
            (record s { index = (Index.add_vector floats vec s.index).1 }) p q h
            (λ j c.
              ground (arith, free j, (add_vector_lem floats vec s.index j).1, text_eq_iff vec.id j))
          ∙ ap ok (append_assoc added (vec.id ∷ []) (ids_of floats vecs)))

  ann_all-done :
      (v : View d) (n : ℕ) (vecs : List (Vector F64)) (added : List Text) (s : Service d)
      → 0 < n
      → (ann_index.dim s.ann ≡ 0) ⊎ (ann_index.dim s.ann ≡ n)
      → AreNew v n vecs
      → (ann_all d vecs added s).0 ≡ done
  unfolding ann_all
  ann_all-done v n [] added s p q h = refl
  ann_all-done v n (vec ∷ vecs) added s p q (_, size, _, _, h) =
      let internal = (assign vec.id s.resolver).0 in
      let (linked, grown) =
        ann_index.add-fits internal vec.values s.ann (omega (arith, size))
          (ground (arith, size, q)) in
      rw (linked, ann_all) (ann_all-done v n vecs added _ p (inr (grown ∙ size)) h)

  AreNew-absent :
      (v : View d) (n : ℕ) (j : Text) (vecs : List (Vector F64))
      → AreNew v n vecs
      → contains j (ids_of floats vecs) ≡ true
      → v j ≡ none
  AreNew-absent v n j [] h c = ground arith
  AreNew-absent v n j (vec ∷ vecs) (_, _, absent, _, h) c =
      ground (arith, text_eq_iff vec.id j, AreNew-absent v n j vecs h)

  log_added-done :
      (io : Io) (vecs : List (Vector F64)) (added : List Text) (s : Service d)
      → Appends io.append (upsert_ops d vecs)
      → s.persist_ops + 1 < s.snapshot_every
      → (log_added d io vecs added s).0 ≡ done
  unfolding log_added
  log_added-done io vecs added s h early =
      let same = append-fields d io.append (upsert_ops d vecs) s in
      rw (append_wal_ops-done io.append (upsert_ops d vecs) s h, log_added)
        (ground (
          arith,
          maybe_snapshot-due d io (append_wal_ops d io.append (upsert_ops d vecs) s).1,
          ap (λ (x : Service d). x.persist_ops) same,
          ap (λ (x : Service d). x.snapshot_every) same,
        ))

  link_added-done :
      {v : View d} (n : ℕ) (io : Io) (vecs : List (Vector F64)) (s : Service d)
      → 0 < n
      → (ann_index.dim s.ann ≡ 0) ⊎ (ann_index.dim s.ann ≡ n)
      → AreNew v n vecs
      → Appends io.append (upsert_ops d vecs)
      → s.persist_ops + 1 < s.snapshot_every
      → Adding d v (ids_of floats vecs) s
      → (link_added d io vecs (ids_of floats vecs) s).0 ≡ done
  unfolding link_added
  link_added-done {v} n io vecs s p q new logs early a =
      let added = ids_of floats vecs in
      let linked = ann_all-done v n vecs added s p q new in
      let t = (ann_all d vecs added s).1 in
      let kept : Linked d v s added done t =
        subst (λ r. Linked d v s added r t) linked
          (ann_all-Linked d {v = v} vecs added s (AllIn-suffix d vecs []) a) in
      rw (linked, link_added)
        (log_added-done io vecs added t logs (
          ground (
            arith,
            ap (λ (x : Service d). x.persist_ops) kept.1,
            ap (λ (x : Service d). x.snapshot_every) kept.1,
          )))

  store_added-done :
      {v : View d} (n : ℕ) (io : Io) (vecs : List (Vector F64)) (s : Service d)
      → 0 < n
      → (ann_index.dim s.ann ≡ 0) ⊎ (ann_index.dim s.ann ≡ n)
      → AreNew v n vecs
      → Appends io.append (upsert_ops d vecs)
      → s.persist_ops + 1 < s.snapshot_every
      → io.store_upsert ≡ none
      → Adding d v (ids_of floats vecs) s
      → (store_added d io vecs (ids_of floats vecs) s).0 ≡ done
  unfolding store_added
  store_added-done {v} n io vecs s p q new logs early called a =
      rw
        (
          store_added,
          unless_lem io.store_upsert s.store (vector_store.upsert_vectors vecs s.store) called,
          vector_store.upsert-done vecs s.store a.valid,
          unless_lem io.store_upsert s.store (vector_store.upsert_vectors vecs s.store) called,
        )
        (link_added-done {v = v} n io vecs _ p q new logs early (Adding-upsert d vecs s a))

  -- AddVectors succeeds, and index and store then hold the old vectors with every vector of the
  -- batch put in, where the batch is not empty, its ids are not blank, new and different from each
  -- other, its vectors have one dimension, at least 1, at most the limit and that of the ANN index
  -- if it has one, the store and the log take the batch, and no snapshot is due.
  pub add_vectors-done :
      {v : View d} (n : ℕ) (io : Io) (vec : Vector F64) (vecs : List (Vector F64)) (s : Service d)
      → 0 < n
      → n ≤ s.max_vector_dim
      → (ann_index.dim s.ann ≡ 0) ⊎ (ann_index.dim s.ann ≡ n)
      → AreNew v n (vec ∷ vecs)
      → Appends io.append (upsert_ops d (vec ∷ vecs))
      → s.persist_ops + 1 < s.snapshot_every
      → io.store_upsert ≡ none
      → Holds d v s
      → ((add_vectors d io (vec ∷ vecs) s).0 ≡ done)
        × Holds d
            (λ j. or_else (latest floats j (vec ∷ vecs)) (v j))
            (add_vectors d io (vec ∷ vecs) s).1
  unfolding add_vectors
  add_vectors-done {v} n io vec vecs s p low q new logs early called h = (
    succeeds,
    elim (add_vectors-Outcome d {v = v} io (vec ∷ vecs) s h) [
      | inl ((e, failed), _) ↦ ground (arith, succeeds, failed)
      | inr (_, held) ↦ held
    ],
  )
    where
      all : List (Vector F64)
      all = vec ∷ vecs

      t : Service d
      t = (index_all d all [] s).1

      indexed : (index_all d all [] s).0 ≡ ok (ids_of floats all)
      indexed =
          index_all-ok v n all [] s p low new (λ j c. h.indexed j ∙ AreNew-absent v n j all new c)

      kept : Indexed d v s all [] (ok (ids_of floats all)) t
      kept =
          subst (λ r. Indexed d v s all [] r t) indexed
            (index_all-Indexed d {v = v} all [] s (Adding-start d s h))

      succeeds : (add_vectors d io (vec ∷ vecs) s).0 ≡ done
      succeeds =
          let same = kept.3 in
          rw (indexed, add_vectors)
            (store_added-done {v = v} n io all t p
              (subst (λ (x : Service d). (ann_index.dim x.ann ≡ 0) ⊎ (ann_index.dim x.ann ≡ n))
                (sym same) q)
              new logs
              (ground (
                arith,
                ap (λ (x : Service d). x.persist_ops) same,
                ap (λ (x : Service d). x.snapshot_every) same,
              ))
              called kept.1)
