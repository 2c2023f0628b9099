-- ===== src/Service/Removal.antt =====
-- The deletions that DeleteVector of internal/core/service.go carries out.
use lumenvec.Base.{
  none, ◌+◌, ◌<◌, ◌≡◌, ◌∙◌, ap, inl, inr, false, List, [], ◌∷◌, some, Text, Text-Eq, arith, ok,
  done, is_blank,
}
use lumenvec.Numeric.{Vector, to_float64}
use lumenvec.Index
use lumenvec.Index.Laws.{delete_vector_lem}
use lumenvec.Persistence.{WalOp}
use lumenvec.VectorStore.{get_outcome}
use lumenvec.Service.{Deps, Io, Service, unless_lem, append_wal_ops, maybe_compact_ann}
use lumenvec.Service.Operations.{log_deleted, unlink_deleted, delete_found, delete_vector}
use lumenvec.Service.Consistency.{View, Holds}
use lumenvec.Service.Atomic.{maybe_snapshot-due, append-fields}
use lumenvec.Service.Deleting.{without, compact-counters, got-Holds, delete_vector-Outcome}
use lumenvec.Service.Admission.{Appends, append_wal_ops-done}

module _ (d : Deps) where
  open d use {floats, vector_store, ann_index, json}
  open floats use {F64, F32}

  log_deleted-done :
      (io : Io) (vec : Vector F64) (id : Text) (s : Service d)
      → Appends d io.append (WalOp.delete id ∷ [])
      → s.persist_ops + 1 < s.snapshot_every
      → (log_deleted d io vec id s).0 ≡ done
  unfolding log_deleted
  log_deleted-done io vec id s logs early =
      let t = (append_wal_ops d io.append (WalOp.delete id ∷ []) s).1 in
      let same = append-fields d io.append (WalOp.delete id ∷ []) s in
      rw (append_wal_ops-done d io.append (WalOp.delete id ∷ []) s logs, log_deleted)
        (ground (
          arith,
          maybe_snapshot-due d io (maybe_compact_ann d t),
          compact-counters d t,
          ap (λ (x : Service d). x.persist_ops) same,
          ap (λ (x : Service d). x.snapshot_every) same,
        ))

  delete_found-done :
      {v : View d} (io : Io) (id : Text) (x : List F32) (s : Service d)
      → v id ≡ some x
      → Appends d io.append (WalOp.delete id ∷ [])
      → s.persist_ops + 1 < s.snapshot_every
      → io.store_delete ≡ none
      → Holds d v s
      → (delete_found d io (record { id = id; values = to_float64 floats x }) id s).0 ≡ done
  unfolding delete_found unlink_deleted
  delete_found-done {v} io id x s held logs early called h =
      let dropped : (Index.delete_vector floats id s.index).0 ≡ done =
        ground (arith, (delete_vector_lem floats id s.index id).0, h.indexed id) in
      let emptied : (vector_store.delete_vector id s.store).0 ≡ done =
        ground (arith, vector_store.delete-view id s.store h.valid, h.stored id) in
      rw
        (
          dropped,
          delete_found,
          unless_lem io.store_delete s.store (vector_store.delete_vector id s.store) called,
          emptied,
          unless_lem io.store_delete s.store (vector_store.delete_vector id s.store) called,
        )
        (log_deleted-done io (record { id = id; values = to_float64 floats x }) id _ logs early)

  -- DeleteVector succeeds, and index and store then both lack the id and are otherwise as before,
  -- where the id is not blank and has a vector, the store's calls succeed, the log takes the
  -- deletion, and no snapshot is due.
  pub delete_vector-done :
      {v : View d} (io : Io) (id : Text) (x : List F32) (s : Service d)
      → is_blank id ≡ false
      → v id ≡ some x
      → Appends d io.append (WalOp.delete id ∷ [])
      → s.persist_ops + 1 < s.snapshot_every
      → io.store_get ≡ none
      → io.store_delete ≡ none
      → Holds d v s
      → ((delete_vector d io id s).0 ≡ done) × Holds d (without d v id) (delete_vector d io id s).1
  unfolding delete_vector
  delete_vector-done {v} io id x s named held logs early got called h = (
    succeeds,
    elim (delete_vector-Outcome d {v = v} io id s h) [
      | inl (blank, _) ↦ ground (arith, named, blank)
      | inr (inl (e, failed, _)) ↦ ground (arith, got, failed)
      | inr (inr (inl (absent, _, _))) ↦ ground (arith, absent, held)
      | inr (inr (inr (inl ((e, failed), _)))) ↦ ground (arith, succeeds, failed)
      | inr (inr (inr (inr (_, gone)))) ↦ gone
    ],
  )
    where
      found :
          (vector_store.get_vector id s.store).0
          ≡ ok (record { id = id; values = to_float64 floats x })
      found =
          vector_store.get-view id s.store h.valid
          ∙ (ap (get_outcome floats id) (h.stored id ∙ held))

      succeeds : (delete_vector d io id s).0 ≡ done
      succeeds =
          rw
            (
              named,
              delete_vector,
              unless_lem io.store_get s.store (vector_store.get_vector id s.store) got,
              found,
              unless_lem io.store_get s.store (vector_store.get_vector id s.store) got,
            )
            (delete_found-done {v = v} io id x _ held logs early called (got-Holds d id s h))
