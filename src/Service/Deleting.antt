-- ===== src/Service/Deleting.antt =====
-- DeleteVector of internal/core/service.go as one change of the index and the store.
use lumenvec.Base.{
  ◌≡◌, refl, ◌∙◌, ap, ◌+◌, ◌≤◌, ◌⊎◌, inl, inr, true, List, [], ◌∷◌, none, some, Text, Text-Eq,
  text_eq_iff, text_eq_refl, ◌==◌, if◌then◌else◌, arith, Result, err, Error, done, is_blank,
  vector_not_found, invalid_id, Bool-cases, Option-cases, Result-cases,
}
use lumenvec.Numeric.{Vector, to_float64, to_float32-to_float64}
use lumenvec.Index
use lumenvec.Index.Laws.{find, add_vector_lem, delete_vector_lem}
use lumenvec.VectorStore.{get_outcome}
use lumenvec.Persistence.{WalOp}
use lumenvec.Service.{Deps, Io, Service, unless_lem, rebuild_ann, append_wal_ops, maybe_compact_ann}
use lumenvec.Service.Operations.{log_deleted, unlink_deleted, delete_found, delete_vector}
use lumenvec.Service.Consistency.{View, Holds, rebuild_ann-Holds}
use lumenvec.Service.Atomic.{
  maybe_snapshot-SameVectors, maybe_snapshot-due, Holds-same, append-fields,
}

module _ (d : Deps) where
  open d use {floats, vector_store, ann_index}
  open floats use {F64, F32}

  abbrev pub without : View d → Text → View d
  without v id j = if id == j then none else v j

  -- What a call of DeleteVector leaves for an id that `v` holds: an error and the old view, or the
  -- view without the id, with an error only where a snapshot was due.
  abbrev pub Outcome : View d → Text → Service d → Result (Unit {0}) × Service d → Type 0
  Outcome v id s out =
      (((e : Error) × (out.0 ≡ err e)) × Holds d v out.1)
      ⊎ (((out.0 ≡ done) ⊎ (s.snapshot_every ≤ s.persist_ops + 1)) × Holds d (without v id) out.1)

  compact-Holds : {v : View d} (s : Service d) → Holds d v s → Holds d v (maybe_compact_ann d s)
  unfolding maybe_compact_ann
  compact-Holds s h = ground (arith, rebuild_ann-Holds d s h)

  pub compact-counters :
      (s : Service d)
      → ((maybe_compact_ann d s).persist_ops ≡ s.persist_ops)
        × ((maybe_compact_ann d s).snapshot_every ≡ s.snapshot_every)
  unfolding maybe_compact_ann rebuild_ann
  compact-counters s = ground arith

  -- Putting the vector back restores the view.
  restored-Holds :
      {v : View d} (id : Text) (x : List F32) (s t : Service d)
      → v id ≡ some x
      → Holds d (without v id) s
      → (t.index
          ≡ (Index.add_vector floats (record { id = id; values = to_float64 floats x }) s.index).1)
      → (t.store
          ≡ (vector_store.upsert_vectors
              (record { id = id; values = to_float64 floats x } ∷ [])
              s.store).1)
      → Holds d v t
  restored-Holds {v} id x s t held h ei es =
      let vec : Vector F64 = record { id = id; values = to_float64 floats x } in
      record {
        valid = rw es (vector_store.upsert-IsValid (vec ∷ []) s.store h.valid);
        indexed = λ j.
            ap (λ i. find floats i j) ei
            ∙ ground (
              arith,
              (add_vector_lem floats vec s.index j).1,
              h.indexed j,
              h.indexed id,
              text_eq_iff id j,
              text_eq_refl id,
              to_float32-to_float64 floats x,
            );
        stored = λ j.
            ap (λ st. vector_store.view st j) es
            ∙ ground (
              arith,
              vector_store.view-upsert (vec ∷ []) s.store j h.valid,
              h.stored j,
              text_eq_iff id j,
              to_float32-to_float64 floats x,
            );
      }

  log_deleted-Outcome :
      {v : View d} (io : Io) (id : Text) (x : List F32) (s : Service d)
      → v id ≡ some x
      → Holds d (without v id) s
      → Outcome v id s (log_deleted d io (record { id = id; values = to_float64 floats x }) id s)
  unfolding log_deleted
  log_deleted-Outcome {v} io id x s held h =
      let t = (append_wal_ops d io.append (WalOp.delete id ∷ []) s).1 in
      let same = append-fields d io.append (WalOp.delete id ∷ []) s in
      let t-Holds : Holds d (without v id) t =
        Holds-same d s t
          (ap (λ (y : Service d). y.index) same, ap (λ (y : Service d). y.store) same) h in
      elim (Result-cases (append_wal_ops d io.append (WalOp.delete id ∷ []) s).0) [
        | inr (e, failed) ↦
            rw (failed, log_deleted)
              (inl
                ((e, refl), rebuild_ann-Holds d _ (restored-Holds id x t _ held t-Holds refl refl)))
        | inl (_, logged) ↦
            rw (logged, log_deleted)
              (inr (
                ground (
                  arith,
                  maybe_snapshot-due d io (maybe_compact_ann d t),
                  compact-counters t,
                  ap (λ (y : Service d). y.persist_ops) same,
                  ap (λ (y : Service d). y.snapshot_every) same,
                ),
                Holds-same d (maybe_compact_ann d t) _
                    (maybe_snapshot-SameVectors d io (maybe_compact_ann d t))
                    (compact-Holds t t-Holds),
              ))
      ]

  -- Taking a vector out of the index and putting it back changes no id.
  put_back-find :
      {v : View d} (id : Text) (x : List F32) (s : Service d)
      → v id ≡ some x
      → Holds d v s
      → (j : Text)
      → find floats
          (Index.add_vector floats
            (record { id = id; values = to_float64 floats x })
            (Index.delete_vector floats id s.index).1).1
          j
        ≡ v j
  put_back-find id x s held h j =
      let vec : Vector F64 = record { id = id; values = to_float64 floats x } in
      let i = (Index.delete_vector floats id s.index).1 in
      ground (
        arith,
        (add_vector_lem floats vec i j).1,
        (delete_vector_lem floats id s.index j).1,
        (delete_vector_lem floats id s.index id).1,
        held,
        h.indexed j,
        text_eq_iff id j,
        text_eq_refl id,
        to_float32-to_float64 floats x,
      )

  delete_found-Outcome :
      {v : View d} (io : Io) (id : Text) (x : List F32) (s : Service d)
      → v id ≡ some x
      → Holds d v s
      → Outcome v id s (delete_found d io (record { id = id; values = to_float64 floats x }) id s)
  unfolding delete_found unlink_deleted
  delete_found-Outcome {v} io id x s held h =
      let dropped : (Index.delete_vector floats id s.index).0 ≡ done =
        ground (arith, (delete_vector_lem floats id s.index id).0, h.indexed id) in
      let emptied : (vector_store.delete_vector id s.store).0 ≡ done =
        ground (arith, vector_store.delete-view id s.store h.valid, h.stored id) in
      elim (Option-cases io.store_delete) [
        | inr (e, failed) ↦
            rw (dropped, delete_found, failed, failed)
              (inl (
                (e, refl),
                record {
                  valid = h.valid;
                  indexed = put_back-find id x s held h;
                  stored = h.stored;
                },
              ))
        | inl called ↦
            rw
              (
                dropped,
                delete_found,
                unless_lem io.store_delete s.store (vector_store.delete_vector id s.store) called,
                emptied,
                unless_lem io.store_delete s.store (vector_store.delete_vector id s.store) called,
              )
              (log_deleted-Outcome io id x _ held (record {
                valid = vector_store.delete-IsValid id s.store h.valid;
                indexed =
                    λ j. ground (arith, (delete_vector_lem floats id s.index j).1, h.indexed j);
                stored =
                    λ j. ground (arith, vector_store.view-delete id s.store j h.valid, h.stored j);
              }))
      ]

  pub got-Holds :
      {v : View d} (id : Text) (s : Service d)
      → Holds d v s
      → Holds d v (record s { store = (vector_store.get_vector id s.store).1 })
  got-Holds id s h = record {
    valid = vector_store.get-IsValid id s.store h.valid;
    indexed = h.indexed;
    stored = λ j. vector_store.view-get id s.store j h.valid ∙ h.stored j;
  }

  pub delete_vector-Outcome :
      {v : View d} (io : Io) (id : Text) (s : Service d)
      → Holds d v s
      → ((is_blank id ≡ true) × (delete_vector d io id s ≡ (err invalid_id, s)))
        ⊎ ((e : Error) × (io.store_get ≡ some e) × (delete_vector d io id s ≡ (err e, s)))
        ⊎ ((v id ≡ none)
            × ((delete_vector d io id s).0 ≡ err vector_not_found)
            × Holds d v (delete_vector d io id s).1)
        ⊎ Outcome v id s (delete_vector d io id s)
  unfolding delete_vector
  delete_vector-Outcome {v} io id s h = elim (Bool-cases (is_blank id)) [
    | inl blank ↦ inl (blank, rw (blank, delete_vector))
    | inr named ↦ elim (Option-cases io.store_get) [
      | inr (e, failed) ↦ inr (inl (e, failed, rw (named, delete_vector, failed, failed) refl))
      | inl called ↦
          let got : (vector_store.get_vector id s.store).0 ≡ get_outcome floats id (v id) =
            vector_store.get-view id s.store h.valid ∙ ap (get_outcome floats id) (h.stored id) in
          let through =
            unless_lem io.store_get s.store (vector_store.get_vector id s.store) called in
          elim (Option-cases (v id)) [
            | inl absent ↦
                let missing = got ∙ ap (get_outcome floats id) absent in
                inr (
                  inr (
                    inl (
                      absent,
                      rw (named, delete_vector, through, missing),
                      rw (named, delete_vector, through, missing, through) (got-Holds id s h),
                    )))
            | inr (x, held) ↦
                let found = got ∙ ap (get_outcome floats id) held in
                inr (
                  inr (
                    inr (
                      rw (named, delete_vector, through, found, through)
                        (delete_found-Outcome io id x _ held (got-Holds id s h)))))
          ]
    ]
  ]
