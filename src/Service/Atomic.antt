-- ===== src/Service/Atomic.antt =====
-- AddVectors of internal/core/service.go as one change of the index and the store.
use lumenvec.Base.{
  Option-cases, ◌≡◌, refl, sym, ◌∙◌, ap, subst, ◌+◌, ◌≤◌, ◌⊎◌, inl, inr, List, [], ◌∷◌, Text,
  Text-Eq, arith, Result, ok, err, Error, done, invalid_values, ltb, Bool-cases, Result-cases,
}
use lumenvec.Numeric.{Vector}
use lumenvec.Index.Laws.{find}
use lumenvec.VectorStore.{latest, or_else}
use lumenvec.Persistence.{AppendIo, WalOp}
use lumenvec.Service.{
  Deps, Io, Service, unless_lem, append_wal_ops, maybe_snapshot, sync_persistence, save_snapshot_of,
  truncate_wal_of,
}
use lumenvec.Service.Operations.{
  index_all, ann_all, log_added, link_added, store_added, add_vectors, upsert_ops,
}
use lumenvec.Service.Consistency.{View, Holds, Adding, Adding-start, rollback-Holds, ids_of}
use lumenvec.Service.Adding.{
  Indexed, index_all-Indexed, Linked, ann_all-Linked, Adding-upsert, AllIn-suffix,
}

module _ (d : Deps) where
  open d use {floats, vector_store, ann_index}
  open floats use {F64}

  -- Only the files and the counter of operations change.
  abbrev pub SameVectors : Service d → Service d → Type 0
  SameVectors s t = (t.index ≡ s.index) × (t.store ≡ s.store)

  pub maybe_snapshot-SameVectors :
      (io : Io) (s : Service d) → SameVectors s (maybe_snapshot d io s).1
  unfolding maybe_snapshot sync_persistence save_snapshot_of truncate_wal_of
  maybe_snapshot-SameVectors io s = ground arith

  -- A snapshot step fails only where a snapshot was due.
  pub maybe_snapshot-due :
      (io : Io) (s : Service d)
      → ((maybe_snapshot d io s).0 ≡ done) ⊎ (s.snapshot_every ≤ s.persist_ops + 1)
  unfolding maybe_snapshot
  maybe_snapshot-due io s = elim (Bool-cases vector_store.is_persistent) [
    | inl p ↦ inl (rw (p, maybe_snapshot))
    | inr p ↦ elim (Bool-cases (ltb (s.persist_ops + 1) s.snapshot_every)) [
      | inl early ↦ inl (rw (p, early, maybe_snapshot))
      | inr due ↦ inr (ground arith)
    ]
  ]

  pub Holds-same : {v : View d} (s t : Service d) → SameVectors s t → Holds d v s → Holds d v t
  Holds-same {v} s t e h = record {
    valid = subst vector_store.IsValid (sym e.1) h.valid;
    indexed = λ j. ap (λ i. find floats i j) e.0 ∙ h.indexed j;
    stored = λ j. ap (λ x. vector_store.view x j) e.1 ∙ h.stored j;
  }

  -- What a call of AddVectors leaves: an error that left the view as it was, or all the vectors,
  -- with an error only where a snapshot was due.
  abbrev pub Outcome :
      View d → List (Vector F64) → Service d → Result (Unit {0}) × Service d → Type 0
  Outcome v vecs s out =
      (((e : Error) × (out.0 ≡ err e)) × Holds d v out.1)
      ⊎ (((out.0 ≡ done) ⊎ (s.snapshot_every ≤ s.persist_ops + 1))
          × Holds d (λ j. or_else (latest floats j vecs) (v j)) out.1)

  Adding-append :
      {v : View d} (io : AppendIo) (ops : List (WalOp floats)) (added : List Text) (s : Service d)
      → Adding d v added s
      → Adding d v added (append_wal_ops d io ops s).1
  unfolding append_wal_ops
  Adding-append io ops added s h = elim (Bool-cases vector_store.is_persistent) [
    | inl p ↦ rw (p, append_wal_ops) h
    | inr p ↦
        rw (p, append_wal_ops)
          (record { valid = h.valid; fresh = h.fresh; indexed = h.indexed; stored = h.stored })
  ]

  pub append-fields :
      (io : AppendIo) (ops : List (WalOp floats)) (s : Service d)
      → (append_wal_ops d io ops s).1 ≡ record s { backend = (append_wal_ops d io ops s).1.backend }
  unfolding append_wal_ops
  append-fields io ops s = elim (Bool-cases vector_store.is_persistent) [
    | inl p ↦ rw (p, append_wal_ops)
    | inr p ↦ rw (p, append_wal_ops)
  ]

  log_added-Outcome :
      {v : View d} (io : Io) (vecs : List (Vector F64)) (added : List Text) (s : Service d)
      → Adding d v added s
      → Holds d (λ j. or_else (latest floats j vecs) (v j)) s
      → Outcome v vecs s (log_added d io vecs added s)
  unfolding log_added
  log_added-Outcome {v} io vecs added s a h =
      let t = (append_wal_ops d io.append (upsert_ops d vecs) s).1 in
      let same = append-fields io.append (upsert_ops d vecs) s in
      let kept = maybe_snapshot-SameVectors io t in
      elim (Result-cases (append_wal_ops d io.append (upsert_ops d vecs) s).0) [
        | inr (e, failed) ↦
            rw (failed, log_added)
              (inl ((e, refl), rollback-Holds d added t (Adding-append io.append _ added s a)))
        | inl (_, logged) ↦
            rw (logged, log_added)
              (inr (
                ground (
                  arith,
                  maybe_snapshot-due io t,
                  ap (λ (x : Service d). x.persist_ops) same,
                  ap (λ (x : Service d). x.snapshot_every) same,
                ),
                Holds-same s _
                    (
                      kept.0 ∙ ap (λ (x : Service d). x.index) same,
                      kept.1 ∙ ap (λ (x : Service d). x.store) same,
                    )
                    h,
              ))
      ]

  link_added-Outcome :
      {v : View d} (io : Io) (vecs : List (Vector F64)) (s : Service d)
      → Adding d v (ids_of floats vecs) s
      → Holds d (λ j. or_else (latest floats j vecs) (v j)) s
      → Outcome v vecs s (link_added d io vecs (ids_of floats vecs) s)
  unfolding link_added
  link_added-Outcome {v} io vecs s a h =
      let added = ids_of floats vecs in
      go (ann_all d vecs added s).0 (ann_all d vecs added s).1
        (ann_all-Linked d {v = v} vecs added s (AllIn-suffix d vecs []) a)
    where
      go :
          (r : Result (Unit {0})) (t : Service d)
          → Linked d v s (ids_of floats vecs) r t
          → Outcome v vecs s
              (elim r [ err e ↦ (err e, t) | ok _ ↦ log_added d io vecs (ids_of floats vecs) t ])
      go (err e) t k = inl ((e, refl), k)
      go (ok _) t k =
          subst (λ (x : Service d). Outcome v vecs x (log_added d io vecs (ids_of floats vecs) t))
            k.1
            (log_added-Outcome io vecs (ids_of floats vecs) t k.0 (
              Holds-same s t
                (ap (λ (x : Service d). x.index) k.1, ap (λ (x : Service d). x.store) k.1) h))

  store_added-Outcome :
      {v : View d} (io : Io) (vecs : List (Vector F64)) (s : Service d)
      → Adding d v (ids_of floats vecs) s
      → ((j : Text) → find floats s.index j ≡ or_else (latest floats j vecs) (v j))
      → ((j : Text) → vector_store.view s.store j ≡ v j)
      → Outcome v vecs s (store_added d io vecs (ids_of floats vecs) s)
  unfolding store_added
  store_added-Outcome {v} io vecs s a indexed stored = elim (Option-cases io.store_upsert) [
    | inr (e, failed) ↦
        rw (failed, store_added, failed)
          (inl ((e, refl), rollback-Holds d (ids_of floats vecs) s a))
    | inl called ↦
        rw
          (
            store_added,
            unless_lem io.store_upsert s.store (vector_store.upsert_vectors vecs s.store) called,
            vector_store.upsert-done vecs s.store a.valid,
            unless_lem io.store_upsert s.store (vector_store.upsert_vectors vecs s.store) called,
          )
          (link_added-Outcome io vecs
            (record s { store = (vector_store.upsert_vectors vecs s.store).1 })
            (Adding-upsert d vecs s a)
            (record {
              valid = vector_store.upsert-IsValid vecs s.store a.valid;
              indexed = indexed;
              stored = λ j.
                  vector_store.view-upsert vecs s.store j a.valid
                  ∙ ap (λ x. or_else (latest floats j vecs) x) (stored j);
            }))
  ]

  pub add_vectors-Outcome :
      {v : View d} (io : Io) (vecs : List (Vector F64)) (s : Service d)
      → Holds d v s
      → Outcome v vecs s (add_vectors d io vecs s)
  unfolding add_vectors
  add_vectors-Outcome io [] s h = inl ((invalid_values, refl), h)
  add_vectors-Outcome {v} io (vec ∷ vecs) s h =
      go (index_all d (vec ∷ vecs) [] s).0 (index_all d (vec ∷ vecs) [] s).1
        (index_all-Indexed d {v = v} (vec ∷ vecs) [] s (Adding-start d s h))
    where
      go :
          (r : Result (List Text)) (t : Service d)
          → Indexed d v s (vec ∷ vecs) [] r t
          → Outcome v
              (vec ∷ vecs)
              s
              (elim r [ err e ↦ (err e, t) | ok added ↦ store_added d io (vec ∷ vecs) added t ])
      go (err e) t k = inl ((e, refl), k)
      go (ok added) t k =
          let all : List (Vector F64) = vec ∷ vecs in
          rw k.0 (
            subst (λ (x : Service d). Outcome v all x (store_added d io all (ids_of floats all) t))
              k.3
              (store_added-Outcome io all t (subst (λ a. Adding d v a t) k.0 k.1)
                (λ j. k.2 j ∙ ap (λ x. or_else (latest floats j all) x) (h.indexed j))
                (λ j. ap (λ (x : Service d). vector_store.view x.store j) k.3 ∙ h.stored j)))
