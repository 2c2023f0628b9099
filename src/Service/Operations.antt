-- ===== src/Service/Operations.antt =====
-- AddVectors, GetVector and DeleteVector of internal/core/service.go. Each runs under persistMu.
use lumenvec.Base.{
  true, false, List, [], ◌∷◌, ◌++◌, Text, length, ltb, nat_eq, is_blank, Result, ok, err, done,
  invalid_id, invalid_values, vector_dim_too_high,
}
use lumenvec.Numeric.{Vector}
use lumenvec.Index
use lumenvec.Resolver.{assign, remove}
use lumenvec.Persistence.{WalOp}
use lumenvec.Service.{
  Deps, Io, Service, unless, rebuild_ann, rollback_added_vectors, append_wal_ops, maybe_snapshot,
  maybe_compact_ann,
}

module _ (d : Deps) where
  open d use {floats, vector_store, ann_index, json}
  open floats use {F64}

  -- The first loop of AddVectors: check each vector and index it; `added` are the ids so far.
  unfoldable pub index_all :
      List (Vector F64) → List Text → Service d → Result (List Text) × Service d
  index_all [] added s = (ok added, s)
  index_all (vec ∷ vecs) added s = elim (is_blank vec.id) [
    | true ↦ (err invalid_id, rollback_added_vectors d added s)
    | false ↦ elim (nat_eq (length vec.values) 0) [
      | true ↦ (err invalid_values, rollback_added_vectors d added s)
      | false ↦ elim (ltb s.max_vector_dim (length vec.values)) [
        | true ↦ (err (vector_dim_too_high s.max_vector_dim), rollback_added_vectors d added s)
        | false ↦
            let (r, i) = Index.add_vector floats vec s.index in
            elim r [
              | err e ↦ (err e, rollback_added_vectors d added (record s { index = i }))
              | ok _ ↦ index_all vecs (added ++ vec.id ∷ []) (record s { index = i })
            ]
      ]
    ]
  ]

  -- The loop of AddVectors over the ANN index.
  unfoldable pub ann_all : List (Vector F64) → List Text → Service d → Result (Unit {0}) × Service d
  ann_all [] added s = (done, s)
  ann_all (vec ∷ vecs) added s =
      let (internal, res) = assign vec.id s.resolver in
      let (r, a) = ann_index.add_vector internal vec.values s.ann in
      elim r [
        | ok _ ↦ ann_all vecs added (record s { ann = a; resolver = res })
        | err e ↦ (
          err e,
          rollback_added_vectors d added (record s {
            ann = a;
            resolver = res;
            store = (vector_store.delete_vector vec.id s.store).1;
            index = (Index.delete_vector floats vec.id s.index).1;
          }),
        )
      ]

  abbrev pub upsert_ops : List (Vector F64) → List (WalOp floats)
  upsert_ops [] = []
  upsert_ops (vec ∷ vecs) = WalOp.upsert vec.id vec.values ∷ upsert_ops vecs

  -- AddVectors, in the order of its parts.
  unfoldable pub log_added :
      Io → List (Vector F64) → List Text → Service d → Result (Unit {0}) × Service d
  log_added io vecs added s =
      let (r, s') = append_wal_ops d io.append (upsert_ops vecs) s in
      elim r [ err e ↦ (err e, rollback_added_vectors d added s') | ok _ ↦ maybe_snapshot d io s' ]

  unfoldable pub link_added :
      Io → List (Vector F64) → List Text → Service d → Result (Unit {0}) × Service d
  link_added io vecs added s =
      let (r, s') = ann_all vecs added s in
      elim r [ err e ↦ (err e, s') | ok _ ↦ log_added io vecs added s' ]

  unfoldable pub store_added :
      Io → List (Vector F64) → List Text → Service d → Result (Unit {0}) × Service d
  store_added io vecs added s =
      let (r, st) = unless io.store_upsert s.store (vector_store.upsert_vectors vecs s.store) in
      elim r [
        | err e ↦ (err e, rollback_added_vectors d added (record s { store = st }))
        | ok _ ↦ link_added io vecs added (record s { store = st })
      ]

  unfoldable pub add_vectors : Io → List (Vector F64) → Service d → Result (Unit {0}) × Service d
  add_vectors io [] s = (err invalid_values, s)
  add_vectors io (vec ∷ vecs) s =
      let (r, s') = index_all (vec ∷ vecs) [] s in
      elim r [ err e ↦ (err e, s') | ok added ↦ store_added io (vec ∷ vecs) added s' ]

  unfoldable pub get_vector : Io → Text → Service d → Result (Vector F64) × Service d
  get_vector io id s = elim (is_blank id) [
    | true ↦ (err invalid_id, s)
    | false ↦
        let (r, st) = unless io.store_get s.store (vector_store.get_vector id s.store) in
        (r, record s { store = st })
  ]

  -- DeleteVector from the append on: a failed append puts the vector back.
  unfoldable pub log_deleted : Io → Vector F64 → Text → Service d → Result (Unit {0}) × Service d
  log_deleted io vec id s =
      let (r, s') = append_wal_ops d io.append (WalOp.delete id ∷ []) s in
      elim r [
        | ok _ ↦ maybe_snapshot d io (maybe_compact_ann d s')
        | err e ↦ (
          err e,
          rebuild_ann d (record s' {
            store = (vector_store.upsert_vectors (vec ∷ []) s'.store).1;
            index = (Index.add_vector floats vec s'.index).1;
            resolver = (assign id s'.resolver).1;
          }),
        )
      ]

  unfoldable pub unlink_deleted : Io → Vector F64 → Text → Service d → Result (Unit {0}) × Service d
  unlink_deleted io vec id s =
      let (internal, res) = assign id s.resolver in
      log_deleted io vec id
        (record s { ann = ann_index.delete_vector internal s.ann; resolver = remove id res })

  unfoldable pub delete_found : Io → Vector F64 → Text → Service d → Result (Unit {0}) × Service d
  delete_found io vec id s =
      let (r, i) = Index.delete_vector floats id s.index in
      elim r [
        | err e ↦ (err e, record s { index = i })
        | ok _ ↦
            let (q, st) = unless io.store_delete s.store (vector_store.delete_vector id s.store) in
            elim q [
              | err e ↦ (err e, record s { index = (Index.add_vector floats vec i).1; store = st })
              | ok _ ↦ unlink_deleted io vec id (record s { index = i; store = st })
            ]
      ]

  unfoldable pub delete_vector : Io → Text → Service d → Result (Unit {0}) × Service d
  delete_vector io id s = elim (is_blank id) [
    | true ↦ (err invalid_id, s)
    | false ↦
        let (r, st) = unless io.store_get s.store (vector_store.get_vector id s.store) in
        elim r [
          | err e ↦ (err e, record s { store = st })
          | ok vec ↦ delete_found io vec id (record s { store = st })
        ]
  ]
