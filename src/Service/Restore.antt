-- ===== src/Service/Restore.antt =====
-- restoreState of internal/core/service.go: what NewService reads back at a start.
use lumenvec.Base.{
  ℕ, Bool, true, false, ◌||◌, List, [], ◌∷◌, Option, Text, Text-Eq, ◌==◌, length, ltb, nat_eq,
  Result, ok, err, done, skip_wal_op, vector_exists,
}
use lumenvec.Numeric.{Vector}
use lumenvec.Index
use lumenvec.Index.{new_index}
use lumenvec.Resolver.{assign, new_resolver}
use lumenvec.Persistence.{WalOp, Payload, Backend, load_snapshot, replay_wal}
use lumenvec.Service.{Deps, Io, Service, rebuild_ann, save_snapshot_of, truncate_wal_of, ◌then_run◌}

module _ (d : Deps) where
  open d use {floats, vector_store, ann_index, json}
  open floats use {F64}

  abbrev pub is_skipped : Text → List F64 → Service d → Bool
  is_skipped id values s =
      id == [] || nat_eq (length values) 0 || ltb s.max_vector_dim (length values)

  -- the loop of loadSnapshot over the entries
  unfoldable pub load_entries : Payload floats → Service d → Result (Unit {0}) × Service d
  load_entries [] s = (done, s)
  load_entries ((id, values) ∷ m) s = elim (is_skipped id values s) [
    | true ↦ load_entries m s
    | false ↦
        let vec : Vector F64 = record { id = id; values = values } in
        let (r, st) = vector_store.upsert_vectors (vec ∷ []) s.store in
        elim r [
          | err e ↦ (err e, record s { store = st })
          | ok _ ↦
              -- an id that is indexed already is no error, and AddVector has no other
              let (internal, res) = assign id s.resolver in
              let (q, a) = ann_index.add_vector internal values s.ann in
              let s' : Service d = record s {
                store = st;
                index = (Index.add_vector floats vec s.index).1;
                resolver = res;
                ann = a;
              } in
              elim q [ err e ↦ (err e, s') | ok _ ↦ load_entries m s' ]
        ]
  ]

  unfoldable pub load_snapshot_into : Option ℕ → Service d → Result (Unit {0}) × Service d
  load_snapshot_into read s = elim (load_snapshot floats json read s.backend) [
    | err e ↦ (err e, s)
    | ok payload ↦ load_entries payload s
  ]

  -- the callback of replayWAL
  unfoldable pub apply_op : WalOp floats → Service d → Result (Unit {0}) × Service d
  apply_op (WalOp.upsert id values) s = elim (is_skipped id values s) [
    | true ↦ (err skip_wal_op, s)
    | false ↦
        let vec : Vector F64 = record { id = id; values = values } in
        let (r, st) = vector_store.upsert_vectors (vec ∷ []) s.store in
        elim r [
          | err e ↦ (err e, record s { store = st })
          | ok _ ↦
              let (q, i) = Index.add_vector floats vec s.index in
              elim q [
                | ok _ ↦ (done, record s { store = st; index = i })
                | err vector_exists ↦ (
                  done,
                  record s {
                    store = (vector_store.upsert_vectors (vec ∷ []) st).1;
                    index = (Index.add_vector floats vec (Index.delete_vector floats id i).1).1;
                  },
                )
                | err e ↦ (err e, record s { store = st; index = i })
              ]
        ]
  ]
  apply_op (WalOp.delete id) s = elim (id == []) [
    | true ↦ (err skip_wal_op, s)
    | false ↦ (
      done,
      record s {
        store = (vector_store.delete_vector id s.store).1;
        index = (Index.delete_vector floats id s.index).1;
      },
    )
  ]
  apply_op (WalOp.other id) s = (done, s)

  unfoldable pub replay_wal_into : Option ℕ → Service d → Result (Unit {0}) × Service d
  replay_wal_into read s =
      let (r, s') = replay_wal floats json read apply_op s.backend s in
      elim r [ err e ↦ (err e, s') | ok _ ↦ (done, rebuild_ann d s') ]

  -- What the file system answers at a start.
  pub record StartIo : Type 0 where
    pub read_snapshot : Option ℕ
    pub read_wal : Option ℕ
    pub rest : Io

  -- the loop of loadVectorStoreState
  unfoldable pub load_vectors : List (Vector F64) → Service d → Service d
  load_vectors [] s = s
  load_vectors (vec ∷ vecs) s = elim (is_skipped vec.id vec.values s) [
    | true ↦ load_vectors vecs s
    | false ↦
        let (internal, res) = assign vec.id s.resolver in
        load_vectors vecs (record s {
          index = (Index.add_vector floats vec s.index).1;
          resolver = res;
          ann = (ann_index.add_vector internal vec.values s.ann).1;
        })
  ]

  unfoldable pub restore_state : StartIo → Service d → Result (Unit {0}) × Service d
  restore_state io s = elim vector_store.is_persistent [
    | true ↦ (done, record (load_vectors (vector_store.list_vectors s.store) s) { persist_ops = 0 })
    | false ↦
        load_snapshot_into io.read_snapshot s
        then_run replay_wal_into io.read_wal
        then_run save_snapshot_of d io.rest.save
        then_run truncate_wal_of d io.rest.truncate
        then_run λ t. (done, record t { persist_ops = 0 })
  ]

  -- NewService over the files that a backend holds; the error of restoreState is dropped.
  unfoldable pub new_service :
      StartIo → vector_store.State → Backend → (max_vector_dim snapshot_every : ℕ) → Service d
  new_service io store backend max_vector_dim snapshot_every =
      (restore_state io (record {
        index = new_index floats;
        store = store;
        ann = ann_index.new;
        resolver = new_resolver;
        backend = backend;
        persist_ops = 0;
        max_vector_dim = max_vector_dim;
        snapshot_every = snapshot_every;
      })).1
