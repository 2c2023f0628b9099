-- ===== src/Service.antt =====
-- core.Service of internal/core/service.go: its state, and the helpers that its operations share.
pub mod Operations
pub mod Restore
pub mod Consistency
pub mod Adding
pub mod Atomic
pub mod Deleting
pub mod Admission
pub mod Removal
pub mod Search
pub mod Searching
pub mod Panic
pub mod Batch
use lumenvec.Base.{
  ◌≡◌, refl, ℕ, ◌+◌, ◌*◌, Bool, true, false, ◌||◌, List, [], ◌∷◌, Option, none, some, Text, ltb,
  nat_eq, Result, Error, ok, err, done, if◌then◌else◌,
}
use lumenvec.Numeric.{Floats, Vector}
use lumenvec.Index
use lumenvec.Index.{Index}
use lumenvec.Resolver.{Resolver, assign}
use lumenvec.VectorStore.{VectorStore}
use lumenvec.AnnInterface.{AnnIndex}
use lumenvec.Persistence.{
  Json, WalOp, Backend, AppendIo, SaveIo, TruncateIo, SyncIo, append_wal_batch, save_snapshot,
  truncate_wal, sync_backend,
}

-- ServiceDeps: what a service is put together from. The index, the id resolver and the
-- persistence backend are the ones that NewServiceWithDeps makes by default. The vector store is
-- the one that the service works with, behind newCachedVectorStore.
pub record Deps : Type 1 where
  pub floats : Floats
  pub vector_store : VectorStore floats
  pub ann_index : AnnIndex floats
  pub json : Json floats

-- What the calls of one operation of the service are answered: those of the file system, and the
-- calls of the vector store that may fail, where some error means that the store did nothing. The
-- store's calls that undo a change or rebuild the state succeed.
pub record Io : Type 0 where
  pub store_get : Option Error
  pub store_upsert : Option Error
  pub store_delete : Option Error
  pub append : AppendIo
  pub sync : SyncIo
  pub save : SaveIo
  pub truncate : TruncateIo

-- A call of the store, unless it fails.
abbrev pub unless {ℓ κ} : {A : Type ℓ} {S : Type κ} → Option Error → S → Result A × S → Result A × S
unless (some e) s call = (err e, s)
unless none s call = call

-- A call that does not fail.
pub unless_lem {ℓ κ} :
    {A : Type ℓ} {S : Type κ} (o : Option Error) (s : S) (call : Result A × S)
    → o ≡ none
    → unless o s call ≡ call
unless_lem o s call h = rw h refl

-- A step that runs where the one before returned no error.
infixl 10 ◌then_run◌
abbrev pub ◌then_run◌ {ℓ} :
    {S : Type ℓ} → Result (Unit {0}) × S → (S → Result (Unit {0}) × S) → Result (Unit {0}) × S
◌then_run◌ m next = let (r, s) = m in elim r [ ok _ ↦ next s | err e ↦ (err e, s) ]

module _ (d : Deps) where
  open d use {floats, vector_store, ann_index, json}
  open floats use {F64}

  pub record Service : Type 0 where
    pub index : Index floats
    pub store : vector_store.State
    pub ann : ann_index.State
    pub resolver : Resolver
    pub backend : Backend
    pub persist_ops : ℕ
    pub max_vector_dim : ℕ
    pub snapshot_every : ℕ

  -- the loop of rebuildANNLocked
  unfoldable pub rebuild_from :
      List (Vector F64) → ann_index.State → Resolver → ann_index.State × Resolver
  rebuild_from [] a r = (a, r)
  rebuild_from (vec ∷ vecs) a r =
      let (internal, r') = assign vec.id r in
      rebuild_from vecs (ann_index.add_vector internal vec.values a).1 r'

  unfoldable pub rebuild_ann : Service → Service
  rebuild_ann s =
      let (a, r) = rebuild_from (Index.list_vectors floats s.index) ann_index.new s.resolver in
      record s { ann = a; resolver = r }

  -- the loop of rollbackAddedVectors
  unfoldable pub remove_all : List Text → Service → Service
  remove_all [] s = s
  remove_all (id ∷ ids) s = remove_all ids (record s {
    store = (vector_store.delete_vector id s.store).1;
    index = (Index.delete_vector floats id s.index).1;
  })

  unfoldable pub rollback_added_vectors : List Text → Service → Service
  rollback_added_vectors ids s = rebuild_ann (remove_all ids s)

  unfoldable pub append_wal_ops :
      AppendIo → List (WalOp floats) → Service → Result (Unit {0}) × Service
  append_wal_ops io ops s =
      if vector_store.is_persistent
      then (done, s)
      else let (r, b) = append_wal_batch floats json io ops s.backend in
        (r, record s { backend = b })

  unfoldable pub save_snapshot_of : SaveIo → Service → Result (Unit {0}) × Service
  save_snapshot_of io s =
      if vector_store.is_persistent
      then (done, s)
      else let (r, b) =
          save_snapshot floats json io (vector_store.list_vectors s.store) s.backend in
        (r, record s { backend = b })

  unfoldable pub truncate_wal_of : TruncateIo → Service → Result (Unit {0}) × Service
  truncate_wal_of io s =
      if vector_store.is_persistent
      then (done, s)
      else let (r, b) = truncate_wal io s.backend in (r, record s { backend = b })

  unfoldable pub sync_persistence : SyncIo → Service → Result (Unit {0}) × Service
  sync_persistence io s = let (r, b) = sync_backend io s.backend in (r, record s { backend = b })

  unfoldable pub maybe_snapshot : Io → Service → Result (Unit {0}) × Service
  maybe_snapshot io s =
      if vector_store.is_persistent
      then (done, record s { persist_ops = 0 })
      else if ltb (s.persist_ops + 1) s.snapshot_every
      then (done, record s { persist_ops = s.persist_ops + 1 })
      else sync_persistence io.sync (record s { persist_ops = s.persist_ops + 1 })
        then_run save_snapshot_of io.save
        then_run truncate_wal_of io.truncate
        then_run λ t. (done, record t { persist_ops = 0 })

  -- maybeCompactANNAfterDeleteLocked; deleted / nodes < 0.25 is exact below 2 ^ 53
  unfoldable pub maybe_compact_ann : Service → Service
  maybe_compact_ann s =
      if ltb (ann_index.deleted s.ann) 1024
      then s
      else if nat_eq (ann_index.nodes s.ann) 0
          || ltb (4 * ann_index.deleted s.ann) (ann_index.nodes s.ann)
      then s
      else rebuild_ann s
