-- ===== src/Service/Consistency.antt =====
-- The index and the store of a service hold the same vectors, and what rollback restores.
use lumenvec.Base.{
  ◌≡◌, refl, true, false, ◌||◌, List, [], ◌∷◌, ◌++◌, Option, none, Text, Text-Eq, arith,
}
use lumenvec.Numeric.{Floats, Vector}
use lumenvec.Index
use lumenvec.Index.Laws.{find, delete_vector_lem}
use lumenvec.OrderedIds.{contains}
use lumenvec.VectorStore.{latest}
use lumenvec.Service.{Deps, Service, rebuild_ann, remove_all, rollback_added_vectors}

pub contains-append :
    (k : Text) (xs ys : List Text) → contains k (xs ++ ys) ≡ (contains k xs || contains k ys)
contains-append k [] ys = refl
contains-append k (x ∷ xs) ys = ground (arith, contains-append k xs ys)

module _ (fl : Floats) where
  abbrev pub ids_of : List (Vector fl.F64) → List Text
  ids_of [] = []
  ids_of (v ∷ vs) = v.id ∷ ids_of vs

  pub latest_of_absent :
      (j : Text) (vs : List (Vector fl.F64))
      → contains j (ids_of vs) ≡ false
      → latest fl j vs ≡ none
  latest_of_absent j [] h = refl
  latest_of_absent j (v ∷ vs) h = ground (arith, latest_of_absent j vs)

module _ (d : Deps) where
  open d use {floats, vector_store}
  open floats use {F32}

  abbrev pub View : Type 0
  View = Text → Option (List F32)

  -- What a service shows for an id.
  abbrev pub view : Service d → View
  view s = vector_store.view s.store

  -- The index and the store both hold exactly `v`.
  pub record Holds (v : View) (s : Service d) : Type 0 where
    pub valid : vector_store.IsValid s.store
    pub indexed : (j : Text) → find floats s.index j ≡ v j
    pub stored : (j : Text) → vector_store.view s.store j ≡ v j

  -- In the midst of an addition: the ids in `added` were new, and all others are as in `v`.
  pub record Adding (v : View) (added : List Text) (s : Service d) : Type 0 where
    pub valid : vector_store.IsValid s.store
    pub fresh : (j : Text) → contains j added ≡ true → v j ≡ none
    pub indexed : (j : Text) → contains j added ≡ false → find floats s.index j ≡ v j
    pub stored : (j : Text) → contains j added ≡ false → vector_store.view s.store j ≡ v j

  pub Adding-start : {v : View} (s : Service d) → Holds v s → Adding v [] s
  Adding-start s h = record {
    valid = h.valid;
    fresh = λ j e. ground arith;
    indexed = λ j e. h.indexed j;
    stored = λ j e. h.stored j;
  }

  -- One id leaves the index and the store.
  pub Adding-remove :
      {v : View} (id : Text) (added : List Text) (s : Service d)
      → Adding v (id ∷ added) s
      → Adding v added (record s {
        store = (vector_store.delete_vector id s.store).1;
        index = (Index.delete_vector floats id s.index).1;
      })
  Adding-remove {v} id added s h = record {
    valid = vector_store.delete-IsValid id s.store h.valid;
    fresh = λ j e. ground (arith, h.fresh j);
    indexed =
        λ j e. ground (arith, (delete_vector_lem floats id s.index j).1, h.fresh j, h.indexed j);
    stored =
        λ j e. ground (arith, vector_store.view-delete id s.store j h.valid, h.fresh j, h.stored j);
  }

  remove_all-Holds :
      {v : View} (ids : List Text) (s : Service d) → Adding v ids s → Holds v (remove_all d ids s)
  unfolding remove_all
  remove_all-Holds [] s h = record {
    valid = h.valid;
    indexed = λ j. h.indexed j refl;
    stored = λ j. h.stored j refl;
  }
  remove_all-Holds (id ∷ ids) s h = remove_all-Holds ids _ (Adding-remove id ids s h)

  pub rebuild_ann-Holds : {v : View} (s : Service d) → Holds v s → Holds v (rebuild_ann d s)
  unfolding rebuild_ann
  rebuild_ann-Holds s h = record { valid = h.valid; indexed = h.indexed; stored = h.stored }

  -- Rolling back the added ids gives the view from before the addition, in index and store.
  pub rollback-Holds :
      {v : View} (added : List Text) (s : Service d)
      → Adding v added s
      → Holds v (rollback_added_vectors d added s)
  unfolding rollback_added_vectors
  rollback-Holds added s h = rebuild_ann-Holds _ (remove_all-Holds added s h)
