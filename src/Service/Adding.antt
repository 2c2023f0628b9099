-- ===== src/Service/Adding.antt =====
-- The two loops of AddVectors of internal/core/service.go.
use lumenvec.Base.{
  ◌≡◌, refl, sym, ◌∙◌, inl, inr, true, List, [], ◌∷◌, ◌++◌, Text, Text-Eq, text_eq_iff,
  text_eq_refl, arith, Result, ok, err, done, is_blank, nat_eq, ltb, length, Bool-cases,
  Result-cases,
}
use mathlib.Core.List.{append_assoc, append-nil}
use lumenvec.Numeric.{Vector}
use lumenvec.Index
use lumenvec.Index.Laws.{find, add_vector_lem, add_vector-cases, delete_vector_lem}
use lumenvec.OrderedIds.{contains}
use lumenvec.Resolver.{Resolver, assign}
use lumenvec.VectorStore.{latest, or_else}
use lumenvec.Service.{Deps, Service}
use lumenvec.Service.Operations.{index_all, ann_all}
use lumenvec.Service.Consistency.{
  View, Holds, Adding, rollback-Holds, contains-append, ids_of, latest_of_absent,
}

module _ (d : Deps) where
  open d use {floats, vector_store, ann_index}
  open floats use {F64}

  -- What the first loop leaves, started in the state `s`.
  abbrev pub Indexed :
      View d → Service d → List (Vector F64) → List Text → Result (List Text) → Service d → Type 0
  Indexed v s vecs added (err e) t = Holds d v t
  Indexed v s vecs added (ok all) t =
      (all ≡ added ++ ids_of floats vecs)
      × Adding d v all t
      × ((j : Text)
          → find floats t.index j ≡ or_else (latest floats j vecs) (find floats s.index j))
      × (t ≡ record s { index = t.index })

  Adding-index :
      {v : View d} (vec : Vector F64) (added : List Text) (s : Service d)
      → Adding d v added s
      → (Index.add_vector floats vec s.index).0 ≡ done
      → Adding d v
          (added ++ vec.id ∷ [])
          (record s { index = (Index.add_vector floats vec s.index).1 })
  Adding-index vec added s h e = record {
    valid = h.valid;
    fresh = λ j c. ground (
      arith,
      contains-append j added (vec.id ∷ []),
      h.fresh j,
      h.indexed j,
      text_eq_iff vec.id j,
      (add_vector_lem floats vec s.index j).0,
    );
    indexed = λ j c. ground (
      arith,
      contains-append j added (vec.id ∷ []),
      h.indexed j,
      (add_vector_lem floats vec s.index j).1,
    );
    stored = λ j c. ground (arith, contains-append j added (vec.id ∷ []), h.stored j);
  }

  pub index_all-Indexed :
      {v : View d} (vecs : List (Vector F64)) (added : List Text) (s : Service d)
      → Adding d v added s
      → Indexed v s vecs added (index_all d vecs added s).0 (index_all d vecs added s).1
  unfolding index_all
  index_all-Indexed [] added s h = (sym (append-nil added), h, (λ j. refl), refl)
  index_all-Indexed {v} (vec ∷ vecs) added s h = elim (Bool-cases (is_blank vec.id)) [
    | inl blank ↦ rw (blank, index_all) (rollback-Holds d added s h)
    | inr named ↦ elim (Bool-cases (nat_eq (length vec.values) 0)) [
      | inl empty ↦ rw (named, empty, index_all) (rollback-Holds d added s h)
      | inr some_values ↦ elim (Bool-cases (ltb s.max_vector_dim (length vec.values))) [
        | inl high ↦ rw (named, some_values, high, index_all) (rollback-Holds d added s h)
        | inr low ↦ elim (add_vector-cases floats vec s.index) [
          | inr (taken, same) ↦
              rw (named, some_values, low, taken, index_all) (rollback-Holds d added _ (rw same h))
          | inl new ↦
              rw (named, some_values, low, new, index_all)
                (regroup new _ _ (
                  index_all-Indexed {v = v} vecs (added ++ vec.id ∷ [])
                    (record s { index = (Index.add_vector floats vec s.index).1 })
                    (Adding-index vec added s h new)))
        ]
      ]
    ]
  ]
    where
      regroup :
          (Index.add_vector floats vec s.index).0 ≡ done
          → (r : Result (List Text)) (t : Service d)
          → Indexed v
              (record s { index = (Index.add_vector floats vec s.index).1 })
              vecs
              (added ++ vec.id ∷ [])
              r
              t
          → Indexed v s (vec ∷ vecs) added r t
      regroup new (err e) t k = k
      regroup new (ok all) t k = (
        k.0 ∙ append_assoc added (vec.id ∷ []) (ids_of floats vecs),
        k.1,
        (λ j. ground (arith, k.2 j, add_vector_lem floats vec s.index j, text_eq_iff vec.id j)),
        k.3,
      )

  abbrev pub AllIn : List (Vector F64) → List Text → Type 0
  AllIn [] added = Unit
  AllIn (vec ∷ vecs) added = (contains vec.id added ≡ true) × AllIn vecs added

  pub AllIn-suffix :
      (vecs : List (Vector F64)) (front : List Text) → AllIn vecs (front ++ ids_of floats vecs)
  AllIn-suffix [] front = tt
  AllIn-suffix (vec ∷ vecs) front = (
    ground (arith, contains-append vec.id front (ids_of floats (vec ∷ vecs)), text_eq_refl vec.id),
    rw (← append_assoc front (vec.id ∷ []) (ids_of floats vecs))
        (AllIn-suffix vecs (front ++ vec.id ∷ [])),
  )

  -- One more removal of an added id changes nothing that matters.
  Adding-removed :
      {v : View d} (id : Text) (added : List Text) (s : Service d)
      → contains id added ≡ true
      → Adding d v added s
      → Adding d v added (record s {
        store = (vector_store.delete_vector id s.store).1;
        index = (Index.delete_vector floats id s.index).1;
      })
  Adding-removed id added s c h = record {
    valid = vector_store.delete-IsValid id s.store h.valid;
    fresh = h.fresh;
    indexed = λ j e.
        ground (arith, (delete_vector_lem floats id s.index j).1, h.indexed j, text_eq_iff id j);
    stored = λ j e.
        ground (arith, vector_store.view-delete id s.store j h.valid, h.stored j, text_eq_iff id j);
  }

  Adding-relink :
      {v : View d} (added : List Text) (s : Service d) (a : ann_index.State) (res : Resolver)
      → Adding d v added s
      → Adding d v added (record s { ann = a; resolver = res })
  Adding-relink added s a res h = record {
    valid = h.valid;
    fresh = h.fresh;
    indexed = h.indexed;
    stored = h.stored;
  }

  -- Between the loops: an error has been rolled back, a success is still an addition under way.
  abbrev pub Linked : View d → Service d → List Text → Result (Unit {0}) → Service d → Type 0
  Linked v s added (err e) t = Holds d v t
  Linked v s added (ok _) t =
      Adding d v added t × (t ≡ record s { ann = t.ann; resolver = t.resolver })

  pub ann_all-Linked :
      {v : View d} (vecs : List (Vector F64)) (added : List Text) (s : Service d)
      → AllIn vecs added
      → Adding d v added s
      → Linked v s added (ann_all d vecs added s).0 (ann_all d vecs added s).1
  unfolding ann_all
  ann_all-Linked [] added s c h = (h, refl)
  ann_all-Linked {v} (vec ∷ vecs) added s c h =
      let internal = (assign vec.id s.resolver).0 in
      let res = (assign vec.id s.resolver).1 in
      let a = (ann_index.add_vector internal vec.values s.ann).1 in
      elim (Result-cases (ann_index.add_vector internal vec.values s.ann).0) [
        | inl (_, e) ↦
            rw (e, ann_all)
              (ann_all-Linked {v = v} vecs added (record s { ann = a; resolver = res }) c.1
                (Adding-relink added s a res h))
        | inr (_, e) ↦
            rw (e, ann_all)
              (rollback-Holds d added _
                (Adding-relink added _ a res (Adding-removed vec.id added s c.0 h)))
      ]

  -- The batch upsert binds only added ids.
  pub Adding-upsert :
      {v : View d} (vecs : List (Vector F64)) (s : Service d)
      → Adding d v (ids_of floats vecs) s
      → Adding d v
          (ids_of floats vecs)
          (record s { store = (vector_store.upsert_vectors vecs s.store).1 })
  Adding-upsert vecs s h = record {
    valid = vector_store.upsert-IsValid vecs s.store h.valid;
    fresh = h.fresh;
    indexed = h.indexed;
    stored = λ j c. ground (
      arith,
      vector_store.view-upsert vecs s.store j h.valid,
      latest_of_absent floats j vecs,
      h.stored j,
    );
  }
