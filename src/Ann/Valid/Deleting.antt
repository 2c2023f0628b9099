-- ===== src/Ann/Valid/Deleting.antt =====
-- DeleteVector of the ANN index.
use lumenvec.Base.{
  ℕ, ◌≡◌, refl, sym, ap, ◌∙◌, none, some, length, nat_eq, nat_eq_iff, arith, Bool-cases,
  Option-cases, inl, inr, ℕ-Eq, lookup, if◌then◌else◌,
}
use lumenvec.Numeric.{Floats}
use lumenvec.Distance.{Arithmetic}
use lumenvec.Ann.{Random}
use lumenvec.Ann.Insert.{Ann, delete_vector}
use lumenvec.Ann.Valid.{IsValid, view}
use lumenvec.Ann.Valid.Replacing.{delete-Patched}

module _ (fl : Floats) (ar : Arithmetic fl) (rd : Random) where
  -- What DeleteVector leaves: no panic, a valid index, and the map without the id.
  abbrev pub Deleted : ℕ → Ann fl ar rd → Type 0
  Deleted id a =
      (a' : Ann fl ar rd) × (delete_vector fl ar rd id a ≡ some a')
      × IsValid fl ar rd a'
      × ((j : ℕ) → view fl ar rd a' j ≡ (if nat_eq id j then none else view fl ar rd a j))
      × (a'.dim ≡ a.dim)
      × (length a'.nodes ≡ length a.nodes)

  -- DeleteVector, on a valid index, does not panic and leaves a valid index with as many nodes and
  -- the same dimension, in which the id has no vector and every other id keeps what it has.
  pub delete_vector-IsValid : (id : ℕ) (a : Ann fl ar rd) → IsValid fl ar rd a → Deleted id a
  unfolding delete_vector
  delete_vector-IsValid id a h = elim (Option-cases (lookup id a.id_to_slot)) [
    | inl missing ↦ (
      a,
      rw (missing, delete_vector) refl,
      h,
      λ j. elim (Bool-cases (nat_eq id j)) [
        | inl same ↦
            let gone : lookup j a.id_to_slot ≡ none =
              ap (λ (x : ℕ). lookup x a.id_to_slot) (sym ((nat_eq_iff id j).0 same)) ∙ missing in
            rw (same, gone) refl
        | inr other ↦ rw other refl
      ],
      refl,
      refl,
    )
    | inr (slot, found) ↦
        let (a', same, body, seen, has, entry, dim, size) =
          delete-Patched fl ar rd a id slot h.body found in
        (
          a',
          same,
          record {
            body = body;
            entered = λ e. omega (arith, entry, size, h.entered (sym has ∙ e));
            empty = λ e. size ∙ h.empty (sym has ∙ e);
          },
          seen,
          dim,
          size,
        )
  ]
