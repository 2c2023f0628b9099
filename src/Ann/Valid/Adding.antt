-- ===== src/Ann/Valid/Adding.antt =====
-- AddVector of the ANN index.
use lumenvec.Base.{
  ℕ, ◌<◌, ◌≡◌, refl, sym, ◌∙◌, ◌⊎◌, inl, inr, List, some, length, nat_eq, arith, Bool-cases, ℕ-Eq,
  Result, err, done, invalid_vector_dim, if◌then◌else◌,
}
use lumenvec.Base.Bags.{get_elem-lt}
use lumenvec.Numeric.{Floats, to_float32, length-to_float32}
use lumenvec.Distance.{Arithmetic}
use lumenvec.Ann.{Random}
use lumenvec.Ann.Workspace.{Workspace}
use lumenvec.Ann.Workspace.Epochs.{IsUsed}
use lumenvec.Ann.Insert.{Ann, with_dim, add_vector}
use lumenvec.Ann.Valid.{IsValid, view}
use lumenvec.Ann.Valid.Putting.{put_vector-Put}

module _ (fl : Floats) (ar : Arithmetic fl) (rd : Random) where
  open fl use {F32, F64}

  -- Another dimension, where no vector has the old one.
  redim-IsValid :
      (a : Ann fl ar rd) (dim : ℕ)
      → IsValid fl ar rd a
      → 0 < dim
      → (dim ≡ a.dim) ⊎ (length a.nodes ≡ 0)
      → IsValid fl ar rd (record a { dim = dim })
  redim-IsValid a dim h positive which = record {
    body = record {
      flags = h.body.flags;
      counted = h.body.counted;
      graph = elim which [
        | inl same ↦ rw same h.body.graph
        | inr none_yet ↦ record {
          size = refl;
          node = λ i n at. absurd (omega (arith, get_elem-lt a.nodes i at));
          short = h.body.graph.short;
        }
      ];
      known = h.body.known;
      named = h.body.named;
      typed = λ e. absurd (omega arith);
      construction = h.body.construction;
      searching = h.body.searching;
    };
    entered = h.entered;
    empty = h.empty;
  }

  -- Whether AddVector takes a vector of this length.
  abbrev pub Takes : ℕ → ℕ → Type 0
  Takes dim n = (0 < n) × ((dim ≡ 0) ⊎ (dim ≡ n))

  -- What AddVector leaves: no panic, a valid index and a workspace to use again; either the vector
  -- under its id and all else as before, or an error and all as before.
  abbrev pub Added : ℕ → List F64 → Ann fl ar rd → Workspace → Type 0
  Added id vector a ws =
      (r : Result (Unit {0})) × (a' : Ann fl ar rd) × (ws' : Workspace) × (add_vector fl ar rd id
          vector a ws
        ≡ some (r, a', ws'))
      × IsValid fl ar rd a'
      × IsUsed (length a'.nodes) ws'
      × ((Takes a.dim (length vector)
            × (r ≡ done)
            × (a'.dim ≡ length vector)
            × ((j : ℕ)
                → view fl ar rd a' j
                  ≡ (if nat_eq id j then some (to_float32 fl vector) else view fl ar rd a j)))
          ⊎ ((Takes a.dim (length vector) → ⊥)
              × (r ≡ err invalid_vector_dim)
              × (a'.dim ≡ a.dim)
              × ((j : ℕ) → view fl ar rd a' j ≡ view fl ar rd a j)))

  -- AddVector, on a valid index and with a workspace that earlier searches used, does not panic and
  -- leaves a valid index and such a workspace. Where the vector is not empty and has the dimension
  -- of the index, if that is fixed, its id then has the vector as float32, and it fixes the
  -- dimension; every other id keeps what it has. Otherwise an error is returned, and all ids keep
  -- what they have.
  pub add_vector-IsValid :
      (id : ℕ) (vector : List F64) (a : Ann fl ar rd) (ws : Workspace)
      → IsValid fl ar rd a
      → IsUsed (length a.nodes) ws
      → Added id vector a ws
  unfolding add_vector
  add_vector-IsValid id vector a ws h used =
      let n = length vector in
      let vec = to_float32 fl vector in
      let sized = with_dim fl ar rd n a in
      elim (Bool-cases (nat_eq n 0)) [
        | inl empty ↦ (
          err invalid_vector_dim,
          a,
          ws,
          rw empty refl,
          h,
          used,
          inr (λ takes. absurd (ground (arith, takes.0)), refl, refl, λ j. refl),
        )
        | inr some_values ↦ elim (Bool-cases (nat_eq n sized.dim)) [
          | inr other ↦
              let same : sized.dim ≡ a.dim = ground arith in
              (
                err invalid_vector_dim,
                sized,
                ws,
                rw (some_values, other) refl,
                redim-IsValid a sized.dim h (ground arith) (inl same),
                used,
                inr (λ takes. absurd (ground (arith, takes.1)), refl, same, λ j. refl),
              )
          | inl fits ↦
              let whole : sized.dim ≡ n = ground arith in
              let which : (sized.dim ≡ a.dim) ⊎ (length a.nodes ≡ 0) =
                elim (Bool-cases (nat_eq a.dim 0)) [
                  | inl unset ↦ inr (h.body.typed (ground arith))
                  | inr set ↦ inl (ground arith)
                ] in
              let (a', ws', same, valid, used', seen, dim) =
                put_vector-Put fl ar rd id vec sized ws
                  (redim-IsValid a sized.dim h (ground arith) which)
                  (length-to_float32 fl vector ∙ sym whole) (ground arith) used in
              (
                done,
                a',
                ws',
                rw (some_values, fits, same) refl,
                valid,
                used',
                inl ((ground arith, ground arith), refl, dim ∙ whole, seen),
              )
        ]
      ]
