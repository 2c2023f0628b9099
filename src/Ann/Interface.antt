-- ===== src/Ann/Interface.antt =====
-- The index of internal/index/ann/ann_index.go as the service's ANN index.
use lumenvec.Base.{
  ℕ, zero, suc, ◌<◌, ◌≡◌, refl, ◌⊎◌, inl, inr, List, length, arith, ℕ-Eq, lookup, Result, done,
}
use lumenvec.Base.Ints.{ℤ, pos, negsuc, positive_or}
use lumenvec.Numeric.{Floats}
use lumenvec.Distance.{Arithmetic}
use lumenvec.AnnInterface
use lumenvec.Ann.{Random, Options, new_ann_index_with_options}
use lumenvec.Ann.Workspace.{Workspace, new_workspace}
use lumenvec.Ann.Workspace.Epochs.{IsUsed}
use lumenvec.Ann.Insert.{Ann}
use lumenvec.Ann.Query.{stats}
use lumenvec.Ann.Valid.{IsValid}
use lumenvec.Ann.Valid.Adding.{add_vector-IsValid}
use lumenvec.Ann.Valid.Deleting.{delete_vector-IsValid}

positive_or-pos : (v : ℤ) (d : ℕ) → 0 < d → 0 < positive_or v d
positive_or-pos (pos zero) d h = h
positive_or-pos (pos (suc n)) d h = omega arith
positive_or-pos (negsuc n) d h = h

module _ (fl : Floats) (ar : Arithmetic fl) (rd : Random) where
  open fl use {F64}

  pub new-IsValid :
      (opts : Options) (rnd : rd.Source) → IsValid fl ar rd (new_ann_index_with_options opts rnd)
  unfolding new_ann_index_with_options lookup
  new-IsValid opts rnd = record {
    body = record {
      flags = refl;
      counted = refl;
      graph = record {
        size = refl;
        node = λ i n at. absurd (ground arith);
        short = λ i n at. absurd (ground arith);
      };
      known = λ id slot e. absurd (ground arith);
      named = λ slot id v e. absurd (ground arith);
      typed = λ e. refl;
      construction = positive_or-pos opts.ef_construction 64 (omega arith);
      searching = positive_or-pos opts.ef_search 64 (omega arith);
    };
    entered = λ e. absurd (ground arith);
    empty = λ e. refl;
  }

  -- A valid index with a workspace for its next search.
  pub record State : Type 0 where
    pub index : Ann fl ar rd
    pub ws : Workspace
    pub valid : IsValid fl ar rd index
    pub used : IsUsed (length index.nodes) ws

  pub new_state : Options → rd.Source → State
  new_state opts rnd = record {
    index = new_ann_index_with_options opts rnd;
    ws = new_workspace;
    valid = new-IsValid opts rnd;
    used = record { size = omega arith; old = tt; fits = omega arith };
  }

  pub add_to : ℕ → List F64 → State → Result (Unit {0}) × State
  add_to id v s =
      let (r, a, ws, _, valid, used, _) =
        add_vector-IsValid fl ar rd id v s.index s.ws s.valid s.used in
      (r, record { index = a; ws = ws; valid = valid; used = used })

  delete_from : ℕ → State → State
  delete_from id s =
      let (a, _, valid, _, _, size) = delete_vector-IsValid fl ar rd id s.index s.valid in
      record { index = a; ws = s.ws; valid = valid; used = rw size s.used }

  new_state-dim : (opts : Options) (rnd : rd.Source) → (new_state opts rnd).index.dim ≡ 0
  unfolding new_state new_ann_index_with_options
  new_state-dim opts rnd = refl

  add_to-takes :
      (id : ℕ) (v : List F64) (s : State)
      → 0 < length v
      → (s.index.dim ≡ 0) ⊎ (s.index.dim ≡ length v)
      → ((add_to id v s).0 ≡ done) × ((add_to id v s).1.index.dim ≡ length v)
  unfolding add_to
  add_to-takes id v s positive which =
      let (r, a, ws, same, valid, used, outcome) =
        add_vector-IsValid fl ar rd id v s.index s.ws s.valid s.used in
      elim outcome [
        | inl (takes, ok_so, dim, _) ↦ (ok_so, dim)
        | inr (refused, _, _, _) ↦ absurd (refused (positive, which))
      ]

  -- The laws that the service relies on hold of the index.
  pub ann_index : Options → rd.Source → AnnInterface.AnnIndex fl
  ann_index opts rnd = record {
    State = State;
    new = new_state opts rnd;
    add_vector = add_to;
    delete_vector = delete_from;
    nodes = λ s. (stats fl ar rd s.index).nodes;
    deleted = λ s. (stats fl ar rd s.index).deleted;
    dim = λ s. s.index.dim;
    dim-new = new_state-dim opts rnd;
    add-fits = add_to-takes;
  }
