-- ===== src/AnnInterface.antt =====
-- What the service uses of *ann.AnnIndex (internal/index/ann/ann_index.go). The first vector of an
-- index fixes its dimension; a vector that has it is accepted.
use lumenvec.Base.{ℕ, ◌<◌, ◌≡◌, ◌⊎◌, List, length, Result, done}
use lumenvec.Numeric.{Floats}

pub record AnnIndex (fl : Floats) : Type 1 where
  pub State : Type 0
  pub new : State
  pub add_vector : ℕ → List fl.F64 → State → Result (Unit {0}) × State
  pub delete_vector : ℕ → State → State
  pub nodes : State → ℕ
  pub deleted : State → ℕ
  pub dim : State → ℕ
  pub dim-new : dim new ≡ 0
  pub add-fits :
      (id : ℕ) (v : List fl.F64) (s : State)
      → 0 < length v
      → (dim s ≡ 0) ⊎ (dim s ≡ length v)
      → ((add_vector id v s).0 ≡ done) × (dim (add_vector id v s).1 ≡ length v)
