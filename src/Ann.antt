-- ===== src/Ann.antt =====
-- internal/index/ann/ann_index.go: a graph of vectors, searched from an entry point. Nodes are
-- known by their slot, an index into the list of nodes. The comparisons of float64 are false where
-- one side is NaN.
pub mod Heaps
pub mod Select
pub mod Workspace
pub mod Search
pub mod Insert
pub mod Query
pub mod Graph
pub mod Valid
pub mod Interface
use lumenvec.Base.{
  ℕ, Bool, false, not, ◌&&◌, List, [], Option, none, some, Map, ltb, leb, if◌then◌else◌, nat_eq,
}
use lumenvec.Base.Ints.{ℤ, positive_or}
use lumenvec.Base.Arrays.{get_elem?}
use lumenvec.Numeric.{Floats}
use lumenvec.Distance.{Arithmetic, sum_blocks}

pub record DistancePair (D : Type 0) : Type 0 where
  pub id : ℕ
  pub distance : D

pub record Node (F : Type 0) : Type 0 where
  pub slot : ℕ
  pub id : ℕ
  pub vector : List F
  pub neighbors : List ℕ

-- ann.Options; the seed goes to the random source.
pub record Options : Type 0 where
  pub m : ℤ
  pub ef_construction : ℤ
  pub ef_search : ℤ

-- *rand.Rand of math/rand: Intn(n), and the source after it.
pub record Random : Type 1 where
  pub Source : Type 0
  pub intn : ℕ → Source → ℕ × Source

pub record AnnIndex (F Source : Type 0) : Type 0 where
  pub nodes : List (Node F)
  pub id_to_slot : Map ℕ ℕ
  pub deleted : List Bool
  pub deleted_count : ℕ
  pub entrypoint : ℕ
  pub has_entrypoint : Bool
  pub dim : ℕ
  pub m : ℕ
  pub ef_construction : ℕ
  pub ef_search : ℕ
  pub rnd : Source

unfoldable pub new_ann_index_with_options :
    {F Source : Type 0} → Options → Source → AnnIndex F Source
new_ann_index_with_options opts rnd = record {
  nodes = [];
  id_to_slot = [];
  deleted = [];
  deleted_count = 0;
  entrypoint = 0;
  has_entrypoint = false;
  dim = 0;
  m = positive_or opts.m 16;
  ef_construction = positive_or opts.ef_construction 64;
  ef_search = positive_or opts.ef_search 64;
  rnd = rnd;
}

module _ (fl : Floats) (ar : Arithmetic fl) where
  open fl use {F64, F32}
  open ar use {is_nan, rank, zero64}

  abbrev pub lt64 : F64 → F64 → Bool
  lt64 a b = not (is_nan a) && (not (is_nan b) && ltb (rank a) (rank b))

  abbrev pub le64 : F64 → F64 → Bool
  le64 a b = not (is_nan a) && (not (is_nan b) && leb (rank a) (rank b))

  -- squaredDistance32; none is an index out of range, where Go panics
  unfoldable pub squared_distance32 : List F32 → List F32 → Option F64
  squared_distance32 a b = sum_blocks fl ar zero64 a b

  -- The distance of a query to the vector in a slot.
  unfoldable pub distance_to : List (Node F32) → List F32 → ℕ → Option F64
  distance_to nodes query slot = elim (get_elem? nodes slot) [
    | none ↦ none
    | some n ↦ squared_distance32 query n.vector
  ]
