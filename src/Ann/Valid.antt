-- ===== src/Ann/Valid.antt =====
-- The state of an ANN index, and the finite map that it stands for.
pub mod Appending
pub mod Replacing
pub mod Putting
pub mod Adding
pub mod Deleting
pub mod Live
pub mod Answers
pub mod Ids
pub mod Nearest
pub mod Searching
use lumenvec.Base.{
  ℕ, ◌+◌, ◌-◌, ◌≤◌, ◌<◌, ◌≡◌, refl, sym, ap, ◌∙◌, Bool, true, false, List, [], ◌∷◌, ◌++◌, Option,
  none, some, length, length-append, leb, nat_eq, nat_eq_iff, arith, Bool-cases, Option-cases, inl,
  inr, Map, ℕ-Eq, lookup, insert, lookup-insert, if◌then◌else◌,
}
use lumenvec.Base.Arrays.{
  get_elem?, get_elem-some, get_elem-set, set, count, count-append, count-set, length-set,
}
use lumenvec.Base.Bags.{Each, Each-append, get_elem-lt, get_elem-concat, some_injective}
use lumenvec.Numeric.{Floats}
use lumenvec.Distance.{Arithmetic}
use lumenvec.Ann.{Node, Random, AnnIndex}
use lumenvec.Ann.Insert.{Ann, replace_vector, append_node, delete_vector}
use lumenvec.Ann.Query.{is_deleted}
use lumenvec.Ann.Graph.{IsLinks, IsNode, IsGraph, core, core_at, SameCores, set-IsGraph, Any}

module _ (fl : Floats) (ar : Arithmetic fl) (rd : Random) where
  open fl use {F32}

  -- All but the entry point: a flag for each node, the count of the flags that are set, a graph, and
  -- ids and slots that determine each other.
  pub record IsBody (a : Ann fl ar rd) : Type 0 where
    pub flags : length a.deleted ≡ length a.nodes
    pub counted : a.deleted_count ≡ count (λ gone. gone) a.deleted
    pub graph : IsGraph (length a.nodes) a.dim a.m Any a.nodes
    pub known :
        (id slot : ℕ)
        → lookup id a.id_to_slot ≡ some slot
        → (v : List F32) × (core_at a.nodes slot ≡ some (id, v))
    pub named :
        (slot id : ℕ) (v : List F32)
        → core_at a.nodes slot ≡ some (id, v)
        → lookup id a.id_to_slot ≡ some slot
    pub typed : a.dim ≡ 0 → length a.nodes ≡ 0
    pub construction : 0 < a.ef_construction
    pub searching : 0 < a.ef_search

  -- The entry point is a slot, where there are nodes.
  pub record IsValid (a : Ann fl ar rd) : Type 0 where
    pub body : IsBody a
    pub entered : a.has_entrypoint ≡ true → a.entrypoint < length a.nodes
    pub empty : a.has_entrypoint ≡ false → length a.nodes ≡ 0

  abbrev pub vector_of : Option (ℕ × List F32) → Option (List F32)
  vector_of none = none
  vector_of (some (_, v)) = some v

  abbrev pub live_at : List Bool → List (Node F32) → Option ℕ → Option (List F32)
  live_at deleted nodes none = none
  live_at deleted nodes (some slot) =
      if is_deleted (get_elem? deleted slot) then none else vector_of (core_at nodes slot)

  -- The vector under an id, if it is not marked as deleted.
  abbrev pub view : Ann fl ar rd → ℕ → Option (List F32)
  view a id = live_at a.deleted a.nodes (lookup id a.id_to_slot)

  pub core-node :
      (nodes : List (Node F32)) (slot id : ℕ) (v : List F32)
      → core_at nodes slot ≡ some (id, v)
      → (n : Node F32) × (get_elem? nodes slot ≡ some n) × (n.id ≡ id) × (n.vector ≡ v)
  core-node nodes slot id v h = elim (Option-cases (get_elem? nodes slot)) [
    | inl out ↦ absurd (ground (arith, ap core out))
    | inr (n, at) ↦
        let same : (n.id, n.vector) ≡ (id, v) = some_injective (sym (ap core at) ∙ h) in
        (n, at, ap (λ (p : ℕ × List F32). p.0) same, ap (λ (p : ℕ × List F32). p.1) same)
  ]

  -- The state with other links between the same vectors.
  pub relinked-IsBody :
      (a : Ann fl ar rd) (nodes : List (Node F32)) (entry : ℕ) (rnd : rd.Source)
      → IsBody a
      → IsGraph (length a.nodes) a.dim a.m Any nodes
      → SameCores a.nodes nodes
      → IsBody (record a { nodes = nodes; entrypoint = entry; rnd = rnd })
  relinked-IsBody a nodes entry rnd h g same = record {
    flags = h.flags ∙ sym g.size;
    counted = h.counted;
    graph = rw g.size g;
    known = λ id slot e. let (v, at) = h.known id slot e in (v, same slot ∙ at);
    named = λ slot id v at. h.named slot id v (sym (same slot) ∙ at);
    typed = λ e. g.size ∙ h.typed e;
    construction = h.construction;
    searching = h.searching;
  }

  pub relinked-live_at :
      (deleted : List Bool) (old new : List (Node F32)) (o : Option ℕ)
      → SameCores old new
      → live_at deleted new o ≡ live_at deleted old o
  relinked-live_at deleted old new none same = refl
  relinked-live_at deleted old new (some slot) same =
      ap (λ c. if is_deleted (get_elem? deleted slot) then none else vector_of c) (same slot)
