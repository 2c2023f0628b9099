-- ===== src/Ann/Valid/Answers.antt =====
-- The answers to a query, and the ids and distances that they are made of.
use lumenvec.Base.{
  ℕ, zero, suc, ◌≤◌, ◌<◌, ◌⊎◌, true, ◌≡◌, refl, sym, ap, ◌∙◌, inl, inr, false, List, [], ◌∷◌, none,
  some, length, nat_eq, nat_eq_iff, arith, All, Bool-cases, ℕ-Eq, lookup,
}
use lumenvec.Base.Arrays.{get_elem?, count}
use lumenvec.Base.Bags.{some_injective}
use lumenvec.Numeric.{Floats}
use lumenvec.Distance.{Arithmetic}
use lumenvec.Ann.{DistancePair, Node, Random, distance_to, squared_distance32}
use lumenvec.Ann.Select.Sorted.{key}
use lumenvec.Ann.Select.Nearest.{IsWithin}
use lumenvec.Ann.Search.Progress.{Right, holds}
use lumenvec.Ann.Search.Loop.{right-node}
use lumenvec.Ann.Search.Candidates.{Reach}
use lumenvec.Ann.Insert.{Ann}
use lumenvec.Ann.Query.{AnnResult, is_deleted, to_results}
use lumenvec.Ann.Graph.{core, core_at}
use lumenvec.Ann.Valid.{IsBody, view}

module _ (fl : Floats) (ar : Arithmetic fl) (rd : Random) where
  open fl use {F32, F64}

  -- A result is an id with a vector, under its distance to the query.
  abbrev pub IsAnswer : Ann fl ar rd → List F32 → AnnResult F64 → Type 0
  IsAnswer a query r =
      (v : List F32) × (view fl ar rd a r.id ≡ some v)
      × (squared_distance32 fl ar query v ≡ some r.distance)

  -- No vector has a distance to the query that is NaN.
  abbrev pub IsNumbered : Ann fl ar rd → List F32 → Type 0
  IsNumbered a query =
      (id : ℕ) (v : List F32) (dist : F64)
      → view fl ar rd a id ≡ some v
      → squared_distance32 fl ar query v ≡ some dist
      → ar.is_nan dist ≡ false

  abbrev pub rank_at : List (AnnResult F64) → ℕ → ℕ
  rank_at rs i = elim (get_elem? rs i) [ none ↦ 0 | some r ↦ ar.rank r.distance ]

  order-cons :
      (r : AnnResult F64) (c : DistancePair F64)
      → r.distance ≡ c.distance
      → (rs : List (AnnResult F64)) (cs : List (DistancePair F64))
      → ((i : ℕ) → rank_at rs i ≡ key ar.rank cs i)
      → (i : ℕ) → rank_at (r ∷ rs) i ≡ key ar.rank (c ∷ cs) i
  order-cons r c same rs cs rest zero = ap ar.rank same
  order-cons r c same rs cs rest (suc i) = rest i

  module _ (a : Ann fl ar rd) (query : List F32) (ef : ℕ) (h : IsBody fl ar rd a) where
    abbrev pub Shown : DistancePair F64 → Type 0
    Shown c = Right fl ar a.nodes query ef c × (is_deleted (get_elem? a.deleted c.id) ≡ false)

    Shown-IsAnswer :
        (c : DistancePair F64) (n : Node F32)
        → Shown c
        → get_elem? a.nodes c.id ≡ some n
        → IsAnswer a query (record { id = n.id; distance = c.distance })
    unfolding distance_to
    Shown-IsAnswer c n (right, live) at =
        let found = h.named c.id n.id n.vector (ap core at) in
        (n.vector, rw (found, live, at) refl, rw (at, distance_to) at right)

    -- An id is that of a node where its slot is that of the node.
    same-test :
        (id slot : ℕ) (c : ℕ) (n : Node F32)
        → lookup id a.id_to_slot ≡ some slot
        → get_elem? a.nodes c ≡ some n
        → nat_eq id n.id ≡ nat_eq slot c
    same-test id slot c n found at =
        let named = h.named c n.id n.vector (ap core at) in
        elim (Bool-cases (nat_eq id n.id)) [
          | inl same ↦
              let e : slot ≡ c = some_injective (
                sym found
                ∙ ap (λ (x : ℕ). lookup x a.id_to_slot) ((nat_eq_iff id n.id).0 same)
                ∙ named) in
              same ∙ sym ((nat_eq_iff slot c).1 e)
          | inr other ↦ elim (Bool-cases (nat_eq slot c)) [
            | inr apart ↦ other ∙ sym apart
            | inl same ↦
                let (v, here) = h.known id slot found in
                let e : (id, v) ≡ (n.id, n.vector) = some_injective (
                  sym here
                  ∙ ap (λ (x : ℕ). core_at a.nodes x) ((nat_eq_iff slot c).0 same)
                  ∙ ap core at) in
                absurd (ground (arith, other, ap (λ (p : ℕ × List F32). p.0) e))
          ]
        ]

    -- The results of the candidates, in their order.
    pub record Named (cs : List (DistancePair F64)) (rs : List (AnnResult F64)) : Type 0 where
      pub answers : All (IsAnswer a query) rs
      pub size : length rs ≡ length cs
      pub counts :
          (id slot : ℕ)
          → lookup id a.id_to_slot ≡ some slot
          → count (λ r. nat_eq id r.id) rs ≡ count (holds slot) cs
      pub absent : (id : ℕ) → lookup id a.id_to_slot ≡ none → count (λ r. nat_eq id r.id) rs ≡ 0
      pub order : (i : ℕ) → rank_at rs i ≡ key ar.rank cs i
      pub bound : (b : ℕ) → All (IsWithin ar.rank b) cs → All (λ r. ar.rank r.distance ≤ b) rs

    pub to_results-Named :
        (cs : List (DistancePair F64))
        → All Shown cs
        → (rs : List (AnnResult F64)) × (to_results fl ar rd a.nodes cs ≡ some rs) × Named cs rs
    unfolding to_results
    to_results-Named [] shown = (
      [],
      refl,
      record {
        answers = tt;
        size = refl;
        counts = λ id slot e. refl;
        absent = λ id e. refl;
        order = λ i. refl;
        bound = λ b h. tt;
      },
    )
    to_results-Named (c ∷ cs) (first, shown) =
        let (n, at) = right-node fl ar a.nodes query ef c.id c.distance first.0 in
        let (rs, same, rest) = to_results-Named cs shown in
        let named = h.named c.id n.id n.vector (ap core at) in
        (
          record { id = n.id; distance = c.distance } ∷ rs,
          rw (at, to_results, same) refl,
          record {
            answers = (Shown-IsAnswer c n first at, rest.answers);
            size = ap suc rest.size;
            counts = λ id slot e.
                rw (same-test id slot c.id n e at) (omega (arith, rest.counts id slot e));
            absent = λ id e. elim (Bool-cases (nat_eq id n.id)) [
              | inr other ↦ rw other (omega (arith, rest.absent id e))
              | inl same ↦
                  let clash = ap (λ (x : ℕ). lookup x a.id_to_slot) ((nat_eq_iff id n.id).0 same) in
                  absurd (ground (arith, e, clash, named))
            ];
            order =
                order-cons (record { id = n.id; distance = c.distance }) c refl rs cs rest.order;
            bound = λ b within. (within.0, rest.bound b within.1);
          },
        )

    -- The distance of a candidate is a number, where all distances are.
    pub Shown-number :
        IsNumbered a query → (c : DistancePair F64) → Shown c → ar.is_nan c.distance ≡ false
    Shown-number numbered c shown =
        let (n, at) = right-node fl ar a.nodes query ef c.id c.distance shown.0 in
        let (v, seen, dist) = Shown-IsAnswer c n shown at in numbered n.id v c.distance seen dist

    -- A candidate in the slot of an id stands under the distance of its vector.
    pub Shown-distance :
        (id slot : ℕ) (v : List F32) (dist : F64) (c : DistancePair F64)
        → lookup id a.id_to_slot ≡ some slot
        → view fl ar rd a id ≡ some v
        → squared_distance32 fl ar query v ≡ some dist
        → Shown c
        → holds slot c ≡ true
        → c.distance ≡ dist
    Shown-distance id slot v dist c found seen measured shown here =
        let (n, at) = right-node fl ar a.nodes query ef c.id c.distance shown.0 in
        let (u, there, measured') = Shown-IsAnswer c n shown at in
        let same : n.id ≡ id =
          sym ((nat_eq_iff id n.id).0 (same-test id slot c.id n found at ∙ here)) in
        let vectors : u ≡ v =
          some_injective (sym there ∙ ap (λ (x : ℕ). view fl ar rd a x) same ∙ seen) in
        some_injective (
          sym measured'
          ∙ ap (λ (x : List F32). squared_distance32 fl ar query x) vectors
          ∙ measured)

  -- The answers to a query: ids with a vector, each once, under their distances, at most `k`. Where
  -- the breadth of the search and `k` are at least the number of nodes, every id with a vector in a
  -- slot that links lead to from the entry point is among them. Where no distance is NaN, they are
  -- nearest first, and where the breadth is at least the number of nodes, such an id that is not
  -- among them is at least as far as each of the `k` that are.
  pub record Answers (a : Ann fl ar rd) (query : List F32) (k : ℕ) (rs : List (AnnResult F64))
      : Type 0 where
    pub answers : All (IsAnswer a query) rs
    pub once : (id : ℕ) → count (λ r. nat_eq id r.id) rs ≤ 1
    pub size : length rs ≤ k
    pub complete :
        length a.nodes ≤ a.ef_search
        → length a.nodes ≤ k
        → (id slot : ℕ) (v : List F32) → lookup id a.id_to_slot ≡ some slot
        → view fl ar rd a id ≡ some v
        → Reach fl ar a.nodes query a.ef_search a.entrypoint slot
        → count (λ r. nat_eq id r.id) rs ≡ 1
    pub sorted :
        IsNumbered a query → (i j : ℕ) → i < j → j < length rs → rank_at rs i ≤ rank_at rs j
    pub nearest :
        IsNumbered a query
        → length a.nodes ≤ a.ef_search
        → (id slot : ℕ) (v : List F32) (dist : F64) → lookup id a.id_to_slot ≡ some slot
        → view fl ar rd a id ≡ some v
        → squared_distance32 fl ar query v ≡ some dist
        → Reach fl ar a.nodes query a.ef_search a.entrypoint slot
        → (count (λ r. nat_eq id r.id) rs ≡ 1)
          ⊎ ((length rs ≡ k) × All (λ r. ar.rank r.distance ≤ ar.rank dist) rs)
