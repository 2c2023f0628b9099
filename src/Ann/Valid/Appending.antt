-- ===== src/Ann/Valid/Appending.antt =====
-- A new node with its slot, its flag and its vector.
use lumenvec.Base.{
  ℕ, ◌+◌, ◌≤◌, ◌<◌, ◌≡◌, refl, sym, ap, ◌∙◌, false, List, [], ◌∷◌, ◌++◌, none, some, length,
  length-append, leb, nat_eq, nat_eq_iff, arith, Bool-cases, Option-cases, inl, inr, ℕ-Eq, lookup,
  insert, lookup-insert, if◌then◌else◌,
}
use lumenvec.Base.Arrays.{get_elem?, count, count-append}
use lumenvec.Base.Bags.{Each-append, get_elem-lt, get_elem-concat, some_injective}
use lumenvec.Numeric.{Floats}
use lumenvec.Distance.{Arithmetic}
use lumenvec.Ann.{Node, Random}
use lumenvec.Ann.Insert.{Ann, append_node}
use lumenvec.Ann.Query.{is_deleted}
use lumenvec.Ann.Graph.{IsLinks, IsNode, IsGraph, core, core_at, Any}
use lumenvec.Ann.Valid.{IsBody, core-node, vector_of, view}

module _ (fl : Floats) (ar : Arithmetic fl) (rd : Random) where
  open fl use {F32}

  module _ (a : Ann fl ar rd) (id : ℕ) (vec : List F32) (h : IsBody fl ar rd a)
      (new : lookup id a.id_to_slot ≡ none) (fits : length vec ≡ a.dim) (sized : 0 < a.dim) where
    abbrev added : Node F32
    added = record { slot = length a.nodes; id = id; vector = vec; neighbors = [] }

    concat-core :
        (slot : ℕ)
        → core_at (a.nodes ++ added ∷ []) slot
          ≡ (if nat_eq slot (length a.nodes) then some (id, vec) else core_at a.nodes slot)
    concat-core slot = ap core (get_elem-concat a.nodes added slot) ∙ ground arith

    wider-IsLinks :
        (slot : ℕ) (links : List ℕ)
        → IsLinks (length a.nodes) slot links
        → IsLinks (length a.nodes + 1) slot links
    wider-IsLinks slot links l = record {
      inside = wider links l.inside;
      apart = l.apart;
      once = l.once;
    }
      where
        wider :
            (xs : List ℕ)
            → count (leb (length a.nodes)) xs ≡ 0
            → count (leb (length a.nodes + 1)) xs ≡ 0
        wider [] e = refl
        wider (x ∷ xs) e = ground (arith, wider xs)

    append-IsGraph : IsGraph (length a.nodes + 1) a.dim a.m Any (a.nodes ++ added ∷ [])
    append-IsGraph = record {
      size = length-append a.nodes (added ∷ []);
      node =
          Each-append (IsNode (length a.nodes + 1) a.dim) a.nodes added
            (λ slot n at.
              let old = h.graph.node slot n at in
              record {
                place = old.place;
                size = old.size;
                links = wider-IsLinks slot n.neighbors old.links;
              })
            (record {
              place = refl;
              size = fits;
              links = record { inside = refl; apart = refl; once = λ v. omega arith };
            });
      short =
          Each-append (λ slot n. Any slot → length n.neighbors ≤ a.m) a.nodes added h.graph.short
            (λ tight. omega arith);
    }

    append-known :
        (j slot : ℕ)
        → lookup j (insert id (length a.nodes) a.id_to_slot) ≡ some slot
        → (v : List F32) × (core_at (a.nodes ++ added ∷ []) slot ≡ some (j, v))
    append-known j slot e =
        let found = sym (lookup-insert id j (length a.nodes) a.id_to_slot) ∙ e in
        elim (Bool-cases (nat_eq id j)) [
          | inl same ↦
              let last : length a.nodes ≡ slot = some_injective (rw same at found) in
              (
                vec,
                concat-core slot
                    ∙ rw (sym last) (
                        ground (
                          arith,
                          ap {B = ℕ × List F32} (λ (i : ℕ). (i, vec)) ((nat_eq_iff id j).0 same),
                        )),
              )
          | inr other ↦
              let (v, at) = h.known j slot (rw other at found) in
              let (n, here, _, _) = core-node fl ar rd a.nodes slot j v at in
              (v, concat-core slot ∙ ground (arith, get_elem-lt a.nodes slot here, at))
        ]

    append-named :
        (slot j : ℕ) (v : List F32)
        → core_at (a.nodes ++ added ∷ []) slot ≡ some (j, v)
        → lookup j (insert id (length a.nodes) a.id_to_slot) ≡ some slot
    append-named slot j v at =
        let found = sym (concat-core slot) ∙ at in
        lookup-insert id j (length a.nodes) a.id_to_slot
        ∙ elim (Bool-cases (nat_eq slot (length a.nodes))) [
          | inl last ↦
              let same : (id, vec) ≡ (j, v) = some_injective (rw last at found) in
              ground (arith, ap (λ (p : ℕ × List F32). p.0) same)
          | inr early ↦
              let old = h.named slot j v (rw early at found) in
              elim (Bool-cases (nat_eq id j)) [
                | inr other ↦ rw other old
                | inl same ↦ absurd (
                    ground (
                      arith,
                      old,
                      new,
                      ap (λ (i : ℕ). lookup i a.id_to_slot) ((nat_eq_iff id j).0 same),
                    ))
              ]
        ]

    pub append-IsBody : IsBody fl ar rd (append_node fl ar rd id vec a)
    unfolding append_node
    append-IsBody =
        let size = length-append a.nodes (added ∷ []) in
        record {
          flags = omega (arith, size, length-append a.deleted (false ∷ []), h.flags);
          counted = omega (arith, count-append (λ gone. gone) a.deleted (false ∷ []), h.counted);
          graph = rw size append-IsGraph;
          known = append-known;
          named = append-named;
          typed = λ e. absurd (omega arith);
          construction = h.construction;
          searching = h.searching;
        }

    -- The map with the new vector.
    pub view-append :
        (j : ℕ)
        → view fl ar rd (append_node fl ar rd id vec a) j
          ≡ (if nat_eq id j then some vec else view fl ar rd a j)
    unfolding append_node
    view-append j =
        let L = length a.nodes in
        rw (lookup-insert id j L a.id_to_slot) (elim (Bool-cases (nat_eq id j)) [
          | inl same ↦
              let flag : is_deleted (get_elem? (a.deleted ++ false ∷ []) L) ≡ false =
                ap is_deleted (get_elem-concat a.deleted false L) ∙ ground (arith, h.flags) in
              let here : vector_of fl ar rd (core_at (a.nodes ++ added ∷ []) L) ≡ some vec =
                ap (vector_of fl ar rd) (concat-core L) ∙ ground arith in
              rw (same, flag) here
          | inr other ↦ elim (Option-cases (lookup j a.id_to_slot)) [
            | inl missing ↦ rw (other, missing) refl
            | inr (slot, found) ↦
                let (v, at) = h.known j slot found in
                let (n, here, _, _) = core-node fl ar rd a.nodes slot j v at in
                let inside : slot < L = get_elem-lt a.nodes slot here in
                let flag : is_deleted (get_elem? (a.deleted ++ false ∷ []) slot)
                    ≡ is_deleted (get_elem? a.deleted slot) =
                  ap is_deleted (get_elem-concat a.deleted false slot) ∙ ground (arith, h.flags) in
                let kept : core_at (a.nodes ++ added ∷ []) slot ≡ core_at a.nodes slot =
                  concat-core slot ∙ ground arith in
                rw (other, found, flag, kept) refl
          ]
        ])
