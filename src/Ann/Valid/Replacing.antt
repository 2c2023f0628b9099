-- ===== src/Ann/Valid/Replacing.antt =====
-- A vector in place of another, and a deletion mark.
use lumenvec.Base.{
  ℕ, ◌+◌, ◌-◌, ◌<◌, ◌≡◌, refl, sym, ap, ◌∙◌, Bool, true, false, List, Option, none, some, length,
  nat_eq, nat_eq_iff, arith, Bool-cases, Option-cases, inl, inr, ℕ-Eq, lookup, if◌then◌else◌,
}
use lumenvec.Base.Arrays.{get_elem?, get_elem-some, get_elem-set, set, count, count-set, length-set}
use lumenvec.Base.Bags.{get_elem-lt, some_injective}
use lumenvec.Numeric.{Floats}
use lumenvec.Distance.{Arithmetic}
use lumenvec.Ann.{Node, Random}
use lumenvec.Ann.Insert.{Ann, replace_vector, delete_vector}
use lumenvec.Ann.Query.{is_deleted}
use lumenvec.Ann.Graph.{IsGraph, core, core_at, set-IsGraph, Any}
use lumenvec.Ann.Valid.{IsBody, core-node, vector_of, view}

module _ (fl : Floats) (ar : Arithmetic fl) (rd : Random) where
  open fl use {F32}

  module _ (a : Ann fl ar rd) (id slot : ℕ) (h : IsBody fl ar rd a)
      (found : lookup id a.id_to_slot ≡ some slot) where
    -- Another id has another slot.
    other-slot :
        (j slot' : ℕ)
        → nat_eq id j ≡ false
        → lookup j a.id_to_slot ≡ some slot'
        → nat_eq slot slot' ≡ false
    other-slot j slot' other at = elim (Bool-cases (nat_eq slot slot')) [
      | inr apart ↦ apart
      | inl same ↦
          let (v, here) = h.known id slot found in
          let (w, there) = h.known j slot' at in
          let e : (id, v) ≡ (j, w) = some_injective (
            sym here
            ∙ ap (λ (s : ℕ). core_at a.nodes s) ((nat_eq_iff slot slot').0 same)
            ∙ there) in
          absurd (ground (arith, other, ap (λ (p : ℕ × List F32). p.0) e))
    ]

    -- The state with another flag and another vector in the slot.
    module _ (nodes : List (Node F32)) (deleted : List Bool) (count' : ℕ) (flag : Bool)
        (w : List F32) (graph : IsGraph (length a.nodes) a.dim a.m Any nodes)
        (size : length deleted ≡ length a.nodes) (counted : count' ≡ count (λ gone. gone) deleted)
        (cores : (s : ℕ)
          → core_at nodes s ≡ (if nat_eq slot s then some (id, w) else core_at a.nodes s))
        (flags : (s : ℕ)
          → is_deleted (get_elem? deleted s)
            ≡ (if nat_eq slot s then flag else is_deleted (get_elem? a.deleted s))) where
      abbrev patched : Ann fl ar rd
      patched = record a { nodes = nodes; deleted = deleted; deleted_count = count' }

      patched-IsBody : IsBody fl ar rd patched
      patched-IsBody = record {
        flags = size ∙ sym graph.size;
        counted = counted;
        graph = rw graph.size graph;
        known = λ j s at. elim (Bool-cases (nat_eq slot s)) [
          | inl same ↦
              let (v, here) = h.known id slot found in
              let (u, there) = h.known j s at in
              let e : (id, v) ≡ (j, u) = some_injective (
                sym here
                ∙ ap (λ (x : ℕ). core_at a.nodes x) ((nat_eq_iff slot s).0 same)
                ∙ there) in
              (
                w,
                cores s
                    ∙ rw same
                        (ap {B = Option (ℕ × List F32)} (λ (p : ℕ × List F32). some (p.0, w)) e),
              )
          | inr other ↦ let (u, there) = h.known j s at in (u, cores s ∙ rw other there)
        ];
        named = λ s j v at. elim (Bool-cases (nat_eq slot s)) [
          | inl same ↦
              let e : (id, w) ≡ (j, v) = some_injective (rw same at (sym (cores s) ∙ at)) in
              ap (λ (x : ℕ). lookup x a.id_to_slot) (sym (ap (λ (p : ℕ × List F32). p.0) e))
              ∙ found
              ∙ ap some ((nat_eq_iff slot s).0 same)
          | inr other ↦ h.named s j v (rw other at (sym (cores s) ∙ at))
        ];
        typed = λ e. graph.size ∙ h.typed e;
        construction = h.construction;
        searching = h.searching;
      }

      view-patched :
          (j : ℕ)
          → view fl ar rd patched j
            ≡ (if nat_eq id j then if flag then none else some w else view fl ar rd a j)
      view-patched j = elim (Bool-cases (nat_eq id j)) [
        | inl same ↦
            let at : lookup j a.id_to_slot ≡ some slot =
              ap (λ (x : ℕ). lookup x a.id_to_slot) (sym ((nat_eq_iff id j).0 same)) ∙ found in
            let mark : is_deleted (get_elem? deleted slot) ≡ flag = flags slot ∙ ground arith in
            let here : vector_of fl ar rd (core_at nodes slot) ≡ some w =
              ap (vector_of fl ar rd) (cores slot) ∙ ground arith in
            rw (same, at, mark, here) refl
        | inr other ↦ elim (Option-cases (lookup j a.id_to_slot)) [
          | inl missing ↦ rw (other, missing) refl
          | inr (s, at) ↦
              let apart = other-slot j s other at in
              let mark : is_deleted (get_elem? deleted s) ≡ is_deleted (get_elem? a.deleted s) =
                flags s ∙ rw apart refl in
              let kept : core_at nodes s ≡ core_at a.nodes s = cores s ∙ rw apart refl in
              rw (other, at, mark, kept) refl
        ]
      ]

    flag-set :
        (flag : Bool) (s : ℕ)
        → slot < length a.deleted
        → is_deleted (get_elem? (set a.deleted slot flag) s)
          ≡ (if nat_eq slot s then flag else is_deleted (get_elem? a.deleted s))
    flag-set flag s inside =
        ap is_deleted (get_elem-set a.deleted slot s flag inside) ∙ ground arith

    unchanged_flag :
        (flag : Bool) (s : ℕ)
        → get_elem? a.deleted slot ≡ some flag
        → is_deleted (get_elem? a.deleted s)
          ≡ (if nat_eq slot s then flag else is_deleted (get_elem? a.deleted s))
    unchanged_flag flag s at = elim (Bool-cases (nat_eq slot s)) [
      | inl same ↦ rw same (
          ap (λ (x : ℕ). is_deleted (get_elem? a.deleted x)) (sym ((nat_eq_iff slot s).0 same))
          ∙ ap is_deleted at)
      | inr other ↦ rw other refl
    ]

    -- What is left of the state by an operation that gives the slot a flag and a vector.
    abbrev pub Patched : Option (Ann fl ar rd) → Option (List F32) → Type 0
    Patched r left =
        (a' : Ann fl ar rd) × (r ≡ some a')
        × IsBody fl ar rd a'
        × ((j : ℕ) → view fl ar rd a' j ≡ (if nat_eq id j then left else view fl ar rd a j))
        × (a'.has_entrypoint ≡ a.has_entrypoint)
        × (a'.entrypoint ≡ a.entrypoint)
        × (a'.dim ≡ a.dim)
        × (length a'.nodes ≡ length a.nodes)

    pub replace-Patched :
        (vec : List F32)
        → length vec ≡ a.dim
        → Patched (replace_vector fl ar rd slot vec a) (some vec)
    unfolding replace_vector
    replace-Patched vec fits =
        let (v, here) = h.known id slot found in
        let (n, at, named, _) = core-node fl ar rd a.nodes slot id v here in
        let inside : slot < length a.nodes = get_elem-lt a.nodes slot at in
        let old = h.graph.node slot n at in
        let n' : Node F32 = record n { vector = vec } in
        let nodes = set a.nodes slot n' in
        let graph =
          set-IsGraph (length a.nodes) a.dim a.m Any Any a.nodes slot n' h.graph inside
            (record { place = old.place; size = fits; links = old.links }) (λ s e tight. tt)
            (λ tight. h.graph.short slot n at tt) in
        let cores : (s : ℕ)
            → core_at nodes s ≡ (if nat_eq slot s then some (id, vec) else core_at a.nodes s) =
          λ s. ap core (get_elem-set a.nodes slot s n' inside) ∙ ground (arith, named) in
        let (gone, flag_at) = get_elem-some a.deleted slot (omega (arith, h.flags)) in
        let marks = count-set (λ gone. gone) a.deleted slot gone false flag_at in
        elim (Bool-cases gone) [
          | inl deleted ↦
              let fewer : a.deleted_count - 1 ≡ count (λ gone. gone) (set a.deleted slot false) =
                ground (arith, marks, deleted, h.counted) in
              let size = length-set a.deleted slot false ∙ h.flags in
              let flags = λ (s : ℕ). flag-set false s (omega (arith, h.flags)) in
              (
                patched nodes (set a.deleted slot false) (a.deleted_count - 1) false vec graph size
                    fewer cores flags,
                rw (at, replace_vector, flag_at, deleted) refl,
                patched-IsBody nodes (set a.deleted slot false) (a.deleted_count - 1) false vec
                    graph size fewer cores flags,
                view-patched nodes (set a.deleted slot false) (a.deleted_count - 1) false vec graph
                    size fewer cores flags,
                refl,
                refl,
                refl,
                graph.size,
              )
          | inr live ↦
              let flags = λ (s : ℕ). unchanged_flag false s (flag_at ∙ ap some live) in
              (
                patched nodes a.deleted a.deleted_count false vec graph h.flags h.counted cores
                    flags,
                rw (at, replace_vector, flag_at, live) refl,
                patched-IsBody nodes a.deleted a.deleted_count false vec graph h.flags h.counted
                    cores flags,
                view-patched nodes a.deleted a.deleted_count false vec graph h.flags h.counted cores
                    flags,
                refl,
                refl,
                refl,
                graph.size,
              )
        ]

    pub delete-Patched : Patched (delete_vector fl ar rd id a) none
    unfolding delete_vector
    delete-Patched =
        let (v, here) = h.known id slot found in
        let (n, at, _, _) = core-node fl ar rd a.nodes slot id v here in
        let inside : slot < length a.nodes = get_elem-lt a.nodes slot at in
        let cores : (s : ℕ)
            → core_at a.nodes s ≡ (if nat_eq slot s then some (id, v) else core_at a.nodes s) =
          λ s. same_core s v here in
        let (gone, flag_at) = get_elem-some a.deleted slot (omega (arith, h.flags)) in
        let marks = count-set (λ gone. gone) a.deleted slot gone true flag_at in
        elim (Bool-cases gone) [
          | inl deleted ↦
              let flags = λ (s : ℕ). unchanged_flag true s (flag_at ∙ ap some deleted) in
              (
                a,
                rw (found, delete_vector, flag_at, deleted) refl,
                h,
                view-patched a.nodes a.deleted a.deleted_count true v h.graph h.flags h.counted
                    cores flags,
                refl,
                refl,
                refl,
                refl,
              )
          | inr live ↦
              let more : a.deleted_count + 1 ≡ count (λ gone. gone) (set a.deleted slot true) =
                ground (arith, marks, live, h.counted) in
              let size = length-set a.deleted slot true ∙ h.flags in
              let flags = λ (s : ℕ). flag-set true s (omega (arith, h.flags)) in
              (
                patched a.nodes (set a.deleted slot true) (a.deleted_count + 1) true v h.graph size
                    more cores flags,
                rw (found, delete_vector, flag_at, live) refl,
                patched-IsBody a.nodes (set a.deleted slot true) (a.deleted_count + 1) true v
                    h.graph size more cores flags,
                view-patched a.nodes (set a.deleted slot true) (a.deleted_count + 1) true v h.graph
                    size more cores flags,
                refl,
                refl,
                refl,
                refl,
              )
        ]
      where
        same_core :
            (s : ℕ) (v : List F32)
            → core_at a.nodes slot ≡ some (id, v)
            → core_at a.nodes s ≡ (if nat_eq slot s then some (id, v) else core_at a.nodes s)
        same_core s v here = elim (Bool-cases (nat_eq slot s)) [
          | inl same ↦
              rw same (ap (λ (x : ℕ). core_at a.nodes x) (sym ((nat_eq_iff slot s).0 same)) ∙ here)
          | inr other ↦ rw other refl
        ]
