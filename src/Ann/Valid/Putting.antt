-- ===== src/Ann/Valid/Putting.antt =====
-- A vector put under an id, in a new node or in an old one.
use lumenvec.Base.{
  ℕ, ◌+◌, ◌≤◌, ◌<◌, ◌≡◌, refl, sym, ap, ◌∙◌, inl, inr, Bool, true, false, List, [], ◌∷◌, Option,
  none, some, length, length-append, ltb, leb, nat_eq, arith, All, Bool-cases, Option-cases, ℕ-Eq,
  lookup, map, if◌then◌else◌,
}
use lumenvec.Base.Arrays.{count}
use lumenvec.Base.Bags.{get_elem-lt}
use lumenvec.Numeric.{Floats}
use lumenvec.Distance.{Arithmetic}
use lumenvec.Ann.{DistancePair, Node, Random, lt64}
use lumenvec.Ann.Select.{nearest_ids}
use lumenvec.Ann.Workspace.{Workspace, reset}
use lumenvec.Ann.Workspace.Epochs.{IsUsed, reset-Fresh}
use lumenvec.Ann.Search.Candidates.{search_candidates-Found, Found}
use lumenvec.Ann.Search.Progress.{Right}
use lumenvec.Ann.Search.Loop.{right-node}
use lumenvec.Ann.Insert.{
  Ann, search_candidates32, append_node, connect_node, insert_node, put_vector,
}
use lumenvec.Ann.Graph.{IsGraph, graph-IsSound, Any}
use lumenvec.Ann.Graph.Links.{linked-IsGraph}
use lumenvec.Ann.Graph.Pruning.{nearest_ids-fewer}
use lumenvec.Ann.Valid.{IsBody, IsValid, view, relinked-IsBody, relinked-live_at}
use lumenvec.Ann.Valid.Appending.{append-IsBody, view-append}
use lumenvec.Ann.Valid.Replacing.{replace-Patched}

module _ (fl : Floats) (ar : Arithmetic fl) (rd : Random) where
  open fl use {F32, F64}

  pub wider-IsUsed : (n m : ℕ) (ws : Workspace) → n ≤ m → IsUsed n ws → IsUsed m ws
  wider-IsUsed n m ws h used = record {
    size = omega (arith, used.size);
    old = used.old;
    fits = used.fits;
  }

  -- A search over the nodes of a graph, from one of its slots.
  pub search_candidates32-Found :
      (query : List F32) (ef : ℕ) (a : Ann fl ar rd) (ws : Workspace)
      → IsGraph (length a.nodes) a.dim a.m Any a.nodes
      → length query ≡ a.dim
      → 0 < ef
      → a.entrypoint < length a.nodes
      → IsUsed (length a.nodes) ws
      → (candidates : List (DistancePair F64)) × (ws' : Workspace) × (search_candidates32 fl ar rd
            query ef a ws
          ≡ some (candidates, ws'))
        × Found fl ar a.nodes query ef a.entrypoint candidates
        × IsUsed (length a.nodes) ws'
  unfolding search_candidates32
  search_candidates32-Found query ef a ws g fits positive inside used =
      let given : nat_eq ef 0 ≡ false = ground arith in
      rw given (
        search_candidates-Found fl ar a.nodes query ef a.entrypoint (reset (length a.nodes) ws)
          positive inside
          (graph-IsSound fl ar (length a.nodes) a.dim a.m Any a.nodes g query fits ef)
          (reset-Fresh (length a.nodes) ws used))

  ids_in_range :
      (nodes : List (Node F32)) (query : List F32) (ef : ℕ) (cs : List (DistancePair F64))
      → All (Right fl ar nodes query ef) cs
      → count (leb (length nodes)) (map (λ c. c.id) cs) ≡ 0
  ids_in_range nodes query ef [] h = refl
  ids_in_range nodes query ef (c ∷ cs) (first, h) =
      let (n, at) = right-node fl ar nodes query ef c.id c.distance first in
      ground (arith, get_elem-lt nodes c.id at, ids_in_range nodes query ef cs h)

  -- What AddVector leaves once a vector has been put in.
  abbrev pub Put : ℕ → List F32 → Ann fl ar rd → Option (Ann fl ar rd × Workspace) → Type 0
  Put id vec a r =
      (a' : Ann fl ar rd) × (ws' : Workspace) × (r ≡ some (a', ws'))
      × IsValid fl ar rd a'
      × IsUsed (length a'.nodes) ws'
      × ((j : ℕ) → view fl ar rd a' j ≡ (if nat_eq id j then some vec else view fl ar rd a j))
      × (a'.dim ≡ a.dim)

  -- The links of a new node; `a` has the node and an entry point.
  connect-Put :
      (slot : ℕ) (vec : List F32) (a : Ann fl ar rd) (ws : Workspace)
      → IsBody fl ar rd a
      → a.has_entrypoint ≡ true
      → length vec ≡ a.dim
      → slot < length a.nodes
      → a.entrypoint < length a.nodes
      → IsUsed (length a.nodes) ws
      → (a' : Ann fl ar rd) × (ws' : Workspace) × (connect_node fl ar rd slot vec a ws
          ≡ some (a', ws'))
        × IsValid fl ar rd a'
        × IsUsed (length a'.nodes) ws'
        × ((j : ℕ) → view fl ar rd a' j ≡ view fl ar rd a j)
        × (a'.dim ≡ a.dim)
  unfolding connect_node
  connect-Put slot vec a ws h entry fits inside start used =
      let (candidates, ws', searched, found, used') =
        search_candidates32-Found vec a.ef_construction a ws h.graph fits h.construction start
          used in
      let (fewer, _) = nearest_ids-fewer fl ar (length a.nodes) a.dim a.m candidates a.m in
      let targets = nearest_ids (lt64 fl ar) candidates a.m in
      let in_range = ids_in_range a.nodes vec a.ef_construction candidates found.right in
      let (linked, nodes, first, second, g, same) =
        linked-IsGraph fl ar (length a.nodes) a.dim a.m targets a.nodes slot h.graph inside
          (omega (arith, fewer (leb (length a.nodes)), in_range)) in
      let roll = (rd.intn 100 a.rnd).0 in
      let rnd = (rd.intn 100 a.rnd).1 in
      let entrypoint = if ltb roll 5 then slot else a.entrypoint in
      (
        record a { nodes = nodes; entrypoint = entrypoint; rnd = rnd },
        ws',
        rw (searched, connect_node, first, second) refl,
        record {
          body = relinked-IsBody fl ar rd a nodes entrypoint rnd h g same;
          entered = λ e. rw g.size (ground arith);
          empty = λ e. absurd (ground arith);
        },
        rw g.size used',
        λ j. relinked-live_at fl ar rd a.deleted a.nodes nodes (lookup j a.id_to_slot) same,
        refl,
      )

  -- An entry point does not matter to the rest.
  entered-IsBody :
      (a : Ann fl ar rd) (entry : ℕ)
      → IsBody fl ar rd a
      → IsBody fl ar rd (record a { entrypoint = entry; has_entrypoint = true })
  entered-IsBody a entry h = record {
    flags = h.flags;
    counted = h.counted;
    graph = h.graph;
    known = h.known;
    named = h.named;
    typed = h.typed;
    construction = h.construction;
    searching = h.searching;
  }

  length-append_node :
      (id : ℕ) (vec : List F32) (a : Ann fl ar rd)
      → (length (append_node fl ar rd id vec a).nodes ≡ length a.nodes + 1)
        × ((append_node fl ar rd id vec a).has_entrypoint ≡ a.has_entrypoint)
        × ((append_node fl ar rd id vec a).entrypoint ≡ a.entrypoint)
        × ((append_node fl ar rd id vec a).dim ≡ a.dim)
  unfolding append_node
  length-append_node id vec a = (length-append a.nodes _, refl, refl, refl)

  insert-Put :
      (id : ℕ) (vec : List F32) (a : Ann fl ar rd) (ws : Workspace)
      → IsValid fl ar rd a
      → lookup id a.id_to_slot ≡ none
      → length vec ≡ a.dim
      → 0 < a.dim
      → IsUsed (length a.nodes) ws
      → Put id vec a (insert_node fl ar rd id vec a ws)
  unfolding insert_node
  insert-Put id vec a ws h new fits sized used =
      let grown = append_node fl ar rd id vec a in
      let (size, has, entry, dim) = length-append_node id vec a in
      let body = append-IsBody fl ar rd a id vec h.body new fits sized in
      let seen = view-append fl ar rd a id vec h.body new fits sized in
      let entering : Ann fl ar rd = record grown {
        entrypoint = length a.nodes;
        has_entrypoint = true;
      } in
      let branch = λ (b : Bool).
        if b then connect_node fl ar rd (length a.nodes) vec grown ws else some (entering, ws) in
      let used' : IsUsed (length grown.nodes) ws =
        wider-IsUsed (length a.nodes) (length grown.nodes) ws (omega (arith, size)) used in
      elim (Bool-cases a.has_entrypoint) [
        | inr first ↦ (
          entering,
          ws,
          ap branch first,
          record {
            body = entered-IsBody grown (length a.nodes) body;
            entered = λ e. omega (arith, size);
            empty = λ e. absurd (ground arith);
          },
          used',
          seen,
          dim,
        )
        | inl old ↦
            let (a', ws', same, valid, after, kept, dim') =
              connect-Put (length a.nodes) vec grown ws body (has ∙ old) (fits ∙ sym dim)
                (omega (arith, size)) (omega (arith, size, entry, h.entered old)) used' in
            (a', ws', ap branch old ∙ same, valid, after, λ j. kept j ∙ seen j, dim' ∙ dim)
      ]

  pub put_vector-Put :
      (id : ℕ) (vec : List F32) (a : Ann fl ar rd) (ws : Workspace)
      → IsValid fl ar rd a
      → length vec ≡ a.dim
      → 0 < a.dim
      → IsUsed (length a.nodes) ws
      → Put id vec a (put_vector fl ar rd id vec a ws)
  unfolding put_vector
  put_vector-Put id vec a ws h fits sized used = elim (Option-cases (lookup id a.id_to_slot)) [
    | inl new ↦ rw (new, put_vector) (insert-Put id vec a ws h new fits sized used)
    | inr (slot, found) ↦
        let (a', same, body, seen, has, entry, dim, size) =
          replace-Patched fl ar rd a id slot h.body found vec fits in
        (
          a',
          ws,
          rw (found, put_vector, same) refl,
          record {
            body = body;
            entered = λ e. omega (arith, entry, size, h.entered (sym has ∙ e));
            empty = λ e. size ∙ h.empty (sym has ∙ e);
          },
          rw size used,
          seen,
          dim,
        )
  ]
