-- ===== src/Ann/Valid/Searching.antt =====
-- What a search of the ANN index returns.
use lumenvec.Base.{
  ℕ, ◌<◌, ◌≡◌, ◌≢◌, refl, ◌∙◌, ◌⊎◌, inl, inr, ◌||◌, true, false, not, List, [], none, some, length,
  nat_eq, arith, Bool-cases, Option-cases, ℕ-Eq, lookup, Result, ok, err, invalid_k,
  invalid_vector_dim,
}
use lumenvec.Base.Ints.{ℤ, is_nonpos, to_ℕ}
use lumenvec.Base.Arrays.{get_elem?}
use lumenvec.Base.Bags.{get_elem-lt}
use lumenvec.Numeric.{Floats, to_float32, length-to_float32}
use lumenvec.Distance.{Arithmetic}
use lumenvec.Ann.{Random, lt64}
use lumenvec.Ann.Select.{nearest_first}
use lumenvec.Ann.Select.Prefix.{nearest_first-Chosen}
use lumenvec.Ann.Workspace.{Workspace}
use lumenvec.Ann.Workspace.Epochs.{IsUsed}
use lumenvec.Ann.Search.Progress.{Right, holds}
use lumenvec.Ann.Insert.{Ann}
use lumenvec.Ann.Query.{
  AnnResult, is_deleted, live_candidates, nearest_results, search_results, search_with_distances,
}
use lumenvec.Ann.Valid.{IsValid, view, core-node}
use lumenvec.Ann.Valid.Putting.{search_candidates32-Found}
use lumenvec.Ann.Valid.Nearest.{nearest_left, among_or_farther}
use lumenvec.Ann.Valid.Live.{live_candidates-Live}
use lumenvec.Ann.Valid.Answers.{Shown, to_results-Named, IsNumbered, Answers}

module _ (fl : Floats) (ar : Arithmetic fl) (rd : Random) where
  open fl use {F32, F64}

  not_deleted :
      (a : Ann fl ar rd) (id slot : ℕ) (v : List F32)
      → lookup id a.id_to_slot ≡ some slot
      → view fl ar rd a id ≡ some v
      → is_deleted (get_elem? a.deleted slot) ≡ false
  not_deleted a id slot v found seen = elim (Bool-cases (is_deleted (get_elem? a.deleted slot))) [
    | inr live ↦ live
    | inl gone ↦
        let hidden : view fl ar rd a id ≡ none = rw (found, gone) refl in
        absurd (ground (arith, seen, hidden))
  ]

  search_results-Answers :
      (query : List F64) (k : ℕ) (a : Ann fl ar rd) (ws : Workspace)
      → IsValid fl ar rd a
      → length query ≡ a.dim
      → 0 < length a.nodes
      → IsUsed (length a.nodes) ws
      → (rs : List (AnnResult F64)) × (ws' : Workspace) × (search_results fl ar rd query k a ws
          ≡ some (rs, ws'))
        × IsUsed (length a.nodes) ws'
        × Answers fl ar rd a (to_float32 fl query) k rs
  unfolding search_results nearest_results
  search_results-Answers query k a ws h fits inhabited used =
      let q = to_float32 fl query in
      let start : a.entrypoint < length a.nodes = elim (Bool-cases a.has_entrypoint) [
        | inl entry ↦ h.entered entry
        | inr missing ↦ absurd (omega (arith, h.empty missing))
      ] in
      let (cs, ws', searched, found, used') =
        search_candidates32-Found fl ar rd q a.ef_search a ws h.body.graph
          (length-to_float32 fl query ∙ fits) h.body.searching start used in
      let live = live_candidates-Live fl ar rd a cs h.body in
      let left = live_candidates fl ar rd a cs in
      let chosen = nearest_first-Chosen (lt64 fl ar) left k in
      let first = nearest_first (lt64 fl ar) left k in
      let shown =
        chosen.all (Shown fl ar rd a q a.ef_search h.body)
          (live.all (Right fl ar a.nodes q a.ef_search) found.right) in
      let (rs, same, named) = to_results-Named fl ar rd a q a.ef_search h.body first shown in
      let near = λ (numbered : IsNumbered fl ar rd a q).
        nearest_left fl ar rd a q a.ef_search h.body k left
          (live.all (Right fl ar a.nodes q a.ef_search) found.right) numbered in
      (
        rs,
        ws',
        rw (searched, search_results, same) refl,
        used',
        record {
          answers = named.answers;
          once = λ id. elim (Option-cases (lookup id a.id_to_slot)) [
            | inl missing ↦ omega (arith, named.absent id missing)
            | inr (slot, at) ↦ omega (
              arith,
              named.counts id slot at,
              chosen.bag (holds slot),
              live.fewer (holds slot),
              found.once slot,
            )
          ];
          size = ground (arith, named.size, chosen.size);
          complete = λ wide enough id slot v at seen reach. omega (
            arith,
            named.counts id slot at,
            chosen.whole (omega (arith, live.short, found.few)) (holds slot),
            live.kept slot (not_deleted a id slot v at seen),
            found.once slot,
            found.reached wide slot reach,
          );
          sorted = λ numbered i j before inside.
              rw (named.order i, named.order j)
                ((near numbered).sorted i j (omega (arith, named.size)) before
                  (omega (arith, named.size)));
          nearest = λ numbered wide id slot v dist at seen measured reach.
              among_or_farther fl ar rd a q a.ef_search h.body k left first rs (near numbered) named
                id slot v dist at seen measured
                (omega (
                  arith,
                  live.kept slot (not_deleted a id slot v at seen),
                  found.once slot,
                  found.reached wide slot reach,
                ))
                (chosen.bag (holds slot));
        },
      )

  empty-Answers :
      (query : List F64) (k : ℕ) (a : Ann fl ar rd)
      → IsValid fl ar rd a
      → length a.nodes ≡ 0
      → Answers fl ar rd a (to_float32 fl query) k []
  empty-Answers query k a h empty = record {
    answers = tt;
    once = λ id. omega arith;
    size = omega arith;
    complete = λ wide enough id slot v at seen reach.
        let (u, here) = h.body.known id slot at in
        let (n, there, _, _) = core-node fl ar rd a.nodes slot id u here in
        absurd (omega (arith, get_elem-lt a.nodes slot there, empty));
    sorted = λ numbered i j before inside. absurd (omega arith);
    nearest = λ numbered wide id slot v dist at seen measured reach.
        let (u, here) = h.body.known id slot at in
        let (n, there, _, _) = core-node fl ar rd a.nodes slot id u here in
        absurd (omega (arith, get_elem-lt a.nodes slot there, empty));
  }

  -- The errors of a search.
  abbrev pub Refused : ℤ → ℕ → ℕ → Result (List (AnnResult F64)) → Type 0
  Refused k n dim r =
      ((is_nonpos k ≡ true) × (r ≡ err invalid_k))
      ⊎ ((is_nonpos k ≡ false) × ((n ≡ 0) ⊎ (n ≢ dim)) × (r ≡ err invalid_vector_dim))

  -- What a search gives: no panic, a workspace to use again, and an error or answers.
  abbrev pub Searched : List F64 → ℤ → Ann fl ar rd → Workspace → Type 0
  Searched query k a ws =
      (r : Result (List (AnnResult F64))) × (ws' : Workspace) × (search_with_distances fl ar rd
          query k a ws
        ≡ some (r, ws'))
      × IsUsed (length a.nodes) ws'
      × (Refused k (length query) a.dim r
          ⊎ ((rs : List (AnnResult F64)) × (is_nonpos k ≡ false)
              × (length query ≡ a.dim)
              × (r ≡ ok rs)
              × Answers fl ar rd a (to_float32 fl query) (to_ℕ k) rs))

  -- SearchWithDistancesInto, on a valid index and with a workspace that earlier searches used, does
  -- not panic and leaves such a workspace. It refuses a k below 1, and then a query that is empty or
  -- not of the dimension. Otherwise it returns ids that have a vector, each at most once, under the
  -- squared distance of that vector to the query, and at most k of them; where efSearch and k are at
  -- least the number of nodes, every id with a vector to whose node links lead from the entry point
  -- is among them. Where no vector has a distance to the query that is NaN, the results are nearest
  -- first, and where moreover efSearch is at least the number of nodes, such an id is among them or
  -- they are k and each is at most as far as its vector.
  pub search_with_distances-Answers :
      (query : List F64) (k : ℤ) (a : Ann fl ar rd) (ws : Workspace)
      → IsValid fl ar rd a
      → IsUsed (length a.nodes) ws
      → Searched query k a ws
  unfolding search_with_distances
  search_with_distances-Answers query k a ws h used = elim (Bool-cases (is_nonpos k)) [
    | inl low ↦ (err invalid_k, ws, rw low refl, used, inl (inl (low, refl)))
    | inr positive ↦
        elim (Bool-cases (nat_eq (length query) 0 || not (nat_eq (length query) a.dim))) [
          | inl other ↦
              let empty_or_other : (length query ≡ 0) ⊎ (length query ≢ a.dim) =
                elim (Bool-cases (nat_eq (length query) 0)) [
                  | inl none_given ↦ inl (ground arith)
                  | inr given ↦ inr (λ same. ground (arith, other, given, same))
                ] in
              (
                err invalid_vector_dim,
                ws,
                rw (positive, other) refl,
                used,
                inl (inr (positive, empty_or_other, refl)),
              )
          | inr fits ↦ elim (Bool-cases (nat_eq (length a.nodes) 0)) [
            | inl empty ↦ (
              ok [],
              ws,
              rw (positive, fits, empty) refl,
              used,
              inr (
                [],
                positive,
                ground arith,
                refl,
                empty-Answers query (to_ℕ k) a h (ground arith),
              ),
            )
            | inr inhabited ↦
                let (rs, ws', same, used', answers) =
                  search_results-Answers query (to_ℕ k) a ws h (ground arith) (ground arith) used in
                (
                  ok rs,
                  ws',
                  rw (positive, fits, inhabited, same) refl,
                  used',
                  inr (rs, positive, ground arith, refl, answers),
                )
          ]
        ]
  ]
