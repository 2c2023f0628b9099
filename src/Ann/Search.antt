-- ===== src/Ann/Search.antt =====
-- The search of internal/index/ann/ann_index.go: from the entry point on, the nearest slot that is
-- still to be expanded is taken, and its neighbours are visited. none is an index out of range,
-- where Go panics, or no fuel left.
pub mod Progress
pub mod Visits
pub mod Loop
pub mod Candidates
use lumenvec.Base.{
  ℕ, zero, suc, ◌+◌, Bool, true, false, ◌&&◌, List, [], ◌∷◌, Option, none, some, length, ltb, leb,
  nat_eq, if◌then◌else◌,
}
use lumenvec.Base.Arrays.{get_elem?}
use lumenvec.Numeric.{Floats}
use lumenvec.Distance.{Arithmetic}
use lumenvec.Ann.{DistancePair, Node, distance_to, lt64}
use lumenvec.Ann.Heaps.{min_first, max_first, push, pop, replace_top}
use lumenvec.Ann.Workspace.{Workspace, is_visited, mark_visited}

pub record Searching (D : Type 0) : Type 0 where
  pub ws : Workspace
  pub min_q : List (DistancePair D)
  pub max_q : List (DistancePair D)

module _ (fl : Floats) (ar : Arithmetic fl) where
  open fl use {F64, F32}

  -- What is done with a slot that has just been visited.
  unfoldable pub admit : ℕ → DistancePair F64 → Searching F64 → Option (Searching F64)
  admit ef pair s =
      if ltb (length s.max_q) ef
      then some (record s {
        min_q = push (min_first fl ar) pair s.min_q;
        max_q = push (max_first fl ar) pair s.max_q;
      })
      else elim (get_elem? s.max_q 0) [
        | none ↦ none
        | some worst ↦
            if lt64 fl ar pair.distance worst.distance
            then some (record s {
              min_q = push (min_first fl ar) pair s.min_q;
              max_q = replace_top (max_first fl ar) pair s.max_q;
            })
            else some s
      ]

  module _ (nodes : List (Node F32)) (query : List F32) (ef : ℕ) where
    -- One round of the loop over the neighbours.
    unfoldable pub visit_slot : ℕ → Searching F64 → Option (Searching F64)
    visit_slot slot s = elim (is_visited s.ws slot) [
      | none ↦ none
      | some true ↦ some s
      | some false ↦ elim (distance_to fl ar nodes query slot) [
        | none ↦ none
        | some dist ↦
            admit ef (record { id = slot; distance = dist })
              (record s { ws = mark_visited slot s.ws })
      ]
    ]

    unfoldable pub visit_slots : List ℕ → Searching F64 → Option (Searching F64)
    visit_slots [] s = some s
    visit_slots (slot ∷ slots) s = elim (visit_slot slot s) [
      | none ↦ none
      | some s' ↦ visit_slots slots s'
    ]

    -- The neighbours of a slot that has been taken off minQ.
    unfoldable pub expand : ℕ → Searching F64 → Option (Searching F64)
    expand slot s = elim (get_elem? nodes slot) [ none ↦ none | some n ↦ visit_slots n.neighbors s ]

    -- maxQ.Len() >= ef && current.distance > worst.distance
    abbrev pub is_beyond : DistancePair F64 → DistancePair F64 → Searching F64 → Bool
    is_beyond current worst s =
        leb ef (length s.max_q) && lt64 fl ar worst.distance current.distance

    -- The outer loop.
    unfoldable pub search_loop : ℕ → Searching F64 → Option (Searching F64)
    search_loop zero s = none
    search_loop (suc fuel) s = elim (pop (min_first fl ar) s.min_q) [
      | none ↦ some s
      | some (current, rest) ↦ elim (get_elem? s.max_q 0) [
        | none ↦ none
        | some worst ↦
            let taken : Searching F64 = record s { min_q = rest } in
            if is_beyond current worst s
            then some taken
            else elim (expand current.id taken) [ none ↦ none | some s' ↦ search_loop fuel s' ]
      ]
    ]

    -- The entry point in both heaps.
    unfoldable pub start_at : ℕ → Workspace → Option (Searching F64)
    start_at entry ws = elim (distance_to fl ar nodes query entry) [
      | none ↦ none
      | some dist ↦
          let pair : DistancePair F64 = record { id = entry; distance = dist } in
          some (record {
            ws = mark_visited entry ws;
            min_q = push (min_first fl ar) pair [];
            max_q = push (max_first fl ar) pair [];
          })
    ]

  -- drainCandidates: the places are filled from the last one on; the length is the number of rounds.
  unfoldable pub drain :
      ℕ → List (DistancePair F64) → List (DistancePair F64) → Option (List (DistancePair F64))
  drain zero h out = some out
  drain (suc rounds) h out = elim (pop (max_first fl ar) h) [
    | none ↦ none
    | some (item, rest) ↦ drain rounds rest (item ∷ out)
  ]

  -- searchCandidates32WithWorkspaceLocked; each round takes a slot off minQ, and a slot gets there
  -- once, so one round more than there are nodes is enough.
  unfoldable pub search_candidates_with_workspace :
      List (Node F32) → ℕ → List F32 → ℕ → Workspace → Option (List (DistancePair F64) × Workspace)
  search_candidates_with_workspace nodes entry query ef ws =
      elim (start_at nodes query ef entry ws) [
        | none ↦ none
        | some s ↦ elim (search_loop nodes query ef (suc (length nodes)) s) [
          | none ↦ none
          | some s' ↦ elim (drain (length s'.max_q) s'.max_q []) [
            | none ↦ none
            | some candidates ↦ some (candidates, s'.ws)
          ]
        ]
      ]
