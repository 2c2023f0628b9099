-- ===== src/Ann/Search/Visits.antt =====
-- The loop over the neighbours of a node, and one round of the search.
use lumenvec.Base.{
  ℕ, ◌≤◌, ◌<◌, ◌≡◌, refl, ap, ◌∙◌, inl, inr, true, List, [], ◌∷◌, some, length, leb, nat_eq, arith,
  Bool-cases,
}
use lumenvec.Base.Arrays.{get_elem?, get_elem-some, count}
use lumenvec.Numeric.{Floats}
use lumenvec.Distance.{Arithmetic}
use lumenvec.Ann.{Node, distance_to}
use lumenvec.Ann.Workspace.Epochs.{seen, seen_mark}
use lumenvec.Ann.Search.{Searching, visit_slot, visit_slots, expand}
use lumenvec.Ann.Search.Progress.{Explored, Visited, Visited-refl, Visited-trans, admit-Visited}

module _ (fl : Floats) (ar : Arithmetic fl) (nodes : List (Node fl.F32)) (query : List fl.F32)
    (ef : ℕ) where
  open fl use {F64}

  -- No index that the search uses is out of range: every slot has a vector as long as the query, and
  -- every neighbour is a slot.
  pub record IsSound : Type 0 where
    pub distances :
        (slot : ℕ) → slot < length nodes → (d : F64) × (distance_to fl ar nodes query slot ≡ some d)
    pub links :
        (slot : ℕ) (n : Node fl.F32)
        → get_elem? nodes slot ≡ some n
        → count (leb (length nodes)) n.neighbors ≡ 0

  visit_slot-Visited :
      (s : Searching F64) (slot : ℕ)
      → IsSound
      → slot < length nodes
      → Explored fl ar nodes query ef s
      → (s' : Searching F64) × (visit_slot fl ar nodes query ef slot s ≡ some s')
        × Visited fl ar nodes query ef s s'
        × (seen s'.ws slot ≡ true)
  unfolding visit_slot
  visit_slot-Visited s slot sound inside h =
      let (mark, at) = get_elem-some s.ws.marks slot (omega (arith, h.size)) in
      let known : seen s.ws slot ≡ nat_eq mark s.ws.epoch = ap (seen_mark s.ws.epoch) at in
      elim (Bool-cases (nat_eq mark s.ws.epoch)) [
        | inl old ↦
            (s, rw (at, visit_slot, old) refl, Visited-refl fl ar nodes query ef s h, known ∙ old)
        | inr fresh ↦
            let (dist, right) = sound.distances slot inside in
            let (s', same, v, now) =
              admit-Visited fl ar nodes query ef s slot dist h inside (known ∙ fresh) right in
            (s', rw (at, visit_slot, fresh, right) same, v, now)
      ]

  pub visit_slots-Visited :
      (slots : List ℕ) (s : Searching F64)
      → IsSound
      → count (leb (length nodes)) slots ≡ 0
      → Explored fl ar nodes query ef s
      → (s' : Searching F64) × (visit_slots fl ar nodes query ef slots s ≡ some s')
        × Visited fl ar nodes query ef s s'
        × ((v : ℕ) → 1 ≤ count (nat_eq v) slots → seen s'.ws v ≡ true)
  unfolding visit_slots
  visit_slots-Visited [] s sound inside h =
      (s, refl, Visited-refl fl ar nodes query ef s h, λ v e. absurd (omega arith))
  visit_slots-Visited (slot ∷ slots) s sound inside h =
      let (t, first, st, now) = visit_slot-Visited s slot sound (ground arith) h in
      let (u, rest, tu, later) = visit_slots-Visited slots t sound (ground arith) st.explored in
      (
        u,
        rw (first, visit_slots) rest,
        Visited-trans fl ar nodes query ef st tu,
        λ v e. ground (arith, tu.marked slot now, later v),
      )

  pub expand-Visited :
      (s : Searching F64) (slot : ℕ) (n : Node fl.F32)
      → IsSound
      → get_elem? nodes slot ≡ some n
      → Explored fl ar nodes query ef s
      → (s' : Searching F64) × (expand fl ar nodes query ef slot s ≡ some s')
        × Visited fl ar nodes query ef s s'
        × ((v : ℕ) → 1 ≤ count (nat_eq v) n.neighbors → seen s'.ws v ≡ true)
  unfolding expand
  expand-Visited s slot n sound at h =
      let (t, same, visited, all) =
        visit_slots-Visited n.neighbors s sound (sound.links slot n at) h in
      (t, rw (at, expand) same, visited, all)
