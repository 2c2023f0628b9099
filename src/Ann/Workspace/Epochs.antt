-- ===== src/Ann/Workspace/Epochs.antt =====
-- Each search starts with no slot visited, also where the epoch has come round to 0.
use lumenvec.Base.{
  ℕ, zero, suc, ◌+◌, ◌%◌, ◌^◌, ◌≤◌, ◌<◌, ◌≡◌, refl, inl, inr, Bool, true, false, List, [], ◌∷◌,
  Option, none, some, length, ltb, nat_eq, arith, All, Bool-cases, if◌then◌else◌,
}
use lumenvec.Base.Arrays.{get_elem?, length-set, get_elem-set}
use lumenvec.Base.Bags.{All-set}
use lumenvec.Ann.Workspace.{Workspace, zeros, reset, mark_visited}

-- A workspace that searches of an index with at most `nodes` nodes have used.
pub record IsUsed (nodes : ℕ) (w : Workspace) : Type 0 where
  pub size : length w.marks ≤ nodes
  pub old : All (λ mark. mark ≤ w.epoch) w.marks
  pub fits : w.epoch < 2 ^ 32

-- The slots that a search has visited: out of range there are none.
abbrev pub seen_mark : ℕ → Option ℕ → Bool
seen_mark epoch none = false
seen_mark epoch (some mark) = nat_eq mark epoch

abbrev pub seen : Workspace → ℕ → Bool
seen w slot = seen_mark w.epoch (get_elem? w.marks slot)

length-zeros : (n : ℕ) → length (zeros n) ≡ n
length-zeros zero = refl
length-zeros (suc n) = omega (arith, length-zeros n)

zeros-All : (epoch n : ℕ) → All (λ mark. mark ≤ epoch) (zeros n)
zeros-All epoch zero = tt
zeros-All epoch (suc n) = (omega arith, zeros-All epoch n)

zeros-unseen : (epoch n slot : ℕ) → 0 < epoch → seen_mark epoch (get_elem? (zeros n) slot) ≡ false
zeros-unseen epoch zero slot h = refl
zeros-unseen epoch (suc n) zero h = ground arith
zeros-unseen epoch (suc n) (suc slot) h = zeros-unseen epoch n slot h

older-All :
    (epoch : ℕ) (marks : List ℕ) → All (λ m. m ≤ epoch) marks → All (λ m. m ≤ epoch + 1) marks
older-All epoch [] h = tt
older-All epoch (m ∷ marks) (first, h) = (omega arith, older-All epoch marks h)

older-unseen :
    (epoch : ℕ) (marks : List ℕ) (slot : ℕ)
    → All (λ m. m ≤ epoch) marks
    → seen_mark (epoch + 1) (get_elem? marks slot) ≡ false
older-unseen epoch [] slot h = refl
older-unseen epoch (m ∷ marks) zero (first, h) = ground arith
older-unseen epoch (m ∷ marks) (suc slot) (first, h) = older-unseen epoch marks slot h

-- A workspace with a mark for each node, in which no slot counts as visited.
pub record Fresh (nodes : ℕ) (w : Workspace) : Type 0 where
  pub size : length w.marks ≡ nodes
  pub old : All (λ mark. mark ≤ w.epoch) w.marks
  pub fits : w.epoch < 2 ^ 32
  pub unseen : (slot : ℕ) → seen w slot ≡ false

zeros-Fresh :
    (nodes epoch : ℕ)
    → 0 < epoch
    → epoch < 2 ^ 32
    → Fresh nodes (record { marks = zeros nodes; epoch = epoch })
zeros-Fresh nodes epoch h fits = record {
  size = length-zeros nodes;
  old = zeros-All epoch nodes;
  fits = fits;
  unseen = λ slot. zeros-unseen epoch nodes slot h;
}

-- reset, for an index with at least as many nodes as the searches before it had: no slot counts as
-- visited, there is a mark for each node, and the workspace can be used again.
pub reset-Fresh : (nodes : ℕ) (w : Workspace) → IsUsed nodes w → Fresh nodes (reset nodes w)
unfolding reset
reset-Fresh nodes w h =
    let next = (w.epoch + 1) % 2 ^ 32 in
    elim (Bool-cases (ltb (length w.marks) nodes)) [
      | inl short ↦ elim (Bool-cases (nat_eq next 0)) [
        | inl round ↦
            rw (short, round, length-zeros nodes) (zeros-Fresh nodes 1 (omega arith) (omega arith))
        | inr on ↦ rw (short, on) (zeros-Fresh nodes next (ground arith) (omega arith))
      ]
      | inr enough ↦
          let size : length w.marks ≡ nodes = ground (arith, h.size) in
          elim (Bool-cases (nat_eq next 0)) [
            | inl round ↦ rw (enough, round, size) (zeros-Fresh nodes 1 (omega arith) (omega arith))
            | inr on ↦
                let same : next ≡ w.epoch + 1 = ground (arith, h.fits) in
                rw (enough, on, same)
                  (record {
                    size = size;
                    old = older-All w.epoch w.marks h.old;
                    fits = omega (arith, same);
                    unseen = λ slot. older-unseen w.epoch w.marks slot h.old;
                  })
          ]
    ]

-- What one mark changes.
pub seen-mark :
    (w : Workspace) (slot other : ℕ)
    → slot < length w.marks
    → seen (mark_visited slot w) other ≡ (if nat_eq slot other then true else seen w other)
unfolding mark_visited
seen-mark w slot other h = ground (arith, get_elem-set w.marks slot other w.epoch)

pub mark-IsUsed :
    (nodes slot : ℕ) (w : Workspace) → IsUsed nodes w → IsUsed nodes (mark_visited slot w)
unfolding mark_visited
mark-IsUsed nodes slot w h = record {
  size = omega (arith, h.size, length-set w.marks slot w.epoch);
  old = All-set (λ mark. mark ≤ w.epoch) w.marks slot w.epoch h.old (omega arith);
  fits = h.fits;
}
