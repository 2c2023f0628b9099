-- ===== src/Ann/Workspace.antt =====
-- searchWorkspace of internal/index/ann/ann_index.go, as far as it is carried from one search to the
-- next: the marks of the visited slots, with the epoch that says which marks count. The marks are
-- allocated for the nodes that there are, and nodes are never removed, so reset never lengthens
-- them within their capacity: `marks` is the whole of it.
pub mod Epochs
use lumenvec.Base.{
  ℕ, zero, suc, ◌+◌, ◌%◌, ◌^◌, Bool, false, List, [], ◌∷◌, Option, none, some, length, ltb, nat_eq,
  if◌then◌else◌,
}
use lumenvec.Base.Arrays.{get_elem?, set}

pub record Workspace : Type 0 where
  pub marks : List ℕ
  pub epoch : ℕ

-- make([]uint32, n), and what clear leaves
abbrev pub zeros : ℕ → List ℕ
zeros zero = []
zeros (suc n) = 0 ∷ zeros n

abbrev pub new_workspace : Workspace
new_workspace = record { marks = []; epoch = 0 }

unfoldable pub reset : ℕ → Workspace → Workspace
reset nodes w =
    let marks = if ltb (length w.marks) nodes then zeros nodes else w.marks in
    let epoch = (w.epoch + 1) % 2 ^ 32 in
    if nat_eq epoch 0
    then record { marks = zeros (length marks); epoch = 1 }
    else record { marks = marks; epoch = epoch }

-- isVisited; none is a slot out of range, where Go panics
abbrev pub is_visited : Workspace → ℕ → Option Bool
is_visited w slot = elim (get_elem? w.marks slot) [
  | none ↦ none
  | some mark ↦ some (nat_eq mark w.epoch)
]

unfoldable pub mark_visited : ℕ → Workspace → Workspace
mark_visited slot w = record w { marks = set w.marks slot w.epoch }
