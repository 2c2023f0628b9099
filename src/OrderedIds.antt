-- ===== src/OrderedIds.antt =====
-- internal/core/ordered_id_index.go over github.com/google/btree, which is a parameter.
pub mod Pages
use lumenvec.Base.{
  ℕ, ◌+◌, ◌≡◌, refl, Bool, true, false, ◌||◌, not, List, [], ◌∷◌, ◌++◌, Option, none, some, Text,
  text_ltb, ◌==◌, Text-Eq, ltb, if◌then◌else◌, length, Map,
}
use lumenvec.Base.Ints.{ℤ, is_nonpos, is_above, to_ℕ}

abbrev pub contains : Text → List Text → Bool
contains k [] = false
contains k (x ∷ xs) = x == k || contains k xs

abbrev pub IsAscending : List Text → Type 0
IsAscending [] = Unit
IsAscending (x ∷ []) = Unit
IsAscending (x ∷ y ∷ xs) = (text_ltb x y ≡ true) × IsAscending (y ∷ xs)

-- btree.BTreeG[string] with `<` as its order.
pub record BTree : Type 1 where
  pub Tree : Type 0
  pub new : Tree
  pub replace_or_insert : Text → Tree → Tree
  pub delete : Text → Tree → Tree
  -- the items, in the order in which Ascend visits them
  pub items : Tree → List Text
  pub items-new : items new ≡ []
  pub items-ascending : (t : Tree) → IsAscending (items t)
  pub contains-insert :
      (k j : Text) (t : Tree)
      → contains j (items (replace_or_insert k t)) ≡ (if k == j then true else contains j (items t))
  pub contains-delete :
      (k j : Text) (t : Tree)
      → contains j (items (delete k t)) ≡ (if k == j then false else contains j (items t))

-- A traversal with a callback that may stop it: the callback's state is carried along.
unfoldable pub visit_all {ℓ} : {S : Type ℓ} → (Text → S → S × Bool) → List Text → S → S
visit_all fn [] s = s
visit_all fn (x ∷ xs) s =
    let (s', more) = fn x s in let rest = visit_all fn xs s' in if more then rest else s'

-- AscendGreaterOrEqual starts at the first item that is not below the pivot.
unfoldable pub from_pivot : Text → List Text → List Text
from_pivot p [] = []
from_pivot p (x ∷ xs) = let rest = from_pivot p xs in if text_ltb x p then rest else x ∷ xs

-- the closure `visit` of PageAfter
abbrev pub visit : ℤ → Text → List Text → List Text × Bool
visit limit id out = (out ++ id ∷ [], is_above limit (length (out ++ id ∷ [])))

abbrev pub visit_above : Text → ℤ → Text → List Text → List Text × Bool
visit_above after limit id out = if text_ltb after id then visit limit id out else (out, true)

module _ (bt : BTree) where
  open bt use {Tree, new, replace_or_insert, items}

  -- `tree == nil` is `none`.
  pub record OrderedIdIndex : Type 0 where
    pub tree : Option Tree

  abbrev pub new_ordered_id_index : OrderedIdIndex
  new_ordered_id_index = record { tree = some new }

  -- ensure, and the tree that stands there afterwards
  abbrev pub ensure : OrderedIdIndex → Tree
  ensure i = elim i.tree [ none ↦ new | some t ↦ t ]

  unfoldable pub upsert : Text → OrderedIdIndex → OrderedIdIndex
  upsert id i = record { tree = some (replace_or_insert id (ensure i)) }

  unfoldable pub delete : Text → OrderedIdIndex → OrderedIdIndex
  delete id i = record { tree = some (bt.delete id (ensure i)) }

  -- newOrderedIDIndexFromMap
  unfoldable pub from_map {ℓ} : {V : Type ℓ} → Map Text V → OrderedIdIndex → OrderedIdIndex
  from_map [] i = i
  from_map ((id, _) ∷ m) i = from_map m (upsert id i)

  unfoldable pub range {ℓ} : {S : Type ℓ} → (Text → S → S × Bool) → OrderedIdIndex → S → S
  range fn i = visit_all fn (items (ensure i))

  unfoldable pub page_after : Text → ℤ → OrderedIdIndex → List Text
  page_after after limit i =
      if is_nonpos limit
      then []
      else if after == []
      then visit_all (visit limit) (items (ensure i)) []
      else visit_all (visit_above after limit) (from_pivot after (items (ensure i))) []
