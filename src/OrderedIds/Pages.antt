-- ===== src/OrderedIds/Pages.antt =====
-- What PageAfter returns.
use lumenvec.Base.{
  ℕ, zero, suc, ◌+◌, ◌≡◌, refl, ap, true, false, List, [], ◌∷◌, ◌++◌, Text, text_ltb,
  text_ltb_asymm, Text-Eq, if◌then◌else◌, length, take, length-append, text_eq, ◌∙◌, arith,
  Bool-cases, inl, inr,
}
use mathlib.Core.List.{append-nil, append_assoc}
use lumenvec.Base.Ints.{ℤ, pos, negsuc, is_above, to_ℕ}
use lumenvec.OrderedIds.{
  BTree, OrderedIdIndex, ensure, visit_all, from_pivot, visit, visit_above, page_after,
}

-- The ids above the cursor, in order.
abbrev pub above : Text → List Text → List Text
above after [] = []
above after (x ∷ xs) = if text_ltb after x then x ∷ above after xs else above after xs

above-from_pivot :
    (after : Text) (xs : List Text) → above after (from_pivot after xs) ≡ above after xs
unfolding from_pivot
above-from_pivot after [] = refl
above-from_pivot after (x ∷ xs) = ground (arith, text_ltb_asymm x after, above-from_pivot after xs)

module _ (limit : ℕ) where
  room_left :
      (out : List Text) (x : Text) (room : ℕ)
      → length out + suc (suc room) ≡ limit
      → (length (out ++ x ∷ []) + suc room ≡ limit)
        × (is_above (pos limit) (length (out ++ x ∷ [])) ≡ true)
  room_left out x room h = let e = length-append out (x ∷ []) in (omega arith, rw e (ground arith))

  room_used :
      (out : List Text) (x : Text)
      → length out + 1 ≡ limit
      → is_above (pos limit) (length (out ++ x ∷ [])) ≡ false
  room_used out x h = rw (length-append out (x ∷ [])) (ground arith)

  visit-take :
      (xs out : List Text) (room : ℕ)
      → length out + suc room ≡ limit
      → visit_all (visit (pos limit)) xs out ≡ out ++ take (suc room) xs
  unfolding visit_all
  visit-take [] out room h = rw append-nil
  visit-take (x ∷ xs) out zero h = rw (room_used out x h)
  visit-take (x ∷ xs) out (suc room) h =
      let (used, more) = room_left out x room h in
      rw more
        (visit-take xs (out ++ x ∷ []) room used ∙ append_assoc out (x ∷ []) (take (suc room) xs))

  visit_above-take :
      (after : Text) (xs out : List Text) (room : ℕ)
      → length out + suc room ≡ limit
      → visit_all (visit_above after (pos limit)) xs out ≡ out ++ take (suc room) (above after xs)
  unfolding visit_all
  visit_above-take after [] out room h = rw append-nil
  visit_above-take after (x ∷ xs) out zero h = elim (Bool-cases (text_ltb after x)) [
    | inr low ↦ rw low (visit_above-take after xs out zero h)
    | inl high ↦ rw (high, room_used out x h)
  ]
  visit_above-take after (x ∷ xs) out (suc room) h = elim (Bool-cases (text_ltb after x)) [
    | inr low ↦ rw low (visit_above-take after xs out (suc room) h)
    | inl high ↦
        let (used, more) = room_left out x room h in
        rw (high, more)
          (visit_above-take after xs (out ++ x ∷ []) room used
            ∙ append_assoc out (x ∷ []) (take (suc room) (above after xs)))
  ]

-- The page after a cursor: all ids at the empty cursor, else those above it.
abbrev pub rest_after : Text → List Text → List Text
rest_after [] ids = ids
rest_after (c ∷ after) ids = above (c ∷ after) ids

-- PageAfter returns the first `limit` of the tree's ids above the cursor (of all its ids, at the
-- empty cursor), in the tree's order, and nothing at a limit that is not positive.
pub page_after-take :
    (bt : BTree) (after : Text) (limit : ℤ) (i : OrderedIdIndex bt)
    → page_after bt after limit i ≡ take (to_ℕ limit) (rest_after after (bt.items (ensure bt i)))
unfolding page_after text_eq
page_after-take bt after (negsuc n) i = refl
page_after-take bt after (pos zero) i = refl
page_after-take bt [] (pos (suc n)) i =
    visit-take (suc n) (bt.items (ensure bt i)) [] n (omega arith)
page_after-take bt (c ∷ after) (pos (suc n)) i =
    visit_above-take (suc n) (c ∷ after) (from_pivot (c ∷ after) (bt.items (ensure bt i))) [] n
      (omega arith)
    ∙ ap (take (suc n)) (above-from_pivot (c ∷ after) (bt.items (ensure bt i)))
