-- ===== src/Listing/Cursors.antt =====
-- The ids above a cursor in a sorted list.
use lumenvec.Base.{
  ℕ, zero, suc, ◌≤◌, ◌<◌, ◌≡◌, refl, sym, ap, true, false, List, [], ◌∷◌, ◌++◌, Text, Text-Eq,
  text_eq, text_ltb, text_ltb_asymm, text_ltb_trans, ◌==◌, length, take, drop, All, arith,
}
use lumenvec.OrderedIds.{IsAscending, contains}
use lumenvec.OrderedIds.Pages.{above, rest_after}
use lumenvec.Listing.{last_id}

abbrev pub Exceeds : Text → Text → Type 0
Exceeds a x = text_ltb a x ≡ true

abbrev pub IsSorted : List Text → Type 0
IsSorted [] = Unit
IsSorted (x ∷ xs) = All (Exceeds x) xs × IsSorted xs

pub All-Exceeds :
    (a x : Text) (xs : List Text) → Exceeds a x → All (Exceeds x) xs → All (Exceeds a) xs
All-Exceeds a x [] h k = tt
All-Exceeds a x (y ∷ xs) h k = (text_ltb_trans a x y h k.0, All-Exceeds a x xs h k.1)

pub ascending-IsSorted : (xs : List Text) → IsAscending xs → IsSorted xs
ascending-IsSorted [] h = tt
ascending-IsSorted (x ∷ []) h = (tt, tt)
ascending-IsSorted (x ∷ y ∷ xs) h =
    let rest = ascending-IsSorted (y ∷ xs) h.1 in ((h.0, All-Exceeds x y xs h.0 rest.0), rest)

pub above-All : (a : Text) (xs : List Text) → All (Exceeds a) (above a xs)
above-All a [] = tt
above-All a (x ∷ xs) = ground (arith, above-All a xs)

pub above-Exceeds :
    (b a : Text) (xs : List Text) → All (Exceeds b) xs → All (Exceeds b) (above a xs)
above-Exceeds b a [] h = tt
above-Exceeds b a (x ∷ xs) h = ground (arith, above-Exceeds b a xs h.1)

pub above-IsSorted : (a : Text) (xs : List Text) → IsSorted xs → IsSorted (above a xs)
above-IsSorted a [] h = tt
above-IsSorted a (x ∷ xs) h = ground (arith, above-IsSorted a xs h.1, above-Exceeds x a xs h.0)

-- Ids above a higher cursor are among those above a lower one.
pub above-above :
    (a b : Text) (xs : List Text) → text_ltb a b ≡ true → above b (above a xs) ≡ above b xs
above-above a b [] h = refl
above-above a b (x ∷ xs) h = ground (arith, above-above a b xs h, text_ltb_trans a b x h)

pub above_of_exceeding : (a : Text) (xs : List Text) → All (Exceeds a) xs → above a xs ≡ xs
above_of_exceeding a [] h = refl
above_of_exceeding a (x ∷ xs) h = ground (arith, above_of_exceeding a xs h.1)

pub last_id-Exceeds :
    (a : Text) (xs : List Text) (n : ℕ)
    → All (Exceeds a) xs
    → n < length xs
    → text_ltb a (last_id (take (suc n) xs)) ≡ true
last_id-Exceeds a [] n h k = absurd (omega arith)
last_id-Exceeds a (x ∷ xs) zero h k = h.0
last_id-Exceeds a (x ∷ []) (suc n) h k = h.0
last_id-Exceeds a (x ∷ y ∷ xs) (suc n) h k = last_id-Exceeds a (y ∷ xs) n h.1 (omega arith)

-- The ids above the last one of a page are those behind the page.
pub above-last_id :
    (xs : List Text) (n : ℕ)
    → IsSorted xs
    → n < length xs
    → above (last_id (take (suc n) xs)) xs ≡ drop (suc n) xs
above-last_id [] n h k = refl
above-last_id (x ∷ xs) zero h k = ground (arith, text_ltb_asymm x x, above_of_exceeding x xs h.0)
above-last_id (x ∷ []) (suc n) h k = absurd (omega arith)
above-last_id (x ∷ y ∷ xs) (suc n) h k = ground (
  arith,
  above-last_id (y ∷ xs) n h.1,
  last_id-Exceeds x (y ∷ xs) n h.0,
  text_ltb_asymm x (last_id (take (suc n) (y ∷ xs))),
)

-- The ids that come after a cursor, the empty one included, where no id is empty.
pub rest-above :
    (after : Text) (ids : List Text) → All (Exceeds []) ids → rest_after after ids ≡ above after ids
rest-above [] ids h = sym (above_of_exceeding [] ids h)
rest-above (c ∷ after) ids h = refl

pub nonempty-Exceeds : (ids : List Text) → contains [] ids ≡ false → All (Exceeds []) ids
unfolding text_eq text_ltb
nonempty-Exceeds [] h = tt
nonempty-Exceeds ([] ∷ ids) h = ground arith
nonempty-Exceeds ((c ∷ x) ∷ ids) h = (refl, nonempty-Exceeds ids h)

pub Exceeds-nonempty : (a x : Text) → text_ltb a x ≡ true → x == [] ≡ false
unfolding text_eq text_ltb
Exceeds-nonempty a [] h = ground arith
Exceeds-nonempty a (c ∷ x) h = refl

pub take-take : (n : ℕ) (xs : List Text) → take n (take (suc n) xs) ≡ take n xs
take-take zero xs = refl
take-take (suc n) [] = refl
take-take (suc n) (x ∷ xs) = ap (◌∷◌ x) (take-take n xs)

pub length-take_more : (n : ℕ) (xs : List Text) → n < length xs → length (take (suc n) xs) ≡ suc n
length-take_more zero [] h = absurd (omega arith)
length-take_more (suc n) [] h = absurd (omega arith)
length-take_more zero (x ∷ xs) h = refl
length-take_more (suc n) (x ∷ xs) h = ap suc (length-take_more n xs (omega arith))

pub take-short : (n : ℕ) (xs : List Text) → length xs ≤ n → take n xs ≡ xs
take-short zero [] h = refl
take-short zero (x ∷ xs) h = absurd (omega arith)
take-short (suc n) [] h = refl
take-short (suc n) (x ∷ xs) h = ap (◌∷◌ x) (take-short n xs (omega arith))

pub take-drop : (n : ℕ) (xs : List Text) → take n xs ++ drop n xs ≡ xs
take-drop zero xs = refl
take-drop (suc n) [] = refl
take-drop (suc n) (x ∷ xs) = ap (◌∷◌ x) (take-drop n xs)

pub length-drop-lt : (n : ℕ) (xs : List Text) → n < length xs → length (drop (suc n) xs) < length xs
length-drop-lt n [] h = absurd (omega arith)
length-drop-lt zero (x ∷ xs) h = omega arith
length-drop-lt (suc n) (x ∷ xs) h = omega (arith, length-drop-lt n xs (omega arith))
