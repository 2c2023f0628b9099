-- ===== src/Tests/Instances.antt =====
-- Concrete instances of what the model takes as a parameter.
use lumenvec.Base.{
  text_eq, ℕ, ◌+◌, ◌≡◌, refl, Bool, true, false, ◌||◌, List, [], ◌∷◌, Text, Text-Eq, text_eq_iff,
  text_ltb, ◌==◌, nat_eq, length, err, done, invalid_values, if◌then◌else◌, arith,
}
use lumenvec.Numeric.{Floats}
use lumenvec.OrderedIds.{BTree, IsAscending, contains}
use lumenvec.AnnInterface.{AnnIndex}

-- Three numbers with their IEEE 754 patterns.
pub data Number : Type 0 where
  nought : Number
  one : Number
  two : Number

abbrev pub pattern32 : Number → ℕ
pattern32 nought = 0
pattern32 one = 0x3f800000
pattern32 two = 0x40000000

abbrev pub pattern64 : Number → ℕ
pattern64 nought = 0
pattern64 one = 0x3ff0000000000000
pattern64 two = 0x4000000000000000

abbrev pub numbers : Floats
numbers = record {
  F64 = Number;
  F32 = Number;
  to32 = λ x. x;
  to64 = λ x. x;
  bits32 = pattern32;
  from_bits32 = λ n. if nat_eq n 0 then nought else if nat_eq n 0x3f800000 then one else two;
  bits64 = pattern64;
  from_bits64 =
      λ n. if nat_eq n 0 then nought else if nat_eq n 0x3ff0000000000000 then one else two;
  to32-to64 = λ x. refl;
  bits32-lt = elim [ nought ↦ omega arith | one ↦ omega arith | two ↦ omega arith ];
  bits64-lt = elim [ nought ↦ omega arith | one ↦ omega arith | two ↦ omega arith ];
  from_bits32-bits32 = elim [ nought ↦ refl | one ↦ refl | two ↦ refl ];
  from_bits64-bits64 = elim [ nought ↦ refl | one ↦ refl | two ↦ refl ];
}

-- An ANN index that keeps its dimension and two counts, and refuses what does not fit.
pub record Counts : Type 0 where
  pub dim : ℕ
  pub nodes : ℕ
  pub deleted : ℕ

abbrev accepts : ℕ → ℕ → Bool
accepts dim n = nat_eq dim 0 || nat_eq dim n

abbrev pub counting : AnnIndex numbers
counting = record {
  State = Counts;
  new = record { dim = 0; nodes = 0; deleted = 0 };
  add_vector = λ id v s.
      if accepts s.dim (length v)
      then (done, record { dim = length v; nodes = s.nodes + 1; deleted = s.deleted })
      else (err invalid_values, s);
  delete_vector = λ id s. record s { deleted = s.deleted + 1 };
  nodes = λ s. s.nodes;
  deleted = λ s. s.deleted;
  dim = λ s. s.dim;
  dim-new = refl;
  add-fits = λ id v s h e. ground arith;
}

-- An ordered set as the sorted form of a list.
text_ltb_total : (s t : Text) → s == t ≡ false → text_ltb s t ≡ false → text_ltb t s ≡ true
unfolding text_eq text_ltb
text_ltb_total [] [] e h = ground arith
text_ltb_total [] (b ∷ t) e h = ground arith
text_ltb_total (a ∷ s) [] e h = refl
text_ltb_total (a ∷ s) (b ∷ t) e h = ground (arith, text_ltb_total s t)

abbrev put : Text → List Text → List Text
put k [] = k ∷ []
put k (x ∷ xs) =
    let rest = put k xs in if x == k then x ∷ xs else if text_ltb k x then k ∷ x ∷ xs else x ∷ rest

abbrev sorted : List Text → List Text
sorted [] = []
sorted (x ∷ xs) = put x (sorted xs)

abbrev without : Text → List Text → List Text
without k [] = []
without k (x ∷ xs) = let rest = without k xs in if x == k then rest else x ∷ rest

pub put-IsAscending : (k : Text) (xs : List Text) → IsAscending xs → IsAscending (put k xs)
put-IsAscending k [] h = tt
put-IsAscending k (x ∷ []) h = ground (arith, text_ltb_total k x, text_eq_iff x k, text_eq_iff k x)
put-IsAscending k (x ∷ y ∷ xs) h =
    ground
      (arith, text_ltb_total k x, text_eq_iff x k, text_eq_iff k x, put-IsAscending k (y ∷ xs) h.1)

pub sorted-IsAscending : (xs : List Text) → IsAscending (sorted xs)
sorted-IsAscending [] = tt
sorted-IsAscending (x ∷ xs) = put-IsAscending x (sorted xs) (sorted-IsAscending xs)

pub contains-put :
    (k j : Text) (xs : List Text) → contains j (put k xs) ≡ (if k == j then true else contains j xs)
contains-put k j [] = ground arith
contains-put k j (x ∷ xs) = ground (arith, contains-put k j xs, text_eq_iff x k, text_eq_iff k j)

pub contains-sorted : (j : Text) (xs : List Text) → contains j (sorted xs) ≡ contains j xs
contains-sorted j [] = refl
contains-sorted j (x ∷ xs) = ground (arith, contains-sorted j xs, contains-put x j (sorted xs))

pub contains-without :
    (k j : Text) (xs : List Text)
    → contains j (without k xs) ≡ (if k == j then false else contains j xs)
contains-without k j [] = ground arith
contains-without k j (x ∷ xs) =
    ground (arith, contains-without k j xs, text_eq_iff x k, text_eq_iff k j, text_eq_iff x j)

abbrev pub sorted_set : BTree
sorted_set = record {
  Tree = List Text;
  new = [];
  replace_or_insert = λ k t. k ∷ t;
  delete = without;
  items = sorted;
  items-new = refl;
  items-ascending = sorted-IsAscending;
  contains-insert = λ k j t. contains-put k j (sorted t);
  contains-delete = λ k j t.
      ground (arith, contains-sorted j (without k t), contains-sorted j t, contains-without k j t);
}
