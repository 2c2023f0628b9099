-- ===== src/Base/Strings.antt =====
-- The parts of packages strings and strconv that the program uses, on the bytes of a text.
use Prim.Native.Nat.{ℕ, zero, suc, ◌+◌, ◌-◌, ◌*◌, ◌^◌}
use mathlib.Core.Bool.{Bool, true, false, ◌&&◌, ◌||◌}
use mathlib.Core.Option.{Option, none, some}
use mathlib.Core.List.{List, [], ◌∷◌}
use lumenvec.Base.Tests.{nat_eq, ltb, leb, if◌then◌else◌, ◌==◌}
use lumenvec.Base.Texts.{
  Text, Text-Eq, text_eq, bytes, is_blank, is_ascii_space, is_space2, is_space3,
}
use lumenvec.Base.Ints.{ℤ, pos, negsuc}

unfoldable pub trim_left : Text → Text
trim_left [] = []
trim_left (a ∷ []) = if is_ascii_space a then [] else a ∷ []
trim_left (a ∷ b ∷ []) =
    let one = trim_left (b ∷ []) in
    if is_ascii_space a then one else if is_space2 a b then [] else a ∷ b ∷ []
trim_left (a ∷ b ∷ c ∷ s) =
    let one = trim_left (b ∷ c ∷ s) in
    let two = trim_left (c ∷ s) in
    let three = trim_left s in
    if is_ascii_space a
    then one
    else if is_space2 a b
    then two
    else if is_space3 a b c
    then three
    else a ∷ b ∷ c ∷ s

unfoldable pub trim_right : Text → Text
trim_right [] = []
trim_right (a ∷ s) = let rest = trim_right s in if is_blank (a ∷ s) then [] else a ∷ rest

-- strings.TrimSpace
unfoldable pub trim_space : Text → Text
unfolding trim_left trim_right is_blank
trim_space s = trim_right (trim_left s)

-- strings.ToLower, up to letters that no comparison with an ASCII text tells apart: beside A to Z
-- only U+0130 and U+212A have an ASCII letter as their lower case.
unfoldable pub to_lower : Text → Text
to_lower [] = []
to_lower (a ∷ []) = (if leb b'A' a && leb a b'Z' then a + 32 else a) ∷ []
to_lower (a ∷ b ∷ []) =
    let rest = to_lower (b ∷ []) in
    if nat_eq a 0xc4 && nat_eq b 0xb0
    then b'i' ∷ []
    else (if leb b'A' a && leb a b'Z' then a + 32 else a) ∷ rest
to_lower (a ∷ b ∷ c ∷ s) =
    let rest = to_lower (b ∷ c ∷ s) in
    let two = to_lower (c ∷ s) in
    let three = to_lower s in
    if nat_eq a 0xc4 && nat_eq b 0xb0
    then b'i' ∷ two
    else if nat_eq a 0xe2 && nat_eq b 0x84 && nat_eq c 0xaa
    then b'k' ∷ three
    else (if leb b'A' a && leb a b'Z' then a + 32 else a) ∷ rest

-- strings.HasPrefix
unfoldable pub has_prefix : Text → Text → Bool
has_prefix s [] = true
has_prefix [] (b ∷ p) = false
has_prefix (a ∷ s) (b ∷ p) = nat_eq a b && has_prefix s p

-- strings.Split(s, ","): the fields between the commas.
unfoldable pub split_commas : Text → List Text
split_commas [] = [] ∷ []
split_commas (a ∷ s) =
    let rest = split_commas s in
    if nat_eq a b',' then [] ∷ rest else elim rest [ [] ↦ (a ∷ []) ∷ [] | f ∷ fs ↦ (a ∷ f) ∷ fs ]

-- strconv.ParseBool
unfoldable pub parse_bool : Text → Option Bool
unfolding text_eq
parse_bool s =
    if s == bytes "1"
      || s == bytes "t"
      || s == bytes "T"
      || s == bytes "true"
      || s == bytes "TRUE"
      || s == bytes "True"
    then some true
    else if s == bytes "0"
        || s == bytes "f"
        || s == bytes "F"
        || s == bytes "false"
        || s == bytes "FALSE"
        || s == bytes "False"
    then some false
    else none

unfoldable pub digits_from : ℕ → Text → Option ℕ
digits_from n [] = some n
digits_from n (c ∷ s) =
    let rest = digits_from (n * 10 + (c - b'0')) s in
    if leb b'0' c && leb c b'9' then rest else none

unfoldable pub digits : Text → Option ℕ
unfolding digits_from
digits [] = none
digits (c ∷ s) = digits_from 0 (c ∷ s)

abbrev signed : Bool → ℕ → Option ℤ
signed true zero = some (pos zero)
signed true (suc n) = if leb (suc n) (2 ^ 63) then some (negsuc n) else none
signed false n = if ltb n (2 ^ 63) then some (pos n) else none

abbrev signed_digits : Bool → Option ℕ → Option ℤ
signed_digits neg none = none
signed_digits neg (some n) = signed neg n

-- strconv.Atoi and strconv.ParseInt(s, 10, 64) on a 64-bit machine
unfoldable pub parse_int : Text → Option ℤ
unfolding digits
parse_int [] = none
parse_int (c ∷ s) =
    if nat_eq c b'-'
    then signed_digits true (digits s)
    else if nat_eq c b'+'
    then signed_digits false (digits s)
    else signed_digits false (digits (c ∷ s))
