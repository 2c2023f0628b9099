-- ===== src/Base/Texts.antt =====
-- Go strings as their bytes: `==`, `<` and `strings.TrimSpace(s) == ""`.
use Prim.Native.Nat.{ℕ}
use Prim.Native.Char.{code}
use Prim.Native.String.{String}
use mathlib.Core.Path.{◌≡◌, refl}
use mathlib.Core.Logic.{◌↔◌}
use mathlib.Core.Bool.{Bool, true, false, ◌&&◌, ◌||◌}
use mathlib.Core.List.{List, [], ◌∷◌}
use native.Mathlib.Omega.{arith}
use lumenvec.Base.Tests.{nat_eq, ltb, leb, if◌then◌else◌, Eq}

abbrev pub Text : Type 0
Text = List ℕ

-- The bytes of an ASCII literal.
abbrev pub bytes : String → Text
bytes String.[] = []
bytes (String.◌∷◌ c s) = code c ∷ bytes s

unfoldable pub text_eq : Text → Text → Bool
text_eq [] [] = true
text_eq (a ∷ s) (b ∷ t) = nat_eq a b && text_eq s t
text_eq _ _ = false

pub text_eq_refl : (s : Text) → text_eq s s ≡ true
unfolding text_eq
text_eq_refl [] = refl
text_eq_refl (a ∷ s) = ground (arith, text_eq_refl s)

text_eq→eq : (s t : Text) → text_eq s t ≡ true → s ≡ t
unfolding text_eq
text_eq→eq [] [] h = refl
text_eq→eq (a ∷ s) (b ∷ t) h = ground (arith, text_eq→eq s t)
text_eq→eq [] (b ∷ t) h = ground arith
text_eq→eq (a ∷ s) [] h = ground arith

pub text_eq_iff : (s t : Text) → (text_eq s t ≡ true) ↔ (s ≡ t)
text_eq_iff s t = (text_eq→eq s t, λ e. ground (arith, text_eq_refl s))

instance abbrev pub Text-Eq : Eq Text
Text-Eq = record { test = text_eq; test_iff = text_eq_iff }

-- Byte-wise lexicographic order, Go's `<` on strings.
unfoldable pub text_ltb : Text → Text → Bool
text_ltb s [] = false
text_ltb [] (b ∷ t) = true
text_ltb (a ∷ s) (b ∷ t) = if nat_eq a b then text_ltb s t else ltb a b

-- The code points of Unicode's White_Space below U+0100, and the others by their UTF-8 bytes.
abbrev pub is_ascii_space : ℕ → Bool
is_ascii_space c = nat_eq c 32 || (leb 9 c && leb c 13)

abbrev pub is_space2 : ℕ → ℕ → Bool
is_space2 a b = nat_eq a 0xc2 && (nat_eq b 0x85 || nat_eq b 0xa0)

abbrev pub is_space3 : ℕ → ℕ → ℕ → Bool
is_space3 a b c =
    (nat_eq a 0xe1 && nat_eq b 0x9a && nat_eq c 0x80)
    || (nat_eq a 0xe2
        && nat_eq b 0x80
        && ((leb 0x80 c && leb c 0x8a) || nat_eq c 0xa8 || nat_eq c 0xa9 || nat_eq c 0xaf))
    || (nat_eq a 0xe2 && nat_eq b 0x81 && nat_eq c 0x9f)
    || (nat_eq a 0xe3 && nat_eq b 0x80 && nat_eq c 0x80)

-- `strings.TrimSpace(s) == ""`: the text is a sequence of encoded spaces.
unfoldable pub is_blank : Text → Bool
is_blank [] = true
is_blank (a ∷ []) = is_ascii_space a
is_blank (a ∷ b ∷ []) = (is_ascii_space a && is_blank (b ∷ [])) || is_space2 a b
is_blank (a ∷ b ∷ c ∷ s) =
    (is_ascii_space a && is_blank (b ∷ c ∷ s))
    || (is_space2 a b && is_blank (c ∷ s))
    || (is_space3 a b c && is_blank s)

text_ltb_irrefl : (s : Text) → text_ltb s s ≡ false
unfolding text_ltb
text_ltb_irrefl [] = refl
text_ltb_irrefl (a ∷ s) = ground (arith, text_ltb_irrefl s)

-- A text is never both before and after another.
pub text_ltb_asymm : (s t : Text) → text_ltb s t ≡ true → text_ltb t s ≡ false
unfolding text_ltb
text_ltb_asymm [] [] h = refl
text_ltb_asymm [] (b ∷ t) h = refl
text_ltb_asymm (a ∷ s) [] h = ground arith
text_ltb_asymm (a ∷ s) (b ∷ t) h = ground (arith, text_ltb_asymm s t)

pub text_ltb_trans :
    (s t u : Text) → text_ltb s t ≡ true → text_ltb t u ≡ true → text_ltb s u ≡ true
unfolding text_ltb
text_ltb_trans s t [] h k = ground arith
text_ltb_trans s [] (c ∷ u) h k = absurd (ground arith)
text_ltb_trans [] (b ∷ t) (c ∷ u) h k = refl
text_ltb_trans (a ∷ s) (b ∷ t) (c ∷ u) h k = ground (arith, text_ltb_trans s t u)
