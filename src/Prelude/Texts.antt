-- ===== src/Prelude/Texts.antt =====
-- Go strings as lists of code points, and the functions of the standard package `strings` that
-- the program uses.
use Prim.Native.Char.{code}
use Prim.Native.Nat.{ℕ, ◌+◌, ◌-◌}
use Prim.Native.String.{String}
use mathlib.Core.Bool.{Bool, true, false, ◌&&◌, ◌||◌}
use mathlib.Core.List.{List, [], ◌∷◌, map, reverse}
use mathlib.Core.Logic.{◌↔◌}
use mathlib.Core.Path.{◌≡◌, refl}
use native.Mathlib.Omega.{arith}
use wealth.Prelude.Tests.{ltb, leb, nat_beq, if◌then◌else◌, Comparable}

abbrev pub Text : Type 0
Text = List ℕ

-- A literal.
abbrev pub lit : String → Text
lit String.[] = []
lit (String.◌∷◌ c s) = code c ∷ lit s

unfoldable pub same : Text → Text → Bool
same [] [] = true
same (a ∷ s) (b ∷ t) = nat_beq a b && same s t
same _ _ = false

pub same_iff : (s t : Text) → (same s t ≡ true) ↔ (s ≡ t)
unfolding same
same_iff (a ∷ s) (b ∷ t) = ground (arith, same_iff s t)
same_iff _ _ = ground arith

pub same_refl : (s : Text) → same s s ≡ true
same_refl s = (same_iff s s).1 refl

instance abbrev pub text_eq : Comparable Text
text_eq = record { equal = same; equal_sound = λ s t. (same_iff s t).0; equal_refl = same_refl }

-- `s == ""`
abbrev pub is_empty : Text → Bool
is_empty [] = true
is_empty _ = false

-- `strings.HasPrefix(s, p)`
unfoldable pub has_prefix : Text → Text → Bool
has_prefix s [] = true
has_prefix [] (b ∷ p) = false
has_prefix (a ∷ s) (b ∷ p) = nat_beq a b && has_prefix s p

-- `strings.Contains(s, p)`
unfoldable pub contains_text : Text → Text → Bool
contains_text [] p = has_prefix [] p
contains_text (a ∷ s) p = has_prefix (a ∷ s) p || contains_text s p

abbrev between : ℕ → ℕ → ℕ → Bool
between lo hi c = leb lo c && leb c hi

-- `unicode.ToUpper` on the code points below 256: the letters of ASCII and of Latin-1.
unfoldable pub upper_rune : ℕ → ℕ
upper_rune c =
    if between b'a' b'z' c || (between 0xE0 0xFE c && ltb c 0xF7) || between 0xF8 0xFE c
    then c - 32
    else if nat_beq c 0xFF
    then 0x178
    else if nat_beq c 0xB5
    then 0x39C
    else c

-- `unicode.ToLower` on the same code points.
unfoldable pub lower_rune : ℕ → ℕ
lower_rune c =
    if between b'A' b'Z' c || (between 0xC0 0xDE c && ltb c 0xD7) || between 0xD8 0xDE c
    then c + 32
    else c

unfoldable pub to_upper : Text → Text
unfolding upper_rune
to_upper = map upper_rune

unfoldable pub to_lower : Text → Text
unfolding lower_rune
to_lower = map lower_rune

-- `unicode.IsSpace` on the code points below 256.
unfoldable pub is_space : ℕ → Bool
is_space c = between 9 13 c || nat_beq c 32 || nat_beq c 0x85 || nat_beq c 0xA0

unfoldable pub trim_left : Text → Text
unfolding is_space
trim_left [] = []
trim_left (c ∷ s) = if is_space c then trim_left s else c ∷ s

-- `strings.TrimSpace`
unfoldable pub trim_space : Text → Text
unfolding trim_left
trim_space s = reverse (trim_left (reverse (trim_left s)))
