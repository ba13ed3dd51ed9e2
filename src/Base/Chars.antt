-- ===== src/Base/Chars.antt =====
-- Texts that a program walks, as lists of character codes, with the string functions of the
-- standard library that the program calls on them.
use Prim.Native.Nat.{ℕ, zero, suc, ◌-◌}
use Prim.Native.Char.{code}
use Prim.Native.String.{String}
use mathlib.Core.Bool.{Bool, true, false, ◌&&◌, ◌||◌}
use mathlib.Core.List.{List, [], ◌∷◌, ◌++◌, reverse}
use lilnouns_monorepo.Base.Tests.{◌==◌, leb}
use lilnouns_monorepo.Base.Lists.{length}

abbrev pub Chars : Type 0
Chars = List ℕ

-- The codes of a literal.
abbrev pub codes : String → Chars
codes String.[] = []
codes (String.◌∷◌ c s) = code c ∷ codes s

unfoldable pub is_prefix : Chars → Chars → Bool
is_prefix [] t = true
is_prefix (c ∷ p) [] = false
is_prefix (c ∷ p) (d ∷ t) = c == d && is_prefix p t

-- Equality of texts.
unfoldable pub text_eq : Chars → Chars → Bool
text_eq [] [] = true
text_eq [] (c ∷ t) = false
text_eq (c ∷ s) [] = false
text_eq (c ∷ s) (d ∷ t) = c == d && text_eq s t

unfoldable pub push : ℕ → List Chars → List Chars
push c [] = (c ∷ []) ∷ []
push c (p ∷ ps) = (c ∷ p) ∷ ps

-- The pieces of a text between the occurrences of a separator; `skip` counts the characters of
-- the occurrence being passed over.
unfoldable pub split_from : Chars → ℕ → Chars → List Chars
split_from sep skip [] = [] ∷ []
split_from sep (suc skip) (c ∷ t) = split_from sep skip t
split_from sep zero (c ∷ t) = elim (is_prefix sep (c ∷ t)) [
  | true ↦ [] ∷ split_from sep (length sep - 1) t
  | false ↦ push c (split_from sep zero t)
]

-- `s.split(sep)` at a separator that is not empty
unfoldable pub split : Chars → Chars → List Chars
unfolding split_from is_prefix push
split t sep = split_from sep 0 t

-- `pieces.join(sep)`
unfoldable pub join : List Chars → Chars → Chars
join [] sep = []
join (p ∷ []) sep = p
join (p ∷ q ∷ ps) sep = p ++ (sep ++ join (q ∷ ps) sep)

unfoldable pub is_space : ℕ → Bool
is_space c =
    leb 9 c && leb c 13
    || c == 32
    || c == 0xa0
    || c == 0x1680
    || leb 0x2000 c && leb c 0x200a
    || c == 0x2028
    || c == 0x2029
    || c == 0x202f
    || c == 0x205f
    || c == 0x3000
    || c == 0xfeff

unfoldable pub trim_start : Chars → Chars
trim_start [] = []
trim_start (c ∷ t) = elim (is_space c) [ true ↦ trim_start t | false ↦ c ∷ t ]

-- `s.trim()`
unfoldable pub trim : Chars → Chars
unfolding trim_start is_space
trim t = reverse (trim_start (reverse (trim_start t)))

-- `s.replaceAll(sep, '')`
unfoldable pub remove_all : Chars → Chars → Chars
unfolding split join
remove_all t sep = join (split t sep) []
