-- ===== src/Text.antt =====
-- Go's strings and the functions of package strings that the program calls, over lists of Unicode
-- code points. A string of the program is valid UTF-8: it comes from a JSON body, a form or a
-- literal. The case of a letter above ASCII is read from a table, the argument `Letters`.
pub mod Laws
use Prim.Native.Char.{code}
use Prim.Native.String.{String}
use tu_dns.Prelude.{
  ℕ, ◌+◌, ◌-◌, Bool, true, false, not, ◌&&◌, ◌||◌, List, [], ◌∷◌, ◌++◌, map, Option, none, some,
  ltb, leb, ◌==◌, if◌then◌else◌,
}
use mathlib.Core.List.{reverse}

abbrev pub Text : Type 0
Text = List ℕ

-- The code points of a literal.
abbrev pub text : String → Text
text String.[] = []
text (String.◌∷◌ c s) = code c ∷ text s

abbrev pub text_eq : Text → Text → Bool
text_eq [] [] = true
text_eq [] (d ∷ t) = false
text_eq (c ∷ s) [] = false
text_eq (c ∷ s) (d ∷ t) = (c == d) && text_eq s t

abbrev pub is_empty : Text → Bool
is_empty [] = true
is_empty (c ∷ s) = false

-- The number of bytes that UTF-8 uses for a code point, and for a text: Go's `len`.
unfoldable pub utf8_len : ℕ → ℕ
utf8_len c = if ltb c 0x80 then 1 else if ltb c 0x800 then 2 else if ltb c 0x10000 then 3 else 4

unfoldable pub byte_len : Text → ℕ
unfolding utf8_len
byte_len [] = 0
byte_len (c ∷ s) = utf8_len c + byte_len s

-- `unicode.ToLower` and `unicode.ToUpper` above ASCII.
pub record Letters : Type 0 where
  pub lower : ℕ → ℕ
  pub upper : ℕ → ℕ

unfoldable pub lower_rune : Letters → ℕ → ℕ
lower_rune l c = if ltb c 0x80 then (if leb b'A' c && leb c b'Z' then c + 32 else c) else l.lower c

unfoldable pub upper_rune : Letters → ℕ → ℕ
upper_rune l c = if ltb c 0x80 then (if leb b'a' c && leb c b'z' then c - 32 else c) else l.upper c

-- `strings.ToLower` and `strings.ToUpper`.
unfoldable pub to_lower : Letters → Text → Text
unfolding lower_rune
to_lower l = map (lower_rune l)

unfoldable pub to_upper : Letters → Text → Text
unfolding upper_rune
to_upper l = map (upper_rune l)

-- `unicode.IsSpace`.
unfoldable pub is_space : ℕ → Bool
is_space c =
    (leb 9 c && leb c 13)
    || c == 0x20
    || c == 0x85
    || c == 0xA0
    || c == 0x1680
    || (leb 0x2000 c && leb c 0x200A)
    || c == 0x2028
    || c == 0x2029
    || c == 0x202F
    || c == 0x205F
    || c == 0x3000

unfoldable pub trim_left : Text → Text
unfolding is_space
trim_left [] = []
trim_left (c ∷ s) = if is_space c then trim_left s else c ∷ s

-- `strings.TrimSpace`.
unfoldable pub trim_space : Text → Text
unfolding trim_left
trim_space s = reverse (trim_left (reverse (trim_left s)))

-- What is left of a text behind a prefix.
unfoldable pub after_prefix : Text → Text → Option Text
after_prefix [] s = some s
after_prefix (c ∷ p) [] = none
after_prefix (c ∷ p) (d ∷ s) = if c == d then after_prefix p s else none

unfoldable pub has_prefix : Text → Text → Bool
unfolding after_prefix
has_prefix s p = elim (after_prefix p s) [ none ↦ false | some rest ↦ true ]

unfoldable pub trim_prefix : Text → Text → Text
unfolding after_prefix
trim_prefix s p = elim (after_prefix p s) [ none ↦ s | some rest ↦ rest ]

unfoldable pub has_suffix : Text → Text → Bool
unfolding has_prefix
has_suffix s p = has_prefix (reverse s) (reverse p)

unfoldable pub trim_suffix : Text → Text → Text
unfolding after_prefix
trim_suffix s p = elim (after_prefix (reverse p) (reverse s)) [
  | none ↦ s
  | some rest ↦ reverse rest
]

-- `strings.Split` at one character: never empty, and one piece more than there are separators.
abbrev add_front : ℕ → List Text → List Text
add_front c [] = (c ∷ []) ∷ []
add_front c (piece ∷ rest) = (c ∷ piece) ∷ rest

unfoldable pub split : ℕ → Text → List Text
split sep [] = [] ∷ []
split sep (c ∷ s) = let rest = split sep s in if c == sep then [] ∷ rest else add_front c rest
