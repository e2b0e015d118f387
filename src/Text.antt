-- ===== src/Text.antt =====
-- Python's `str` as a list of code points, with the methods that the program calls.
pub mod Hex
pub mod Order
pub mod Compact
pub mod Utf8
use Prim.Native.Char.{code}
use dometic_ddmp.Base.{
  ℕ, ◌+◌, ◌-◌, String, Bool, true, false, ◌&&◌, ◌||◌, List, [], ◌∷◌, ◌++◌, map, leb, ltb, ◌==◌,
  if◌then◌else◌,
}

abbrev pub Text : Type 0
Text = List ℕ

-- The code points of a literal.
abbrev pub codes : String → Text
codes String.[] = []
codes (String.◌∷◌ c s) = code c ∷ codes s

-- What `str.strip` takes for white space (`str.isspace`).
unfoldable pub is_space : ℕ → Bool
is_space c =
    c == 32
    || (leb 9 c && leb c 13)
    || (leb 28 c && leb c 31)
    || c == 0x85
    || c == 0xa0
    || c == 0x1680
    || (leb 0x2000 c && leb c 0x200a)
    || c == 0x2028
    || c == 0x2029
    || c == 0x202f
    || c == 0x205f
    || c == 0x3000

-- `text.replace(c, "")`
unfoldable pub remove : ℕ → Text → Text
remove c [] = []
remove c (x ∷ s) = let rest = remove c s in if x == c then rest else x ∷ rest

-- `text.lower()`, as far as a comparison with an ASCII text can tell: no character outside ASCII
-- has letters of `1 true on yes` for its lower case.
unfoldable pub lower : Text → Text
lower = map (λ c. if leb b'A' c && leb c b'Z' then c + 32 else c)

-- `text.upper()`, as far as a comparison with an ASCII text can tell: the eleven characters outside
-- ASCII whose upper case is in ASCII are written out, and all other ones are kept.
unfoldable pub upper_char : ℕ → Text
upper_char c =
    if leb b'a' c && leb c b'z'
    then (c - 32) ∷ []
    else if c == 0xdf
    then codes "SS"
    else if c == 0x131
    then codes "I"
    else if c == 0x17f
    then codes "S"
    else if c == 0xfb00
    then codes "FF"
    else if c == 0xfb01
    then codes "FI"
    else if c == 0xfb02
    then codes "FL"
    else if c == 0xfb03
    then codes "FFI"
    else if c == 0xfb04
    then codes "FFL"
    else if c == 0xfb05 || c == 0xfb06
    then codes "ST"
    else c ∷ []

unfoldable pub upper : Text → Text
unfolding upper_char
upper [] = []
upper (c ∷ s) = upper_char c ++ upper s

-- `text.split(c)[0]`, and `text.partition(c)[0]`
unfoldable pub before_first : ℕ → Text → Text
before_first c [] = []
before_first c (x ∷ s) = let rest = before_first c s in if x == c then [] else x ∷ rest

-- `text.partition(c)[2]`
unfoldable pub after_first : ℕ → Text → Text
after_first c [] = []
after_first c (x ∷ s) = let rest = after_first c s in if x == c then s else rest

-- `text.split(c)`
abbrev pub onto_first : ℕ → List Text → List Text
onto_first x [] = (x ∷ []) ∷ []
onto_first x (s ∷ ss) = (x ∷ s) ∷ ss

unfoldable pub split : ℕ → Text → List Text
split c [] = [] ∷ []
split c (x ∷ s) = let rest = split c s in if x == c then [] ∷ rest else onto_first x rest

-- `".".join(labels)`
unfoldable pub join_dots : List Text → Text
join_dots [] = []
join_dots (label ∷ []) = label
join_dots (label ∷ next ∷ labels) = label ++ b'.' ∷ join_dots (next ∷ labels)

-- `a <= b` of two texts.
unfoldable pub text_leb : Text → Text → Bool
text_leb [] b = true
text_leb (x ∷ a) [] = false
text_leb (x ∷ a) (y ∷ b) = ltb x y || x == y && text_leb a b
