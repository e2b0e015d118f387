-- ===== src/Text/Utf8.antt =====
-- UTF-8: `str.encode("utf-8")`, and `bytes.decode("utf-8", errors="replace")`, which puts U+FFFD for
-- every longest piece of a broken sequence.
pub mod RoundTrip
pub mod Scalars
use dometic_ddmp.Base.{
  ℕ, ◌+◌, ◌-◌, ◌*◌, ◌/◌, ◌%◌, ◌&&◌, List, [], ◌∷◌, ◌++◌, leb, ltb, ◌==◌, if◌then◌else◌,
}
use dometic_ddmp.Bytes.{Bytes}
use dometic_ddmp.Result.{Result, ok, err, value_error, ◌>>=◌}

abbrev pub replacement : ℕ
replacement = 0xfffd

-- One code point; surrogates and numbers above 0x10ffff cannot be encoded.
unfoldable pub encode_char : ℕ → Result Bytes
encode_char c =
    if ltb c 0x80
    then ok (c ∷ [])
    else if ltb c 0x800
    then ok ((0xc0 + c / 0x40) ∷ (0x80 + c % 0x40) ∷ [])
    else if leb 0xd800 c && leb c 0xdfff
    then err value_error
    else if ltb c 0x10000
    then ok ((0xe0 + c / 0x1000) ∷ (0x80 + c / 0x40 % 0x40) ∷ (0x80 + c % 0x40) ∷ [])
    else if ltb c 0x110000
    then ok (
        (0xf0 + c / 0x40000)
        ∷ (0x80 + c / 0x1000 % 0x40)
        ∷ (0x80 + c / 0x40 % 0x40)
        ∷ (0x80 + c % 0x40)
        ∷ [])
    else err value_error

unfoldable pub encode : List ℕ → Result Bytes
encode [] = ok []
encode (c ∷ s) = do first ← encode_char c; rest ← encode s; ok (first ++ rest)

-- Between two characters, or before `left` more bytes, the next one from `lo` to `hi`.
pub data State : Type 0 where
  ground : State
  inside : (left lo hi acc : ℕ) → State

-- The first byte of a sequence.
unfoldable pub begin : ℕ → List ℕ × State
begin b =
    if ltb b 0x80
    then (b ∷ [], ground)
    else if leb 0xc2 b && leb b 0xdf
    then ([], inside 1 0x80 0xbf (b - 0xc0))
    else if b == 0xe0
    then ([], inside 2 0xa0 0xbf 0)
    else if b == 0xed
    then ([], inside 2 0x80 0x9f 13)
    else if leb 0xe1 b && leb b 0xef
    then ([], inside 2 0x80 0xbf (b - 0xe0))
    else if b == 0xf0
    then ([], inside 3 0x90 0xbf 0)
    else if leb 0xf1 b && leb b 0xf3
    then ([], inside 3 0x80 0xbf (b - 0xf0))
    else if b == 0xf4
    then ([], inside 3 0x80 0x8f 4)
    else (replacement ∷ [], ground)

unfoldable pub step : State → ℕ → List ℕ × State
unfolding begin
step ground b = begin b
step (inside left lo hi acc) b =
    if leb lo b && leb b hi
    then (if left == 1
        then ((acc * 0x40 + (b - 0x80)) ∷ [], ground)
        else ([], inside (left - 1) 0x80 0xbf (acc * 0x40 + (b - 0x80))))
    else (replacement ∷ (begin b).0, (begin b).1)

unfoldable pub run : State → Bytes → List ℕ
unfolding step
run ground [] = []
run (inside left lo hi acc) [] = replacement ∷ []
run s (b ∷ bs) = let (out, s') = step s b in out ++ run s' bs

unfoldable pub decode : Bytes → List ℕ
unfolding run
decode bs = run ground bs
