-- ===== src/Base64/Digits.antt =====
-- The base64 alphabet, forth and back.
use dometic_ddmp.Base.{
  ℕ, ◌+◌, ◌-◌, ◌<◌, ◌≡◌, false, ◌&&◌, Option, none, some, leb, ltb, ◌==◌, if◌then◌else◌, arith,
}
use dometic_ddmp.Bytes.{is_space}

abbrev pub pad : ℕ
pad = b'='

unfoldable pub digit : ℕ → ℕ
digit n =
    if ltb n 26
    then n + 65
    else if ltb n 52
    then n + 71
    else if ltb n 62
    then n - 4
    else if n == 62
    then b'+'
    else b'/'

unfoldable pub sextet : ℕ → Option ℕ
sextet c =
    if leb b'A' c && leb c b'Z'
    then some (c - 65)
    else if leb b'a' c && leb c b'z'
    then some (c - 71)
    else if leb b'0' c && leb c b'9'
    then some (c + 4)
    else if c == b'+'
    then some 62
    else if c == b'/'
    then some 63
    else none

pub sextet-digit : (n : ℕ) → n < 64 → sextet (digit n) ≡ some n
unfolding sextet digit
sextet-digit n h = ground arith

pub digit-ne-pad : (n : ℕ) → n < 64 → (digit n == pad) ≡ false
unfolding digit
digit-ne-pad n h = ground arith

-- A character that neither ends a line nor is stripped from it.
abbrev pub IsPlain : ℕ → Type 0
IsPlain c = (is_space c ≡ false) × (c < 256)

pub digit-IsPlain : (n : ℕ) → n < 64 → IsPlain (digit n)
unfolding digit is_space
digit-IsPlain n h = ground arith

pub pad-IsPlain : IsPlain pad
unfolding is_space
pad-IsPlain = ground arith
