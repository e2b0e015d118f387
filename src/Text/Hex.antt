-- ===== src/Text/Hex.antt =====
-- Hexadecimal text: `f"{b:02X}"`, `bytes.hex`, `bytes.fromhex`.
use dometic_ddmp.Base.{
  ℕ, zero, suc, ◌+◌, ◌-◌, ◌*◌, ◌/◌, ◌%◌, ◌<◌, ◌≡◌, refl, ap, ◌∙◌, ◌⊎◌, true, false, ◌&&◌, Option,
  none, some, List, [], ◌∷◌, ◌++◌, leb, ltb, ◌==◌, if◌then◌else◌, arith,
}
use dometic_ddmp.Bytes.{Bytes, is_space}
use dometic_ddmp.Result.{Result, ok, err, value_error, ◌>>=◌}

-- One digit; `letter` is the digit ten, `b'A'` or `b'a'`.
unfoldable pub hex_digit : ℕ → ℕ → ℕ
hex_digit letter n = if ltb n 10 then n + 48 else n - 10 + letter

-- The digits of a number that is larger than a byte, before those given.
hex_above : ℕ → ℕ → ℕ → List ℕ → List ℕ
hex_above letter zero n digits = digits
hex_above letter (suc fuel) n digits =
    let rest = hex_above letter fuel (n / 16) (hex_digit letter (n % 16) ∷ digits) in
    if n == 0 then digits else rest

-- At least two digits.
unfoldable pub hex2 : ℕ → ℕ → List ℕ
unfolding hex_digit hex_above
hex2 letter b =
    hex_above letter b (b / 256) (hex_digit letter (b / 16 % 16) ∷ hex_digit letter (b % 16) ∷ [])

-- `sep.join(...)` of the bytes in hexadecimal.
unfoldable pub join_hex : ℕ → ℕ → Bytes → List ℕ
join_hex letter sep [] = []
join_hex letter sep (b ∷ []) = hex2 letter b
join_hex letter sep (b ∷ c ∷ rest) = hex2 letter b ++ sep ∷ join_hex letter sep (c ∷ rest)

unfoldable pub hex_value : ℕ → Option ℕ
hex_value c =
    if leb b'0' c && leb c b'9'
    then some (c - 48)
    else if leb b'a' c && leb c b'f'
    then some (c - 87)
    else if leb b'A' c && leb c b'F'
    then some (c - 55)
    else none

abbrev byte_of : Option ℕ → Option ℕ → Result ℕ
byte_of (some h) (some l) = ok (h * 16 + l)
byte_of (some h) none = err value_error
byte_of none l = err value_error

-- `bytes.fromhex`: pairs of digits, with ASCII white space between the pairs.
unfoldable pub from_hex : List ℕ → Result Bytes
from_hex [] = ok []
from_hex (c ∷ []) = if is_space c then ok [] else err value_error
from_hex (c ∷ d ∷ s) = elim (is_space c) [
  | true ↦ from_hex (d ∷ s)
  | false ↦ (do b ← byte_of (hex_value c) (hex_value d); rest ← from_hex s; ok (b ∷ rest))
]

pub hex2-byte :
    (letter b : ℕ)
    → b < 256
    → hex2 letter b ≡ hex_digit letter (b / 16) ∷ hex_digit letter (b % 16) ∷ []
unfolding hex2
hex2-byte letter zero h = refl
hex2-byte letter (suc b) h = ground arith

-- The letter ten, in either case.
abbrev pub IsTen : ℕ → Type 0
IsTen letter = (letter ≡ b'A') ⊎ (letter ≡ b'a')

pub hex_value-hex_digit :
    (letter n : ℕ) → IsTen letter → n < 16 → hex_value (hex_digit letter n) ≡ some n
unfolding hex_value hex_digit
hex_value-hex_digit letter n ten h = ground arith

-- A digit is no white space, no space and no colon.
pub hex_digit_plain :
    (letter n : ℕ)
    → IsTen letter
    → n < 16
    → (is_space (hex_digit letter n) ≡ false)
      × ((hex_digit letter n == b':') ≡ false)
      × ((hex_digit letter n == 32) ≡ false)
unfolding hex_digit is_space
hex_digit_plain letter n ten h = ground arith

from_hex_pair :
    (c d h l : ℕ) (s : List ℕ)
    → is_space c ≡ false
    → hex_value c ≡ some h
    → hex_value d ≡ some l
    → from_hex (c ∷ d ∷ s) ≡ (from_hex s >>= λ rest. ok ((h * 16 + l) ∷ rest))
unfolding from_hex
from_hex_pair c d h l s p q r = rw (p, from_hex) (rw (q, r))

-- Two digits are read as their byte.
pub from_hex-hex2 :
    (letter b : ℕ) (s : List ℕ)
    → IsTen letter
    → b < 256
    → from_hex (hex_digit letter (b / 16) ∷ hex_digit letter (b % 16) ∷ s)
      ≡ (from_hex s >>= λ rest. ok (b ∷ rest))
from_hex-hex2 letter b s ten h =
    from_hex_pair _ _ (b / 16) (b % 16) s (hex_digit_plain letter (b / 16) ten (omega arith)).0
      (hex_value-hex_digit letter (b / 16) ten (omega arith))
      (hex_value-hex_digit letter (b % 16) ten (omega arith))
    ∙ ap (λ (x : ℕ). from_hex s >>= λ rest. ok (x ∷ rest)) (omega arith)
