-- ===== src/Text/Compact.antt =====
-- Hexadecimal bytes with separators, read back once the separators are removed.
use dometic_ddmp.Base.{
  ℕ, ◌/◌, ◌%◌, ◌<◌, ◌≡◌, refl, ◌⊎◌, false, [], ◌∷◌, ◌++◌, append-nil, ◌==◌, arith,
}
use dometic_ddmp.Bytes.{Bytes, IsBytes, is_space}
use dometic_ddmp.Result.{ok}
use dometic_ddmp.Text.{Text, remove}
use dometic_ddmp.Text.Hex.{
  IsTen, hex_digit, hex_digit_plain, hex2, hex2-byte, join_hex, from_hex, from_hex-hex2,
}

pub remove-keep : (c x : ℕ) (s : Text) → (x == c) ≡ false → remove c (x ∷ s) ≡ x ∷ remove c s
unfolding remove
remove-keep c x s h = rw h

pub remove_self : (c : ℕ) (s : Text) → remove c (c ∷ s) ≡ remove c s
unfolding remove
remove_self c s = ground arith

pub remove-nil : (c : ℕ) → remove c [] ≡ []
unfolding remove
remove-nil c = refl

-- The separators that the program uses: the colon and the space.
abbrev pub IsSeparator : ℕ → Type 0
IsSeparator sep = (sep ≡ b':') ⊎ (sep ≡ 32)

digit-keep :
    (letter sep n : ℕ)
    → IsTen letter
    → IsSeparator sep
    → n < 16
    → (hex_digit letter n == sep) ≡ false
digit-keep letter sep n ten separates h = ground (arith, hex_digit_plain letter n ten h)

-- The two digits of a byte are kept.
pub remove-hex2 :
    (letter sep b : ℕ) (s : Text)
    → IsTen letter
    → IsSeparator sep
    → b < 256
    → remove sep (hex2 letter b ++ s)
      ≡ hex_digit letter (b / 16) ∷ hex_digit letter (b % 16) ∷ remove sep s
remove-hex2 letter sep b s ten separates h = rw (
  hex2-byte letter b h,
  remove-keep sep _ _ (digit-keep letter sep (b / 16) ten separates (omega arith)),
  remove-keep sep _ _ (digit-keep letter sep (b % 16) ten separates (omega arith)),
)

pub from_hex-join_hex :
    (letter sep : ℕ) (bs : Bytes)
    → IsTen letter
    → IsSeparator sep
    → IsBytes bs
    → from_hex (remove sep (join_hex letter sep bs)) ≡ ok bs
unfolding join_hex
from_hex-join_hex letter sep [] ten separates h = unfold from_hex remove in refl
from_hex-join_hex letter sep (b ∷ []) ten separates h =
    let kept = remove-hex2 letter sep b [] ten separates h.0 in
    let kept' : remove sep (hex2 letter b) ≡ _ = rw append-nil at kept in
    rw (kept', remove-nil, from_hex-hex2 letter b [] ten h.0) (unfold from_hex in refl)
from_hex-join_hex letter sep (b ∷ c ∷ bs) ten separates h = rw (
  remove-hex2 letter sep b _ ten separates h.0,
  remove_self,
  from_hex-hex2 letter b _ ten h.0,
  from_hex-join_hex letter sep (c ∷ bs) ten separates h.1,
)

-- `bytes.fromhex` passes over a space before a byte.
pub from_hex_space :
    (letter c : ℕ) (bs : Bytes)
    → c < 256
    → from_hex (32 ∷ join_hex letter 32 (c ∷ bs)) ≡ from_hex (join_hex letter 32 (c ∷ bs))
unfolding from_hex join_hex is_space
from_hex_space letter c [] h = rw (hex2-byte letter c h) refl
from_hex_space letter c (d ∷ bs) h = rw (hex2-byte letter c h) refl

-- Bytes in hexadecimal with spaces between them are read as the bytes.
pub from_hex-spaced :
    (letter : ℕ) (bs : Bytes) → IsTen letter → IsBytes bs → from_hex (join_hex letter 32 bs) ≡ ok bs
unfolding join_hex
from_hex-spaced letter [] ten h = unfold from_hex in refl
from_hex-spaced letter (b ∷ []) ten h =
    rw (hex2-byte letter b h.0, from_hex-hex2 letter b [] ten h.0) (unfold from_hex in refl)
from_hex-spaced letter (b ∷ c ∷ bs) ten h = rw (
  hex2-byte letter b h.0,
  from_hex-hex2 letter b _ ten h.0,
  from_hex_space letter c bs h.1.0,
  from_hex-spaced letter (c ∷ bs) ten h.1,
)
