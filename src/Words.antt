-- ===== src/Words.antt =====
-- The little-endian integers of the standard library's `struct`: `<i`, `<I` as bytes, and `<H`.
pub mod Laws
use dometic_ddmp.Base.{
  ℕ, ◌+◌, ◌-◌, ◌*◌, ◌/◌, ◌%◌, ◌^◌, ℤ, pos, negsuc, ◌≤ℤ◌, List, [], ◌∷◌, leb, ltb, if◌then◌else◌,
}
use dometic_ddmp.Bytes.{Bytes}
use dometic_ddmp.Result.{Result, ok, err, struct_error}

-- The integers that `<i` can pack.
abbrev pub IsInt32 : ℤ → Type 0
IsInt32 n = (negsuc (2 ^ 31 - 1) ≤ℤ n) × (n ≤ℤ pos (2 ^ 31 - 1))

abbrev pub word_bytes : ℕ → Bytes
word_bytes w = (w % 256) ∷ (w / 256 % 256) ∷ (w / 65536 % 256) ∷ (w / 16777216 % 256) ∷ []

-- `struct.pack("<i", n)`, in two's complement.
unfoldable pub pack_i32 : ℤ → Result Bytes
pack_i32 (pos n) = if ltb n (2 ^ 31) then ok (word_bytes n) else err struct_error
pack_i32 (negsuc n) = if ltb n (2 ^ 31) then ok (word_bytes (2 ^ 32 - 1 - n)) else err struct_error

abbrev pub signed : ℕ → ℤ
signed w = if ltb w (2 ^ 31) then pos w else negsuc (2 ^ 32 - 1 - w)

-- The integer that four bytes stand for.
unfoldable pub word : ℕ → ℕ → ℕ → ℕ → ℤ
word a b c d = signed (a + b * 256 + c * 65536 + d * 16777216)

-- `struct.iter_unpack("<i", payload[:usable])`: bytes that do not fill a word are left out.
unfoldable pub i32s : Bytes → List ℤ
unfolding word
i32s (a ∷ b ∷ c ∷ d ∷ rest) = word a b c d ∷ i32s rest
i32s _ = []

-- The integers that `<H` can pack.
abbrev pub IsUint16 : ℤ → Type 0
IsUint16 n = (pos 0 ≤ℤ n) × (n ≤ℤ pos 65535)

-- `struct.pack("<H", n)`
unfoldable pub pack_u16 : ℤ → Result Bytes
pack_u16 (pos n) = if ltb n 65536 then ok ((n % 256) ∷ (n / 256) ∷ []) else err struct_error
pack_u16 (negsuc n) = err struct_error

unfoldable pub u16s : Bytes → List ℤ
u16s (a ∷ b ∷ rest) = pos (a + b * 256) ∷ u16s rest
u16s _ = []
