-- ===== src/Words/Laws.antt =====
-- Packing and unpacking are inverse.
use dometic_ddmp.Base.{ℕ, ◌-◌, ◌/◌, ◌%◌, ◌^◌, ℤ, pos, negsuc, ◌≡◌, List, [], ◌∷◌, ◌++◌, arith}
use dometic_ddmp.Bytes.{Bytes, IsBytes, concat}
use dometic_ddmp.Result.{ok, traverse, >>=-eq-ok}
use dometic_ddmp.Words.{IsInt32, pack_i32, word, i32s, pack_u16, u16s}

-- Every integer in range is packed into four bytes, which unpack to it.
pub word-pack_i32 :
    (n : ℤ)
    → IsInt32 n
    → (a b c d : ℕ) × (pack_i32 n ≡ ok (a ∷ b ∷ c ∷ d ∷ []))
      × (word a b c d ≡ n)
      × IsBytes (a ∷ b ∷ c ∷ d ∷ [])
unfolding pack_i32 word
word-pack_i32 (pos n) h = (
  n % 256,
  n / 256 % 256,
  n / 65536 % 256,
  n / 16777216 % 256,
  ground arith,
  ground arith,
  omega arith,
)
word-pack_i32 (negsuc n) h =
    let w = 2 ^ 32 - 1 - n in
    (
      w % 256,
      w / 256 % 256,
      w / 65536 % 256,
      w / 16777216 % 256,
      ground arith,
      ground arith,
      omega arith,
    )

-- A number out of range is refused.
pub pack_i32-IsInt32 : (n : ℤ) (raw : Bytes) → pack_i32 n ≡ ok raw → IsInt32 n
unfolding pack_i32
pack_i32-IsInt32 (pos n) raw h = ground arith
pack_i32-IsInt32 (negsuc n) raw h = ground arith

-- Four bytes are the packing of what they unpack to.
pub pack_i32-word :
    (a b c d : ℕ) → IsBytes (a ∷ b ∷ c ∷ d ∷ []) → pack_i32 (word a b c d) ≡ ok (a ∷ b ∷ c ∷ d ∷ [])
unfolding pack_i32 word
pack_i32-word a b c d h = ground arith

pub i32s-pack_i32 :
    (n : ℤ) (raw rest : Bytes) → pack_i32 n ≡ ok raw → i32s (raw ++ rest) ≡ n ∷ i32s rest
unfolding i32s
i32s-pack_i32 n raw rest h =
    let (a, b, c, d, packed, same, _) = word-pack_i32 n (pack_i32-IsInt32 n raw h) in
    ground (arith, h, packed, same)

-- A list of integers, packed one behind the other, is unpacked as the list.
pub i32s-traverse :
    (ns : List ℤ) (chunks : List Bytes)
    → traverse pack_i32 ns ≡ ok chunks
    → i32s (concat chunks) ≡ ns
unfolding i32s
i32s-traverse [] chunks h = ground arith
i32s-traverse (n ∷ ns) chunks h =
    let (raw, packed, more) = >>=-eq-ok (pack_i32 n) _ h in
    let (rest, later, e) = >>=-eq-ok (traverse pack_i32 ns) _ more in
    ground (arith, e, i32s-pack_i32 n raw (concat rest) packed, i32s-traverse ns rest later)

u16s-pack_u16 :
    (n : ℤ) (raw rest : Bytes) → pack_u16 n ≡ ok raw → u16s (raw ++ rest) ≡ n ∷ u16s rest
unfolding u16s pack_u16
u16s-pack_u16 (pos n) raw rest h = ground arith
u16s-pack_u16 (negsuc n) raw rest h = ground arith

pub u16s-traverse :
    (ns : List ℤ) (chunks : List Bytes)
    → traverse pack_u16 ns ≡ ok chunks
    → u16s (concat chunks) ≡ ns
unfolding u16s
u16s-traverse [] chunks h = ground arith
u16s-traverse (n ∷ ns) chunks h =
    let (raw, packed, more) = >>=-eq-ok (pack_u16 n) _ h in
    let (rest, later, e) = >>=-eq-ok (traverse pack_u16 ns) _ more in
    ground (arith, e, u16s-pack_u16 n raw (concat rest) packed, u16s-traverse ns rest later)
