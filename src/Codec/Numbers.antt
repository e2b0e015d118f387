-- ===== src/Codec/Numbers.antt =====
-- Numbers and flags, alone and in arrays: encoded, and decoded as they were.
use dometic_ddmp.Base.{
  ◌/◌, ◌%◌, ◌≡◌, refl, ap, ℤ, pos, negsuc, Bool, true, false, not, beq_ℤ, List, [], ◌∷◌, map, All,
  All-imp, if◌then◌else◌, arith,
}
use dometic_ddmp.Bytes.{Bytes, concat}
use dometic_ddmp.Result.{ok, traverse, traverse-map, traverse_ext, traverse-total}
use dometic_ddmp.Words.{IsInt32, IsUint16, pack_i32, pack_u16}
use dometic_ddmp.Words.Laws.{word-pack_i32, i32s-traverse, u16s-traverse}
use dometic_ddmp.Enums.{EnumClass}
use dometic_ddmp.Value.{
  int, bool, Item, atom, Value, one, many, Floats, truthy, truthy_item, int_atom, float_atom,
  as_atom, item_atom, items,
}
use dometic_ddmp.Value.Milli.{FloatLaws}
use dometic_ddmp.Codec.{
  Codec, int32, int32_array, boolean, boolean_array, milli, milli_array, u16_array, enum, decode,
  encode, float_of, enum_value, first_word, pack_int, pack_bool, pack_milli, enum_number,
}

abbrev bit : Bool → ℤ
bit b = if b then pos 1 else pos 0

not-bit : (b : Bool) → not (beq_ℤ (bit b) (pos 0)) ≡ b
not-bit true = refl
not-bit false = refl

bits-not : (bs : List Bool) → map (λ n. not (beq_ℤ n (pos 0))) (map bit bs) ≡ bs
bits-not [] = refl
bits-not (b ∷ bs) = rw (not-bit b, bits-not bs)

bit-IsInt32 : (b : Bool) → IsInt32 (bit b)
bit-IsInt32 true = omega arith
bit-IsInt32 false = omega arith

bits-IsInt32 : (bs : List Bool) → All IsInt32 (map bit bs)
bits-IsInt32 [] = tt
bits-IsInt32 (b ∷ bs) = (bit-IsInt32 b, bits-IsInt32 bs)

pack-total :
    (ns : List ℤ) → All IsInt32 ns → (chunks : List Bytes) × (traverse pack_i32 ns ≡ ok chunks)
pack-total [] h = ([], refl)
pack-total (n ∷ ns) h =
    let (a, b, c, d, packed, _, _) = word-pack_i32 n h.0 in
    let (chunks, e) = pack-total ns h.1 in ((a ∷ b ∷ c ∷ d ∷ []) ∷ chunks, rw (packed, e))

-- A packed word is the first word of its bytes.
pub first_word-pack_i32 :
    (n : ℤ) → IsInt32 n → (raw : Bytes) × (pack_i32 n ≡ ok raw) × (first_word raw ≡ ok n)
unfolding first_word
first_word-pack_i32 n h =
    let (a, b, c, d, packed, same, _) = word-pack_i32 n h in
    (a ∷ b ∷ c ∷ d ∷ [], packed, ap ok same)

pack_u16-total : (n : ℤ) → IsUint16 n → (raw : Bytes) × (pack_u16 n ≡ ok raw)
unfolding pack_u16
pack_u16-total (pos n) h = ((n % 256) ∷ (n / 256) ∷ [], ground arith)
pack_u16-total (negsuc n) h = absurd (omega arith)

module _ (F : Type 0) ⦃fl : Floats F⦄ where
  enum_number-enum_value :
      (cls : EnumClass) (n : ℤ) → enum_number {F = F} cls (enum_value cls n) ≡ ok n
  unfolding enum_number enum_value int_atom
  enum_number-enum_value cls n = ground arith

  pub pack_milli-float_of :
      (laws : FloatLaws F) (n : ℤ) → IsInt32 n → pack_milli {F = F} (float_of n) ≡ pack_i32 n
  unfolding pack_milli float_atom
  pack_milli-float_of laws n h = rw (laws.to_milli-of_milli n h)

module _ {F : Type 0} ⦃fl : Floats F⦄ where
  -- The bytes that `encode` makes, and that they decode to the value.
  abbrev pub RoundTrips : Codec → Value F → Type 0
  RoundTrips c v = (raw : Bytes) × (encode c v ≡ ok raw) × (decode c raw ≡ ok v)

  pub int32-RoundTrips : (n : ℤ) → IsInt32 n → RoundTrips int32 (one (int n))
  unfolding encode decode as_atom pack_int int_atom
  int32-RoundTrips n h =
      let (raw, packed, unpacked) = first_word-pack_i32 n h in (raw, packed, rw unpacked)

  pub boolean-RoundTrips : (b : Bool) → RoundTrips boolean (one (bool b))
  unfolding encode decode truthy pack_bool
  boolean-RoundTrips b =
      let (raw, packed, unpacked) = first_word-pack_i32 (bit b) (bit-IsInt32 b) in
      (raw, packed, rw (unpacked, not-bit b))

  pub milli-RoundTrips :
      (laws : FloatLaws F) (n : ℤ) → IsInt32 n → RoundTrips milli (one (float_of n))
  unfolding encode decode as_atom pack_milli float_atom
  milli-RoundTrips laws n h =
      let (raw, packed, unpacked) = first_word-pack_i32 n h in
      (raw, rw (laws.to_milli-of_milli n h) packed, rw unpacked)

  pub array-RoundTrips :
      (ns : List ℤ) → All IsInt32 ns → RoundTrips int32_array (many (map (λ n. atom (int n)) ns))
  unfolding encode decode items item_atom pack_int int_atom
  array-RoundTrips ns h =
      let (chunks, e) = pack-total ns h in
      (concat chunks, rw (traverse-map _ _ ns, e), rw (i32s-traverse ns chunks e))

  bools-decoded :
      (bs : List Bool)
      → ◌≡◌ {A = List (Item F)}
          (map (λ n. atom (bool (not (beq_ℤ n (pos 0))))) (map bit bs))
          (map (λ b. atom (bool b)) bs)
  bools-decoded [] = refl
  bools-decoded (b ∷ bs) = cc (not-bit b, bools-decoded bs)

  pub bools-RoundTrips :
      (bs : List Bool) → RoundTrips boolean_array (many (map (λ b. atom (bool b)) bs))
  unfolding encode decode items truthy_item pack_bool
  bools-RoundTrips bs =
      let (chunks, e) = pack-total (map bit bs) (bits-IsInt32 bs) in
      (
        concat chunks,
        rw (traverse-map _ _ bs, ← traverse-map pack_i32 bit bs, e),
        rw (i32s-traverse (map bit bs) chunks e) (ap ok (ap many (bools-decoded bs))),
      )

  pub millis-RoundTrips :
      (laws : FloatLaws F) (ns : List ℤ)
      → All IsInt32 ns
      → RoundTrips milli_array (many (map (λ n. atom (float_of n)) ns))
  unfolding encode decode items item_atom
  millis-RoundTrips laws ns h =
      let (chunks, e) = pack-total ns h in
      let agree = All-imp IsInt32 _ (pack_milli-float_of F laws) ns h in
      (
        concat chunks,
        rw (traverse-map _ _ ns, traverse_ext _ pack_i32 ns agree, e),
        rw (i32s-traverse ns chunks e),
      )

  pub u16s-RoundTrips :
      (ns : List ℤ) → All IsUint16 ns → RoundTrips u16_array (many (map (λ n. atom (int n)) ns))
  unfolding encode decode items item_atom int_atom
  u16s-RoundTrips ns h =
      let (chunks, e) = traverse-total pack_u16 ns (All-imp IsUint16 _ pack_u16-total ns h) in
      (concat chunks, rw (traverse-map _ _ ns, e), rw (u16s-traverse ns chunks e))

  pub enum-RoundTrips :
      (cls : EnumClass) (n : ℤ) → IsInt32 n → RoundTrips (enum cls) (one (enum_value cls n))
  unfolding encode decode as_atom
  enum-RoundTrips cls n h =
      let (raw, packed, unpacked) = first_word-pack_i32 n h in
      (raw, rw (enum_number-enum_value F cls n) packed, rw unpacked)
