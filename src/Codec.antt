-- ===== src/Codec.antt =====
-- The codecs of src/ddmp/protocol.py: payload bytes to a value and back.
pub mod Numbers
pub mod Pairs
pub mod Texts
pub mod RoundTrip
pub mod Normal
pub mod Refusal
use dometic_ddmp.Base.{
  ℕ, ℤ, pos, Bool, true, not, none, some, List, [], ◌∷◌, map, length, take, beq_ℤ, leb, ◌==◌,
  if◌then◌else◌,
}
use dometic_ddmp.Bytes.{Bytes, strip, concat}
use dometic_ddmp.Result.{
  Result, ok, err, Error, decode_error, key_error, struct_error, ◌>>=◌, ◌>>◌, guard, traverse,
}
use dometic_ddmp.Text.{Text, codes, is_space, remove, upper}
use dometic_ddmp.Text.Hex.{join_hex, from_hex}
use dometic_ddmp.Text.Utf8
use dometic_ddmp.Enums.{EnumClass, member_name, member_value}
use dometic_ddmp.Words.{pack_i32, word, i32s, pack_u16, u16s}
use dometic_ddmp.Value.{
  Atom, int, bool, float, str, bytes, member, Item, atom, pair, Value, one, many, Floats, truthy,
  truthy_item, int_atom, float_atom, as_atom, item_atom, items, unpack,
}

pub data Codec : Type 0 where
  int32 int32_array boolean boolean_array milli milli_array milli_pair_array string mac6 : Codec
  u16_array : Codec
  enum : EnumClass → Codec

-- The attribute `kind`.
unfoldable pub kind : Codec → Text
kind int32 = codes "int32"
kind int32_array = codes "int32[]"
kind boolean = codes "bool"
kind boolean_array = codes "bool[]"
kind milli = codes "milli"
kind milli_array = codes "milli[]"
kind milli_pair_array = codes "milli-pair[]"
kind string = codes "str"
kind mac6 = codes "mac"
kind u16_array = codes "uint16[]"
kind (enum cls) = codes "enum"

-- `_need`
unfoldable pub need : Bytes → ℕ → Result (Unit {0})
need payload n = guard (leb n (length payload)) decode_error

-- `struct.unpack_from("<i", payload)[0]`
unfoldable pub unpack_from : Bytes → Result ℤ
unfolding word
unpack_from (a ∷ b ∷ c ∷ d ∷ rest) = ok (word a b c d)
unpack_from short = err struct_error

unfoldable pub first_word : Bytes → Result ℤ
unfolding need unpack_from
first_word payload = need payload 4 >> unpack_from payload

-- What stands before the first zero byte: `payload.split(b"\x00", 1)[0]`.
unfoldable pub until_nul : Bytes → Bytes
until_nul [] = []
until_nul (b ∷ bs) = let rest = until_nul bs in if b == 0 then [] else b ∷ rest

-- `struct.pack("<i", 1 if v else 0)`
unfoldable pub pack_bool : Bool → Result Bytes
pack_bool b = pack_i32 (if b then pos 1 else pos 0)

module _ {F : Type 0} ⦃fl : Floats F⦄ where
  abbrev pub float_of : ℤ → Atom F
  float_of n = float (fl.of_milli n)

  -- `(values[i] / 1000, values[i + 1] / 1000)` for the even `i`; an odd last value is left out.
  unfoldable pub pairs : List ℤ → List (Item F)
  pairs (lo ∷ hi ∷ rest) = pair (float_of lo) (float_of hi) ∷ pairs rest
  pairs _ = []

  -- `self.enum_cls(raw)`, or the number where there is no such member.
  unfoldable pub enum_value : EnumClass → ℤ → Atom F
  enum_value cls n = elim (member_name cls n) [ some _ ↦ member cls n | none ↦ int n ]

  -- `codec.decode(payload)`
  unfoldable pub decode : Codec → Bytes → Result (Value F)
  decode int32 payload = do n ← first_word payload; ok (one (int n))
  decode int32_array payload = ok (many (map (λ n. atom (int n)) (i32s payload)))
  decode boolean payload = do n ← first_word payload; ok (one (bool (not (beq_ℤ n (pos 0)))))
  decode boolean_array payload =
      ok (many (map (λ n. atom (bool (not (beq_ℤ n (pos 0))))) (i32s payload)))
  decode milli payload = do n ← first_word payload; ok (one (float_of n))
  decode milli_array payload = ok (many (map (λ n. atom (float_of n)) (i32s payload)))
  decode milli_pair_array payload = ok (many (pairs (i32s payload)))
  decode string payload = ok (one (str (strip is_space (Utf8.decode (until_nul payload)))))
  decode mac6 payload = need payload 6 >> ok (one (str (join_hex b'a' b':' (take 6 payload))))
  decode u16_array payload = ok (many (map (λ n. atom (int n)) (u16s payload)))
  decode (enum cls) payload = do n ← first_word payload; ok (one (enum_value cls n))

  -- `struct.pack("<i", int(v))`
  unfoldable pub pack_int : Atom F → Result Bytes
  pack_int a = int_atom a >>= pack_i32

  -- `struct.pack("<i", round(float(v) * 1000))`
  unfoldable pub pack_milli : Atom F → Result Bytes
  pack_milli a = do x ← float_atom a; n ← fl.to_milli x; pack_i32 n

  -- `struct.pack("<ii", ...)` of a pair: both numbers are rounded before one is packed.
  unfoldable pub pack_pair : Item F → Result Bytes
  pack_pair v = do
    (lo, hi) ← unpack v
    x ← float_atom lo
    m ← fl.to_milli x
    y ← float_atom hi
    n ← fl.to_milli y
    first ← pack_i32 m
    second ← pack_i32 n
    ok (concat (first ∷ second ∷ []))

  -- `if isinstance(value, str): value = self.enum_cls[value.upper()]`
  unfoldable pub enum_number : EnumClass → Atom F → Result ℤ
  enum_number cls (str t) = elim (member_value cls (upper t)) [
    | some n ↦ ok n
    | none ↦ err key_error
  ]
  enum_number cls a = int_atom a

  -- `str(value)`
  unfoldable pub text_of : Value F → Text
  text_of (one (str t)) = t
  text_of v = fl.str_of v

  -- `codec.encode(value)`
  unfoldable pub encode : Codec → Value F → Result Bytes
  encode int32 v = do a ← as_atom v; pack_int a
  encode int32_array v = do
    xs ← items v
    chunks ← traverse (λ x. item_atom x >>= pack_int) xs
    ok (concat chunks)
  encode boolean v = pack_bool (truthy v)
  encode boolean_array v = do
    xs ← items v
    chunks ← traverse (λ x. pack_bool (truthy_item x)) xs
    ok (concat chunks)
  encode milli v = do a ← as_atom v; pack_milli a
  encode milli_array v = do
    xs ← items v
    chunks ← traverse (λ x. item_atom x >>= pack_milli) xs
    ok (concat chunks)
  encode milli_pair_array v = do xs ← items v; chunks ← traverse pack_pair xs; ok (concat chunks)
  encode string v = Utf8.encode (text_of v)
  encode mac6 v = from_hex (remove b':' (text_of v))
  encode u16_array v = do
    xs ← items v
    chunks ← traverse (λ x. item_atom x >>= int_atom >>= pack_u16) xs
    ok (concat chunks)
  encode (enum cls) v = do a ← as_atom v; n ← enum_number cls a; pack_i32 n
