-- ===== src/Codec/RoundTrip.antt =====
-- All codecs together: a value that a topic can hold is encoded, and its bytes decode to it.
use dometic_ddmp.Base.{ℤ, ◌≡◌, Bool, List, [], append-nil, map, All, length}
use dometic_ddmp.Bytes.{Bytes, IsBytes, strip}
use dometic_ddmp.Result.{ok}
use dometic_ddmp.Text.{Text, is_space}
use dometic_ddmp.Text.Hex.{join_hex}
use dometic_ddmp.Text.Utf8
use dometic_ddmp.Words.{IsInt32, IsUint16}
use dometic_ddmp.Enums.{EnumClass}
use dometic_ddmp.Value.{int, bool, str, atom, Value, one, many, Floats}
use dometic_ddmp.Value.Milli.{FloatLaws}
use dometic_ddmp.Codec.{
  Codec, int32, int32_array, boolean, boolean_array, milli, milli_array, milli_pair_array, string,
  mac6, u16_array, enum, encode, float_of, enum_value, text_of,
}
use dometic_ddmp.Codec.Numbers.{
  RoundTrips, int32-RoundTrips, boolean-RoundTrips, milli-RoundTrips, array-RoundTrips,
  bools-RoundTrips, millis-RoundTrips, u16s-RoundTrips, enum-RoundTrips,
}
use dometic_ddmp.Codec.Pairs.{IsRange, range_item, ranges-RoundTrips}
use dometic_ddmp.Codec.Texts.{IsNonzero, decode_string-padded, encode-decode_mac6}

-- The values of each codec: integers in range, their thousandths, flags, members and numbers of an
-- enumeration, ranges, clean texts and hardware addresses.
pub data IsNormal {F : Type 0} ⦃fl : Floats F⦄ : Codec → Value F → Type 0 where
  number : (n : ℤ) → IsInt32 n → IsNormal int32 (one (int n))
  numbers :
      (ns : List ℤ) → All IsInt32 ns → IsNormal int32_array (many (map (λ n. atom (int n)) ns))
  flag : (b : Bool) → IsNormal boolean (one (bool b))
  flags : (bs : List Bool) → IsNormal boolean_array (many (map (λ b. atom (bool b)) bs))
  scaled : (n : ℤ) → IsInt32 n → IsNormal milli (one (float_of n))
  scaleds :
      (ns : List ℤ) → All IsInt32 ns → IsNormal milli_array (many (map (λ n. atom (float_of n)) ns))
  ranges :
      (rs : List (ℤ × ℤ)) → All IsRange rs → IsNormal milli_pair_array (many (map range_item rs))
  text :
      (s : Text) (raw : Bytes)
      → All IsNonzero s
      → strip is_space s ≡ s
      → Utf8.encode s ≡ ok raw
      → IsNormal string (one (str s))
  hardware :
      (raw : Bytes)
      → IsBytes raw
      → length raw ≡ 6
      → IsNormal mac6 (one (str (join_hex b'a' b':' raw)))
  codes : (ns : List ℤ) → All IsUint16 ns → IsNormal u16_array (many (map (λ n. atom (int n)) ns))
  choice : (cls : EnumClass) (n : ℤ) → IsInt32 n → IsNormal (enum cls) (one (enum_value cls n))

module _ (F : Type 0) ⦃fl : Floats F⦄ (laws : FloatLaws F) where
  string-RoundTrips :
      (s : Text) (raw : Bytes)
      → All IsNonzero s
      → strip is_space s ≡ s
      → Utf8.encode s ≡ ok raw
      → RoundTrips {F = F} string (one (str s))
  unfolding encode text_of
  string-RoundTrips s raw solid stripped e =
      let decoded = decode_string-padded F s raw 0 solid stripped e in
      (raw, e, rw append-nil at decoded)

  -- Under the laws of floats: whatever the codec, a value of `IsNormal` is encoded, and the bytes
  -- decode to it.
  pub encode-RoundTrips : (c : Codec) (v : Value F) → IsNormal c v → RoundTrips c v
  encode-RoundTrips c v (number n h) = int32-RoundTrips n h
  encode-RoundTrips c v (numbers ns h) = array-RoundTrips ns h
  encode-RoundTrips c v (flag b) = boolean-RoundTrips b
  encode-RoundTrips c v (flags bs) = bools-RoundTrips bs
  encode-RoundTrips c v (scaled n h) = milli-RoundTrips laws n h
  encode-RoundTrips c v (scaleds ns h) = millis-RoundTrips laws ns h
  encode-RoundTrips c v (ranges rs h) = ranges-RoundTrips F laws rs h
  encode-RoundTrips c v (text s raw solid stripped e) = string-RoundTrips s raw solid stripped e
  encode-RoundTrips c v (hardware raw h e) =
      let (decoded, encoded) = encode-decode_mac6 F raw [] h e in
      (raw, encoded, rw append-nil at decoded)
  encode-RoundTrips c v (codes ns h) = u16s-RoundTrips ns h
  encode-RoundTrips c v (choice cls n h) = enum-RoundTrips cls n h
