-- ===== src/Codec/Normal.antt =====
-- What the codecs of src/ddmp/protocol.py can decode payloads to.
use dometic_ddmp.Base.{
  ℕ, zero, suc, ℤ, pos, ◌≡◌, refl, ap, ◌≤◌, ◌==◌, not, beq_ℤ, List, [], ◌∷◌, map, map-map, All,
  All-imp, length, take, inl, inr, Bool-cases, arith,
}
use dometic_ddmp.Bytes.{Bytes, IsBytes, strip, strip-All, strip_again}
use dometic_ddmp.Result.{ok, >>=-eq-ok}
use dometic_ddmp.Text.{is_space}
use dometic_ddmp.Text.Hex.{join_hex}
use dometic_ddmp.Text.Utf8
use dometic_ddmp.Text.Utf8.Scalars.{IsScalar, decode-AreScalars, encode-total}
use dometic_ddmp.Words.{IsInt32, IsUint16, word, i32s, u16s}
use dometic_ddmp.Value.{int, bool, str, atom, Value, one, many, Floats}
use dometic_ddmp.Value.Milli.{FloatLaws}
use dometic_ddmp.Codec.{
  Codec, int32, int32_array, boolean, boolean_array, milli, milli_array, milli_pair_array, string,
  mac6, u16_array, enum, decode, float_of, enum_value, first_word, unpack_from, need, until_nul,
  pairs,
}
use dometic_ddmp.Codec.Numbers.{RoundTrips}
use dometic_ddmp.Codec.Pairs.{IsRange, range_item}
use dometic_ddmp.Codec.Texts.{IsNonzero}
use dometic_ddmp.Codec.RoundTrip.{
  encode-RoundTrips, IsNormal, number, numbers, flag, flags, scaled, scaleds, ranges, text,
  hardware, codes, choice,
}

word-IsInt32 :
    (a b c d : ℕ) (rest : Bytes) → IsBytes (a ∷ b ∷ c ∷ d ∷ rest) → IsInt32 (word a b c d)
unfolding word
word-IsInt32 a b c d rest h = ground arith

i32s-AreInt32 : (raw : Bytes) → IsBytes raw → All IsInt32 (i32s raw)
unfolding i32s
i32s-AreInt32 (a ∷ b ∷ c ∷ d ∷ rest) h = (word-IsInt32 a b c d rest h, i32s-AreInt32 rest h.1.1.1.1)
i32s-AreInt32 [] h = tt
i32s-AreInt32 (a ∷ []) h = tt
i32s-AreInt32 (a ∷ b ∷ []) h = tt
i32s-AreInt32 (a ∷ b ∷ c ∷ []) h = tt

u16s-AreUint16 : (raw : Bytes) → IsBytes raw → All IsUint16 (u16s raw)
unfolding u16s
u16s-AreUint16 (a ∷ b ∷ rest) h = (omega arith, u16s-AreUint16 rest h.1.1)
u16s-AreUint16 [] h = tt
u16s-AreUint16 (a ∷ []) h = tt

first_word-IsInt32 : (raw : Bytes) (n : ℤ) → IsBytes raw → first_word raw ≡ ok n → IsInt32 n
unfolding first_word need unpack_from
first_word-IsInt32 (a ∷ b ∷ c ∷ d ∷ rest) n h e =
    let same : word a b c d ≡ n = ground arith in rw⁻¹ same (word-IsInt32 a b c d rest h)
first_word-IsInt32 [] n h e = absurd (ground arith)
first_word-IsInt32 (a ∷ []) n h e = absurd (ground arith)
first_word-IsInt32 (a ∷ b ∷ []) n h e = absurd (ground arith)
first_word-IsInt32 (a ∷ b ∷ c ∷ []) n h e = absurd (ground arith)

take-IsBytes : (n : ℕ) (raw : Bytes) → IsBytes raw → IsBytes (take n raw)
take-IsBytes zero raw h = tt
take-IsBytes (suc n) [] h = tt
take-IsBytes (suc n) (b ∷ raw) h = (h.0, take-IsBytes n raw h.1)

length-take_within : (n : ℕ) (raw : Bytes) → n ≤ length raw → length (take n raw) ≡ n
length-take_within zero raw h = refl
length-take_within (suc n) [] h = absurd (omega arith)
length-take_within (suc n) (b ∷ raw) h = ap suc (length-take_within n raw (omega arith))

until_nul-AreNonzero : (raw : Bytes) → All IsNonzero (until_nul raw)
unfolding until_nul
until_nul-AreNonzero [] = tt
until_nul-AreNonzero (b ∷ raw) = elim (Bool-cases (b == 0)) [
  | inl e ↦ rw (until_nul, e) tt
  | inr e ↦ rw (until_nul, e) (e, until_nul-AreNonzero raw)
]

need-within : (raw : Bytes) (n : ℕ) (u : Unit {0}) → need raw n ≡ ok u → n ≤ length raw
unfolding need
need-within raw n u h = ground arith

module _ {F : Type 0} ⦃fl : Floats F⦄ where
  -- The pairs of a list of words in range.
  pairs_shape :
      (ns : List ℤ)
      → All IsInt32 ns
      → (rs : List (ℤ × ℤ)) × All IsRange rs × (pairs ns ≡ map (range_item {F = F}) rs)
  unfolding pairs
  pairs_shape [] h = ([], tt, refl)
  pairs_shape (lo ∷ []) h = ([], tt, refl)
  pairs_shape (lo ∷ hi ∷ rest) h =
      let (rs, inside, e) = pairs_shape rest h.1.1 in ((lo, hi) ∷ rs, ((h.0, h.1.0), inside), rw e)

  -- Whatever the codec: what bytes decode to is one of the values of the codec.
  pub decode-IsNormal :
      (c : Codec) (payload : Bytes) (v : Value F)
      → IsBytes payload
      → decode c payload ≡ ok v
      → IsNormal c v
  unfolding decode
  decode-IsNormal int32 payload v h e =
      let (n, word_n, more) = >>=-eq-ok (first_word payload) _ e in
      let same : v ≡ one (int n) = ground arith in
      rw same (number n (first_word-IsInt32 payload n h word_n))
  decode-IsNormal int32_array payload v h e =
      let same : v ≡ many (map (λ n. atom (int n)) (i32s payload)) = ground arith in
      rw same (numbers (i32s payload) (i32s-AreInt32 payload h))
  decode-IsNormal boolean payload v h e =
      let (n, word_n, more) = >>=-eq-ok (first_word payload) _ e in
      let same : v ≡ one (bool (not (beq_ℤ n (pos 0)))) = ground arith in
      rw same (flag (not (beq_ℤ n (pos 0))))
  decode-IsNormal boolean_array payload v h e =
      let same : v ≡ many (map (λ n. atom (bool (not (beq_ℤ n (pos 0))))) (i32s payload)) =
        ground arith in
      let flat : IsNormal {F = F} boolean_array
          (many (map (λ b. atom (bool b)) (map (λ n. not (beq_ℤ n (pos 0))) (i32s payload)))) =
        flags (map (λ n. not (beq_ℤ n (pos 0))) (i32s payload)) in
      rw same (rw (map-map _ _ (i32s payload)) at flat)
  decode-IsNormal milli payload v h e =
      let (n, word_n, more) = >>=-eq-ok (first_word payload) _ e in
      let same : v ≡ one (float_of n) = ground arith in
      rw same (scaled n (first_word-IsInt32 payload n h word_n))
  decode-IsNormal milli_array payload v h e =
      let same : v ≡ many (map (λ n. atom (float_of n)) (i32s payload)) = ground arith in
      rw same (scaleds (i32s payload) (i32s-AreInt32 payload h))
  decode-IsNormal milli_pair_array payload v h e =
      let (rs, inside, shape) = pairs_shape (i32s payload) (i32s-AreInt32 payload h) in
      let same : v ≡ many (map range_item rs) = ground (arith, shape) in rw same (ranges rs inside)
  decode-IsNormal string payload v h e =
      let s = strip is_space (Utf8.decode (until_nul payload)) in
      let scalars =
        strip-All is_space IsScalar (Utf8.decode (until_nul payload))
          (decode-AreScalars (until_nul payload) (until_nul-AreNonzero payload)) in
      let (raw, encoded) = encode-total s scalars in
      let same : v ≡ one (str s) = ground arith in
      rw same (
        text s raw (All-imp IsScalar IsNonzero (λ c fine. fine.0) s scalars)
          (strip_again is_space (Utf8.decode (until_nul payload))) encoded)
  decode-IsNormal mac6 payload v h e =
      let (u, enough, more) = >>=-eq-ok (need payload 6) _ e in
      let same : v ≡ one (str (join_hex b'a' b':' (take 6 payload))) = ground arith in
      rw same (
        hardware (take 6 payload) (take-IsBytes 6 payload h)
          (length-take_within 6 payload (need-within payload 6 u enough)))
  decode-IsNormal u16_array payload v h e =
      let same : v ≡ many (map (λ n. atom (int n)) (u16s payload)) = ground arith in
      rw same (codes (u16s payload) (u16s-AreUint16 payload h))
  decode-IsNormal (enum cls) payload v h e =
      let (n, word_n, more) = >>=-eq-ok (first_word payload) _ e in
      let same : v ≡ one (enum_value cls n) = ground arith in
      rw same (choice cls n (first_word-IsInt32 payload n h word_n))

  -- Under the laws of floats: whatever the codec, what bytes decode to can be encoded, and its bytes
  -- decode to it again.
  pub decode-RoundTrips :
      (laws : FloatLaws F) (c : Codec) (payload : Bytes) (v : Value F)
      → IsBytes payload
      → decode c payload ≡ ok v
      → RoundTrips c v
  decode-RoundTrips laws c payload v h e =
      encode-RoundTrips F laws c v (decode-IsNormal c payload v h e)
