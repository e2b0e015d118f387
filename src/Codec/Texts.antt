-- ===== src/Codec/Texts.antt =====
-- Texts, padded with zero bytes or not, and hardware addresses.
use dometic_ddmp.Base.{
  ℕ, zero, suc, ◌≡◌, refl, false, [], ◌∷◌, ◌++◌, append_assoc, append-nil, All, length,
  length-append, take, take-append, ◌==◌, inl, inr, arith,
}
use mathlib.Core.Path.{subst}
use dometic_ddmp.Bytes.{Bytes, IsBytes, strip}
use dometic_ddmp.Result.{ok, >>=-eq-ok}
use dometic_ddmp.Text.{Text, is_space}
use dometic_ddmp.Text.Hex.{join_hex}
use dometic_ddmp.Text.Compact.{from_hex-join_hex}
use dometic_ddmp.Text.Utf8
use dometic_ddmp.Text.Utf8.RoundTrip
use dometic_ddmp.Value.{one, str, Floats}
use dometic_ddmp.Codec.{string, mac6, decode, encode, text_of, until_nul, need}

abbrev pub IsNonzero : ℕ → Type 0
IsNonzero b = (b == 0) ≡ false

-- Zero bytes behind a text.
abbrev pub nuls : ℕ → Bytes
nuls zero = []
nuls (suc k) = 0 ∷ nuls k

until_nul-nuls : (k : ℕ) → until_nul (nuls k) ≡ []
unfolding until_nul
until_nul-nuls zero = refl
until_nul-nuls (suc k) = refl

-- A character other than zero has no zero byte.
until_nul-encode_char :
    (c : ℕ) (bs rest : Bytes)
    → IsNonzero c
    → Utf8.encode_char c ≡ ok bs
    → until_nul (bs ++ rest) ≡ bs ++ until_nul rest
unfolding Utf8.encode_char until_nul
until_nul-encode_char c bs rest h e = ground arith

until_nul-encode :
    (s : Text) (bs rest : Bytes)
    → All IsNonzero s
    → Utf8.encode s ≡ ok bs
    → until_nul (bs ++ rest) ≡ bs ++ until_nul rest
unfolding Utf8.encode
until_nul-encode [] bs rest h e = ground arith
until_nul-encode (c ∷ s) bs rest h e =
    let (first, p, more) = >>=-eq-ok (Utf8.encode_char c) _ e in
    let (later, q, same) = >>=-eq-ok (Utf8.encode s) _ more in
    ground (
      arith,
      same,
      until_nul-encode_char c first (later ++ rest) h.0 p,
      until_nul-encode s later rest h.1 q,
      append_assoc first later rest,
      append_assoc first later (until_nul rest),
    )

module _ (F : Type 0) ⦃fl : Floats F⦄ where
  -- A text that has no zero character and no white space at its ends, and that can be encoded, is
  -- decoded from its bytes with any number of zero bytes behind them.
  pub decode_string-padded :
      (s : Text) (raw : Bytes) (k : ℕ)
      → All IsNonzero s
      → strip is_space s ≡ s
      → encode {F = F} string (one (str s)) ≡ ok raw
      → decode {F = F} string (raw ++ nuls k) ≡ ok (one (str s))
  unfolding encode decode text_of
  decode_string-padded s raw k solid stripped e = rw (
    until_nul-encode s raw (nuls k) solid e,
    until_nul-nuls k,
    append-nil raw,
    RoundTrip.decode-encode_utf8 s raw e,
    stripped,
  )

  -- Six bytes, whatever follows them, decode to the text of a hardware address, which is encoded to
  -- the six bytes.
  pub encode-decode_mac6 :
      (raw rest : Bytes)
      → IsBytes raw
      → length raw ≡ 6
      → (decode {F = F} mac6 (raw ++ rest) ≡ ok (one (str (join_hex b'a' b':' raw))))
        × (encode {F = F} mac6 (one (str (join_hex b'a' b':' raw))) ≡ ok raw)
  unfolding encode decode text_of need
  encode-decode_mac6 raw rest h e =
      let six : take 6 (raw ++ rest) ≡ raw =
        subst (λ n. take n (raw ++ rest) ≡ raw) e (take-append raw rest) in
      (
        rw six (ground (arith, length-append raw rest)),
        from_hex-join_hex b'a' b':' raw (inr refl) (inl refl) h,
      )
