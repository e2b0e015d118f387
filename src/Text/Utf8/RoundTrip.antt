-- ===== src/Text/Utf8/RoundTrip.antt =====
-- Decoding undoes encoding.
use dometic_ddmp.Base.{ℕ, ◌≡◌, List, [], ◌∷◌, ◌++◌, arith, append_assoc, append-nil}
use dometic_ddmp.Bytes.{Bytes}
use dometic_ddmp.Result.{ok, >>=-eq-ok}
use dometic_ddmp.Text.Utf8.{encode_char, encode, ground as between, run, decode}

-- The bytes of one character are read as the character, whatever follows.
run-encode_char :
    (c : ℕ) (bs rest : Bytes)
    → encode_char c ≡ ok bs
    → run between (bs ++ rest) ≡ c ∷ run between rest
unfolding encode_char run
run-encode_char c bs rest h = ground arith

run-encode :
    (s : List ℕ) (bs rest : Bytes)
    → encode s ≡ ok bs
    → run between (bs ++ rest) ≡ s ++ run between rest
unfolding encode
run-encode [] bs rest h = ground arith
run-encode (c ∷ s) bs rest h =
    let (first, p, more) = >>=-eq-ok (encode_char c) _ h in
    let (later, q, e) = >>=-eq-ok (encode s) _ more in
    ground (
      arith,
      e,
      run-encode_char c first (later ++ rest) p,
      run-encode s later rest q,
      append_assoc first later rest,
    )

-- A text that can be encoded is what its bytes decode to.
pub decode-encode_utf8 : (s : List ℕ) (bs : Bytes) → encode s ≡ ok bs → decode bs ≡ s
unfolding decode run
decode-encode_utf8 s bs h = ground (arith, run-encode s bs [] h, append-nil bs, append-nil s)
