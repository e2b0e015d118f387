-- ===== src/Codec/Refusal.antt =====
-- What the `decode` methods of the codecs in src/ddmp/protocol.py raise.
use dometic_ddmp.Base.{◌≡◌, refl, sym, ◌∙◌, [], ◌∷◌, arith}
use dometic_ddmp.Bytes.{Bytes}
use dometic_ddmp.Result.{Error, Result, ok, err, decode_error, ◌>>=◌}
use dometic_ddmp.Value.{Value, Floats}
use dometic_ddmp.Codec.{
  Codec, int32, int32_array, boolean, boolean_array, milli, milli_array, milli_pair_array, string,
  mac6, u16_array, enum, decode, first_word, need, unpack_from,
}

first_word_refuses : (payload : Bytes) (x : Error) → first_word payload ≡ err x → x ≡ decode_error
unfolding first_word need unpack_from
first_word_refuses [] x h = ground arith
first_word_refuses (a ∷ []) x h = ground arith
first_word_refuses (a ∷ b ∷ []) x h = ground arith
first_word_refuses (a ∷ b ∷ c ∷ []) x h = ground arith
first_word_refuses (a ∷ b ∷ c ∷ d ∷ rest) x h = ground arith

module _ {F : Type 0} ⦃fl : Floats F⦄ where
  of_word_refuses :
      {A : Type 0} (r : Result A) (f : A → Value F) (x : Error)
      → ((y : Error) → r ≡ err y → y ≡ decode_error)
      → (r >>= (λ n. ok (f n))) ≡ err x
      → x ≡ decode_error
  of_word_refuses (ok n) f x h e = ground arith
  of_word_refuses (err y) f x h e = let same : y ≡ x = ground arith in sym same ∙ h y refl

  -- Whatever the codec, `decode` raises no exception but a `DecodeError`.
  decode_refuses :
      (c : Codec) (payload : Bytes) (x : Error)
      → decode {F = F} c payload ≡ err x
      → x ≡ decode_error
  unfolding decode need
  decode_refuses int32 payload x h = of_word_refuses _ _ x (first_word_refuses payload) h
  decode_refuses boolean payload x h = of_word_refuses _ _ x (first_word_refuses payload) h
  decode_refuses milli payload x h = of_word_refuses _ _ x (first_word_refuses payload) h
  decode_refuses (enum cls) payload x h = of_word_refuses _ _ x (first_word_refuses payload) h
  decode_refuses mac6 payload x h = ground arith
  decode_refuses int32_array payload x h = ground arith
  decode_refuses boolean_array payload x h = ground arith
  decode_refuses milli_array payload x h = ground arith
  decode_refuses milli_pair_array payload x h = ground arith
  decode_refuses string payload x h = ground arith
  decode_refuses u16_array payload x h = ground arith
