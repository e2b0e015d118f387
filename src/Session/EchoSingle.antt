-- ===== src/Session/EchoSingle.antt =====
-- The echo of a SET for a topic with one value.
use dometic_ddmp.Base.{ℤ, pos, string_eq, text_eq, ◌≡◌, sym, ◌∙◌, not, Option, beq_ℤ, arith}
use dometic_ddmp.Bytes.{Bytes}
use dometic_ddmp.Result.{ok, >>=-eq-ok, guard, value_error}
use dometic_ddmp.Address.{address_eq}
use dometic_ddmp.Enums.{EnumClass}
use dometic_ddmp.Frame.{Frame}
use dometic_ddmp.Words.{pack_i32}
use dometic_ddmp.Words.Laws.{pack_i32-IsInt32}
use dometic_ddmp.Value.{bool, Value, one, Floats, as_atom}
use dometic_ddmp.Value.Milli.{FloatLaws}
use dometic_ddmp.Codec.{boolean, enum, enum_value, decode, encode, kind, first_word, enum_number}
use dometic_ddmp.Codec.Numbers.{first_word-pack_i32}
use dometic_ddmp.Topic.{Topic}
use dometic_ddmp.Expectation.{WriteExpectation}
use dometic_ddmp.Expectation.Close.{close-flag, close-enum_value}
use dometic_ddmp.Session.{set_single, coerce, tolerance_of, reply, is_first}
use dometic_ddmp.Session.Echo.{IsEchoed, echoed, decoded_of}

module _ {F : Type 0} ⦃fl : Floats F⦄ where
  -- What a successful write of a single value went through.
  pub single_steps :
      (t : Topic) (v : Value F) (c : Option ℤ) (r : Frame × WriteExpectation F)
      → set_single t v c ≡ ok r
      → (coerced : Value F) × (payload : Bytes) × (expected : Value F) × (encode t.codec coerced
          ≡ ok payload)
        × (decode t.codec payload ≡ ok expected)
        × (r ≡ reply t payload expected)
  unfolding set_single
  single_steps t v c r h0 =
      let (u, h_first, h1) = >>=-eq-ok (guard (is_first c) value_error) _ h0 in
      let (coerced, h_coerced, h2) = >>=-eq-ok (coerce t v) _ h1 in
      let (payload, h_payload, h3) = >>=-eq-ok (encode t.codec coerced) _ h2 in
      let (expected, h_expected, h4) = >>=-eq-ok (decode t.codec payload) _ h3 in
      (coerced, payload, expected, h_payload, h_expected, ground (arith, h4))

  pub flag_echo :
      (t : Topic) (v : Value F) (c : Option ℤ) (r : Frame × WriteExpectation F)
      → t.codec ≡ boolean
      → set_single t v c ≡ ok r
      → IsEchoed t r
  unfolding decode
  flag_echo t v c r codec h =
      let (coerced, payload, expected, encoded, back, result) = single_steps t v c r h in
      let (n, word, more) = >>=-eq-ok (first_word payload) _ (rw codec at back) in
      let e : one (bool (not (beq_ℤ n (pos 0)))) ≡ expected = ground (arith, more) in
      echoed t payload expected r result (
        rw (decoded_of t payload expected back, ← e)
          (close-flag F (not (beq_ℤ n (pos 0))) (tolerance_of t)))

  tolerance_of_choice :
      (t : Topic) (cls : EnumClass)
      → t.codec ≡ enum cls
      → tolerance_of {F = F} t ≡ fl.zero_tolerance
  unfolding tolerance_of kind
  tolerance_of_choice t cls c = rw c

  pub choice_echo :
      (laws : FloatLaws F) (t : Topic) (v : Value F) (c : Option ℤ) (r : Frame × WriteExpectation F)
      (cls : EnumClass)
      → t.codec ≡ enum cls
      → set_single t v c ≡ ok r
      → IsEchoed t r
  unfolding decode encode
  choice_echo laws t v c r cls codec h =
      let (coerced, payload, expected, encoded, back, result) = single_steps t v c r h in
      let (a, h_a, h1) = >>=-eq-ok (as_atom coerced) _ (rw codec at encoded) in
      let (n, h_n, packed) = >>=-eq-ok (enum_number cls a) pack_i32 h1 in
      let small = pack_i32-IsInt32 n payload packed in
      let (raw, repacked, word) = first_word-pack_i32 n small in
      let (m, h_m, h2) = >>=-eq-ok (first_word payload) _ (rw codec at back) in
      let same_raw : ok payload ≡ ok raw = sym packed ∙ repacked in
      let same_number : ok m ≡ ok n = ground (arith, same_raw, h_m, word) in
      let e : one (enum_value cls n) ≡ expected = ground (arith, h2, same_number) in
      echoed t payload expected r result (
        rw (decoded_of t payload expected back, ← e, tolerance_of_choice t cls codec)
          (close-enum_value F laws cls n small))
