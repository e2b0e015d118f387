-- ===== src/Session/Echo.antt =====
-- The echo of a SET for a topic with a value for each compartment.
use dometic_ddmp.Base.{
  ℤ, pos, string_eq, text_eq, ◌≡◌, refl, sym, ap, ◌∙◌, Bool, true, not, Option, none, some, List,
  map, map-map, set, beq_ℤ, arith,
}
use dometic_ddmp.Base.Dict
use dometic_ddmp.Bytes.{Bytes}
use dometic_ddmp.Result.{ok, >>=-eq-ok}
use dometic_ddmp.Action
use dometic_ddmp.Address.{address_eq}
use dometic_ddmp.Frame.{Frame}
use dometic_ddmp.Words.{i32s}
use dometic_ddmp.Value.{
  Atom, bool, float, Item, atom, Value, one, many, Floats, as_atom, items, float_atom,
}
use dometic_ddmp.Value.Milli.{FloatLaws}
use dometic_ddmp.Codec.{Codec, boolean_array, milli_array, float_of, decode, encode, kind}
use dometic_ddmp.Codec.Numbers.{RoundTrips, bools-RoundTrips}
use dometic_ddmp.Topic.{Topic}
use dometic_ddmp.Expectation.{WriteExpectation, close}
use dometic_ddmp.Expectation.Close.{floats, decode-encode-floats, close-Rounded, close-flags}
use dometic_ddmp.Session.{
  Session, set_compartment, coerce, coerce_flag, tolerance_of, decoded, reply,
}
use dometic_ddmp.Session.Memory.{newer_value}
use dometic_ddmp.Session.Outbound.{set_compartment-steps, coerce_flag_shape, set-map}

module _ {F : Type 0} ⦃fl : Floats F⦄ where
  -- The frame is a SET for the topic's address, and what it carries is as close to the expected value
  -- as the expectation asks.
  abbrev pub IsEchoed : Topic → Frame × WriteExpectation F → Type 0
  IsEchoed t (f, e) =
      (f.action ≡ Action.code Action.set)
      × (f.address ≡ t.address)
      × (e.topic ≡ t)
      × (close (decoded t f.payload) e.expected e.tolerance ≡ ok true)

  abbrev pub flag_items : List Bool → List (Item F)
  flag_items bs = map (λ b. atom (bool b)) bs

  decoded_flags :
      (t : Topic) (raw : Bytes)
      → t.codec ≡ boolean_array
      → (bs : List Bool) × (decoded t raw ≡ many (flag_items bs))
  unfolding decoded decode
  decoded_flags t raw c = (
    map (λ n. not (beq_ℤ n (pos 0))) (i32s raw),
    rw c (ap many (sym (map-map (λ b. atom (bool b)) (λ n. not (beq_ℤ n (pos 0))) (i32s raw)))),
  )

  decoded-floats :
      (t : Topic) (raw : Bytes)
      → t.codec ≡ milli_array
      → (fs : List F) × (decoded t raw ≡ many (floats F fs))
  unfolding decoded decode
  decoded-floats t raw c = (
    map (λ n. fl.of_milli n) (i32s raw),
    rw c (ap many (sym (map-map (λ x. atom (float x)) (λ n. fl.of_milli n) (i32s raw)))),
  )

  -- A remembered value is some payload's.
  payload_of_known :
      (t : Topic) (raw : Option Bytes) (v : Value F)
      → newer_value t raw none ≡ some v
      → (payload : Bytes) × (v ≡ decoded t payload)
  payload_of_known t none v h = absurd (ground arith)
  payload_of_known t (some payload) v h = (payload, ground arith)

  pub decoded_of :
      (t : Topic) (raw : Bytes) (v : Value F) → decode t.codec raw ≡ ok v → decoded t raw ≡ v
  unfolding decoded
  decoded_of t raw v h = rw (decoded, h)

  pub echoed :
      (t : Topic) (payload : Bytes) (expected : Value F) (r : Frame × WriteExpectation F)
      → r ≡ reply t payload expected
      → close (decoded t payload) expected (tolerance_of t) ≡ ok true
      → IsEchoed t r
  echoed t payload expected r e h = rw e (refl, refl, refl, h)

  pub decode_of_RoundTrips :
      (c : Codec) (v : Value F) (payload : Bytes)
      → RoundTrips c v
      → encode c v ≡ ok payload
      → decode c payload ≡ ok v
  decode_of_RoundTrips c v payload (raw, encoded, back) e =
      let same_raw : ok raw ≡ ok payload = sym encoded ∙ e in ground (arith, same_raw, back)

  flags_written :
      (t : Topic) (bs : List Bool) (payload : Bytes) (tol : F)
      → t.codec ≡ boolean_array
      → encode t.codec (many (flag_items bs)) ≡ ok payload
      → close (decoded t payload) (many (flag_items bs)) tol ≡ ok true
  flags_written t bs payload tol c e =
      let back = decode_of_RoundTrips boolean_array _ payload (bools-RoundTrips bs) (rw c at e) in
      let seen : decoded t payload ≡ many (flag_items bs) = decoded_of t payload _ (rw c back) in
      rw seen (close-flags F bs tol)

  pub tolerance_of_floats :
      (t : Topic) → t.codec ≡ milli_array → tolerance_of {F = F} t ≡ fl.milli_tolerance
  unfolding tolerance_of kind
  tolerance_of_floats t c = rw c

  floats_written :
      (laws : FloatLaws F) (t : Topic) (xs : List F) (payload : Bytes)
      → t.codec ≡ milli_array
      → encode t.codec (many (floats F xs)) ≡ ok payload
      → close (decoded t payload) (many (floats F xs)) (tolerance_of t) ≡ ok true
  floats_written laws t xs payload c e =
      let (ns, rounded, back) = decode-encode-floats F xs payload (rw c at e) in
      let seen : decoded t payload ≡ many (map (λ n. atom (float_of n)) ns) =
        decoded_of t payload _ (rw c back) in
      rw (seen, tolerance_of_floats t c) (close-Rounded F laws xs ns rounded)

  pub coerce_flags :
      (t : Topic) (v : Value F) → t.codec ≡ boolean_array → coerce t v ≡ ok (coerce_flag v)
  unfolding coerce kind
  coerce_flags t v c = rw c

  pub flags_echo :
      (s : Session F) (t : Topic) (v : Value F) (c : Option ℤ) (r : Frame × WriteExpectation F)
      → t.codec ≡ boolean_array
      → Dict.get t.name s.values ≡ newer_value t (Dict.get t.address s.raw) none
      → set_compartment s t v c ≡ ok r
      → IsEchoed t r
  unfolding items
  flags_echo s t v c r codec consistent h =
      let w = set_compartment-steps s t v c r h in
      let (raw, same_raw) =
        payload_of_known t (Dict.get t.address s.raw) w.current (sym consistent ∙ w.known) in
      let (bs, flags) = decoded_flags t raw codec in
      let (b, flag) = coerce_flag_shape v in
      let listed : ok (flag_items bs) ≡ ok w.xs = sym (ap items (same_raw ∙ flags)) ∙ w.listed in
      let coerced : ok (one (bool b)) ≡ ok (one w.x) =
        sym (coerce_flags t v codec ∙ ap ok flag) ∙ w.coerced in
      let written : set w.xs w.idx (atom w.x) ≡ flag_items (set bs w.idx b) =
        ground (arith, listed, coerced, set-map {B = Item F} (λ b. atom (bool b)) bs w.idx b) in
      echoed t w.payload (many (flag_items (set bs w.idx b))) r
        (w.result ∙ ap (λ ys. reply t w.payload (many ys)) written)
        (flags_written t (set bs w.idx b) w.payload (tolerance_of t) codec
          (ap (λ ys. encode t.codec (many ys)) (sym written) ∙ w.encoded))

  pub coerce_float :
      (t : Topic) (v : Value F) (x : Atom F)
      → t.codec ≡ milli_array
      → coerce t v ≡ ok (one x)
      → (y : F) × (x ≡ float y)
  unfolding coerce kind
  coerce_float t v x c h0 =
      let (a, h_a, h1) = >>=-eq-ok (as_atom v) _ (rw c at h0) in
      let (y, h_y, h2) = >>=-eq-ok (float_atom a) _ h1 in (y, ground (arith, h2))

  pub floats_echo :
      (laws : FloatLaws F) (s : Session F) (t : Topic) (v : Value F) (c : Option ℤ)
      (r : Frame × WriteExpectation F)
      → t.codec ≡ milli_array
      → Dict.get t.name s.values ≡ newer_value t (Dict.get t.address s.raw) none
      → set_compartment s t v c ≡ ok r
      → IsEchoed t r
  unfolding items
  floats_echo laws s t v c r codec consistent h =
      let w = set_compartment-steps s t v c r h in
      let (raw, same_raw) =
        payload_of_known t (Dict.get t.address s.raw) w.current (sym consistent ∙ w.known) in
      let (fs, all_floats) = decoded-floats t raw codec in
      let (y, scaled) = coerce_float t v w.x codec w.coerced in
      let listed : ok (floats F fs) ≡ ok w.xs = sym (ap items (same_raw ∙ all_floats)) ∙ w.listed in
      let written : set w.xs w.idx (atom w.x) ≡ floats F (set fs w.idx y) =
        ground (arith, listed, scaled, set-map {B = Item F} (λ z. atom (float z)) fs w.idx y) in
      echoed t w.payload (many (floats F (set fs w.idx y))) r
        (w.result ∙ ap (λ ys. reply t w.payload (many ys)) written)
        (floats_written laws t (set fs w.idx y) w.payload codec
          (ap (λ ys. encode t.codec (many ys)) (sym written) ∙ w.encoded))
