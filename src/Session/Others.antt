-- ===== src/Session/Others.antt =====
-- `Session.set_frame` of src/ddmp/session.py for a topic with a value for each compartment: what
-- becomes of the other compartments.
use dometic_ddmp.Base.{
  ℕ, ℤ, ◌≡◌, ◌≢◌, ◌<◌, refl, sym, ap, ◌∙◌, Bool, true, false, Option, some, List, map, map-map,
  length, length-map, set, All, string_eq, text_eq, if◌then◌else◌, arith,
}
use dometic_ddmp.Bytes.{Bytes}
use dometic_ddmp.Result.{Result, ok}
use dometic_ddmp.Address.{address_eq}
use dometic_ddmp.Frame.{Frame}
use dometic_ddmp.Words.{IsInt32}
use dometic_ddmp.Value.{
  Atom, bool, float, Item, atom, Value, one, many, Floats, truthy_atom, float_atom, items, len,
}
use dometic_ddmp.Value.Milli.{FloatLaws}
use dometic_ddmp.Codec.{Codec, boolean_array, milli_array, encode, float_of}
use dometic_ddmp.Codec.Numbers.{bools-RoundTrips}
use dometic_ddmp.Topic.{Topic, TopicRef, by_topic, assert_writable}
use dometic_ddmp.Topic.Guard.{shape, writable_shape, assert_writable_sound}
use dometic_ddmp.Expectation.{WriteExpectation, close_item, close_atom, close_numbers}
use dometic_ddmp.Expectation.Close.{floats, decode-encode-floats}
use dometic_ddmp.Session.{
  Session, set_frame, set_compartment, coerce, compartment_index, tolerance_of, decoded, value,
}
use dometic_ddmp.Session.Outbound.{
  IsChosen, compartment_index-IsChosen, CompartmentWrite, set_compartment-steps, coerce_flag_shape,
  set-map,
}
use dometic_ddmp.Session.Echo.{
  flag_items, decoded_of, decode_of_RoundTrips, coerce_flags, coerce_float, tolerance_of_floats,
}
use dometic_ddmp.Session.Typed.{IsTyped, IsTypedFor}
use dometic_ddmp.Session.Arrays.{flags_of, scaleds_of, Rounded-set}

taken :
    {A : Type 0} (x y : Result A) {r : A} (b : Bool)
    → b ≡ true
    → (if b then x else y) ≡ ok r
    → x ≡ ok r
taken x y true e h = h
taken x y false e h = absurd (ground arith)

module _ {F : Type 0} ⦃fl : Floats F⦄ where
  -- The frame carries the values of all compartments: for one of them a value as close to the one
  -- asked for as the expectation allows, for the others what the session remembers.
  pub record KeepsOthers (s : Session F) (t : Topic) (v : Value F) (c : Option ℤ) (f : Frame)
      : Type 0 where
    pub xs : List (Item F)
    pub idx : ℕ
    pub x : Atom F
    pub new : Item F
    pub known : value s t.name ≡ some (many xs)
    pub chosen : IsChosen c idx
    pub inside : idx < length xs
    pub asked : coerce t v ≡ ok (one x)
    pub sent : decoded t f.payload ≡ many (set xs idx new)
    pub near : close_item new (atom x) (tolerance_of t) ≡ ok true

  chosen_of :
      (s : Session F) (t : Topic) (v : Value F) (c : Option ℤ) (r : Frame × WriteExpectation F)
      (w : CompartmentWrite F s t v c r)
      → w.current ≡ many w.xs
      → compartment_index c (length w.xs) ≡ ok w.idx
  unfolding len
  chosen_of s t v c r w is_list =
      let count : ok (length w.xs) ≡ ok w.count = sym (ap len is_list) ∙ w.counted in
      ground (arith, count, w.chosen)

  -- A write to one of the compartments of a list.
  kept :
      (s : Session F) (t : Topic) (v : Value F) (c : Option ℤ) (r : Frame × WriteExpectation F)
      (w : CompartmentWrite F s t v c r) (new : Item F)
      → w.current ≡ many w.xs
      → decoded t w.payload ≡ many (set w.xs w.idx new)
      → close_item new (atom w.x) (tolerance_of t) ≡ ok true
      → KeepsOthers s t v c r.0
  unfolding value
  kept s t v c r w new is_list sent near =
      let chosen =
        compartment_index-IsChosen c (length w.xs) w.idx (chosen_of s t v c r w is_list) in
      record {
        xs = w.xs;
        idx = w.idx;
        x = w.x;
        new = new;
        known = w.known ∙ ap some is_list;
        chosen = chosen.0;
        inside = chosen.1;
        asked = w.coerced;
        sent = ap (λ a. decoded t a.0.payload) w.result ∙ sent;
        near = near;
      }

  list_of :
      (s : Session F) (t : Topic) (v : Value F) (c : Option ℤ) (r : Frame × WriteExpectation F)
      (w : CompartmentWrite F s t v c r) (xs : List (Item F))
      → w.current ≡ many xs
      → w.xs ≡ xs
  unfolding items
  list_of s t v c r w xs e =
      let listed : ok xs ≡ ok w.xs = sym (ap items e) ∙ w.listed in ground arith

  same_flag : (b : Bool) (tol : F) → close_item (atom (bool b)) (atom (bool b)) tol ≡ ok true
  unfolding close_item close_atom truthy_atom
  same_flag true tol = refl
  same_flag false tol = refl

  flags_kept :
      (s : Session F) (t : Topic) (v : Value F) (c : Option ℤ) (r : Frame × WriteExpectation F)
      → t.codec ≡ boolean_array
      → ((u : Value F) → value s t.name ≡ some u → IsTypedFor t u)
      → set_compartment s t v c ≡ ok r
      → KeepsOthers s t v c r.0
  unfolding value
  flags_kept s t v c r codec typed h =
      let w = set_compartment-steps s t v c r h in
      let (bs, is_flags) = flags_of t w.current codec (typed w.current w.known) in
      let (b, as_flag) = coerce_flag_shape v in
      let xs = list_of s t v c r w (flag_items bs) is_flags in
      let coerced : ok (one (bool b)) ≡ ok (one w.x) =
        sym (coerce_flags t v codec ∙ ap ok as_flag) ∙ w.coerced in
      let written : set w.xs w.idx (atom w.x) ≡ flag_items (set bs w.idx b) =
        ground (arith, coerced, xs, set-map {B = Item F} (λ b. atom (bool b)) bs w.idx b) in
      let encoded : encode t.codec (many (flag_items (set bs w.idx b))) ≡ ok w.payload =
        ap (λ ys. encode t.codec (many ys)) (sym written) ∙ w.encoded in
      let back =
        decode_of_RoundTrips boolean_array _ w.payload (bools-RoundTrips (set bs w.idx b))
          (rw codec at encoded) in
      let flagged : atom (bool b) ≡ atom w.x = ground (arith, coerced) in
      kept s t v c r w (atom (bool b)) (is_flags ∙ ap many (sym xs))
        (decoded_of t w.payload _ (rw codec back)
          ∙ ap many (sym written ∙ ap (set w.xs w.idx) (sym flagged)))
        (ap (λ i. close_item (atom (bool b)) i (tolerance_of t)) (sym flagged)
          ∙ same_flag b (tolerance_of t))

  -- What the bytes of the list say, one of whose floats is new.
  floats_sent :
      (laws : FloatLaws F) (t : Topic) (ns : List ℤ) (idx : ℕ) (y : F) (payload : Bytes)
      → t.codec ≡ milli_array
      → All IsInt32 ns
      → idx < length ns
      → encode t.codec (many (floats F (set (map (λ n. fl.of_milli n) ns) idx y))) ≡ ok payload
      → (n : ℤ) × (fl.to_milli y ≡ ok n)
        × IsInt32 n
        × (decoded {F = F} t payload ≡ many (map (λ n. atom (float_of n)) (set ns idx n)))
  floats_sent laws t ns idx y payload codec small inside encoded =
      let (ms, rounded, back) =
        decode-encode-floats F (set (map (λ n. fl.of_milli n) ns) idx y) payload
          (rw codec at encoded) in
      let (n, same, rounded_y, small_n) = Rounded-set laws ns idx y ms small inside rounded in
      (n, rounded_y, small_n, decoded_of t payload _ (rw codec (rw⁻¹ same back)))

  near_float :
      (laws : FloatLaws F) (y : F) (n : ℤ)
      → fl.to_milli y ≡ ok n
      → IsInt32 n
      → close_item (atom (float_of n)) (atom (float y)) fl.milli_tolerance ≡ ok true
  unfolding close_item close_atom close_numbers float_atom
  near_float laws y n h small = ap ok (laws.within-of_milli y n h small)

  floats_kept :
      (laws : FloatLaws F) (s : Session F) (t : Topic) (v : Value F) (c : Option ℤ)
      (r : Frame × WriteExpectation F)
      → t.codec ≡ milli_array
      → ((u : Value F) → value s t.name ≡ some u → IsTypedFor t u)
      → set_compartment s t v c ≡ ok r
      → KeepsOthers s t v c r.0
  unfolding value
  floats_kept laws s t v c r codec typed h =
      let w = set_compartment-steps s t v c r h in
      let (ns, small, is_floats) = scaleds_of t w.current codec (typed w.current w.known) in
      let (y, scaled_y) = coerce_float t v w.x codec w.coerced in
      let xs = list_of s t v c r w (map (λ n. atom (float_of n)) ns) is_floats in
      let as_floats : map (λ n. atom (float_of n)) ns ≡ floats F (map (λ n. fl.of_milli n) ns) =
        sym (map-map _ _ ns) in
      let written : set w.xs w.idx (atom w.x)
          ≡ floats F (set (map (λ n. fl.of_milli n) ns) w.idx y) =
        ground (
          arith,
          xs,
          as_floats,
          scaled_y,
          set-map {B = Item F} (λ z. atom (float z)) (map (λ n. fl.of_milli n) ns) w.idx y,
        ) in
      let encoded : encode t.codec (many (floats F (set (map (λ n. fl.of_milli n) ns) w.idx y)))
          ≡ ok w.payload =
        ap (λ ys. encode t.codec (many ys)) (sym written) ∙ w.encoded in
      let is_list = is_floats ∙ ap many (sym xs) in
      let inside : w.idx < length ns = rw⁻¹ (length-map {B = Item F} (λ n. atom (float_of n)) ns) (
        rw⁻¹ xs
          (compartment_index-IsChosen c (length w.xs) w.idx (chosen_of s t v c r w is_list)).1) in
      let (n, rounded_y, small_n, sent) =
        floats_sent laws t ns w.idx y w.payload codec small inside encoded in
      let new_list : many (map (λ n. atom (float_of n)) (set ns w.idx n))
          ≡ many (set w.xs w.idx (atom (float_of n))) =
        ground (arith, xs, set-map {B = Item F} (λ n. atom (float_of n)) ns w.idx n) in
      kept s t v c r w (atom (float_of n)) is_list (sent ∙ new_list) (
        ap (λ x. close_item (atom (float_of n)) (atom x) (tolerance_of t)) scaled_y
        ∙ (ap (close_item (atom (float_of n)) (atom (float y))) (tolerance_of_floats t codec)
            ∙ near_float laws y n rounded_y small_n))

  kept_by_shape :
      (laws : FloatLaws F) (s : Session F) (t : Topic) (v : Value F) (c : Option ℤ)
      (r : Frame × WriteExpectation F) (codec : Codec)
      → t.codec ≡ codec
      → shape codec true ≡ true
      → ((u : Value F) → value s t.name ≡ some u → IsTypedFor t u)
      → set_compartment s t v c ≡ ok r
      → KeepsOthers s t v c r.0
  kept_by_shape laws s t v c r boolean_array e fits typed h = flags_kept s t v c r e typed h
  kept_by_shape laws s t v c r milli_array e fits typed h = floats_kept laws s t v c r e typed h
  kept_by_shape laws s t v c r codec e fits typed h = absurd (ground arith)

  -- Under the laws of floats, for a session in which each topic of the table has a value of its type:
  -- a frame that `set_frame` makes for a topic with a value for each compartment, found by a name or
  -- an address and not a topic of the caller's own, carries what the session remembers of every
  -- compartment but the chosen one, which exists, and for that one a value that is as close to the one
  -- asked for as the expectation allows.
  pub set_frame-KeepsOthers :
      (laws : FloatLaws F) (s : Session F) (ref : TopicRef) (t : Topic) (v : Value F) (c : Option ℤ)
      (r : Frame × WriteExpectation F)
      → IsTyped s
      → ((u : Topic) → ref ≢ by_topic u)
      → assert_writable ref ≡ ok t
      → t.per_compartment ≡ true
      → set_frame s ref v c ≡ ok r
      → KeepsOthers s t v c r.0
  unfolding set_frame
  set_frame-KeepsOthers laws s ref t v c r typed other allowed by_compartment h =
      let (i, at_i, writable) = assert_writable_sound ref t other allowed in
      let fits : shape t.codec true ≡ true =
        ap (shape t.codec) (sym by_compartment) ∙ writable_shape i t at_i writable in
      kept_by_shape laws s t v c r t.codec refl fits (λ u known. typed i t u at_i known)
        (taken (set_compartment s t v c) _ t.per_compartment by_compartment (rw allowed at h))
