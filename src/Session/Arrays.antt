-- ===== src/Session/Arrays.antt =====
-- What src/ddmp/session.py remembers of a topic with a value for each compartment: lists of flags, or of
-- thousandths.
use dometic_ddmp.Base.{
  ℕ, zero, suc, ℤ, ◌≡◌, ◌<◌, refl, sym, ap, ◌∙◌, inl, inr, Bool, List, [], ◌∷◌, map, length, set,
  All, string_eq, text_eq, arith,
}
use dometic_ddmp.Result.{ok}
use dometic_ddmp.Address.{address_eq}
use dometic_ddmp.Words.{IsInt32}
use dometic_ddmp.Value.{atom, Value, many, Floats}
use dometic_ddmp.Value.Milli.{FloatLaws}
use dometic_ddmp.Codec.{Codec, boolean_array, milli_array, decode, float_of}
use dometic_ddmp.Codec.RoundTrip.{
  IsNormal, number, numbers, flag, flags, scaled, scaleds, ranges, text, hardware, codes, choice,
}
use dometic_ddmp.Topic.{Topic}
use dometic_ddmp.Expectation.Close.{Rounded}
use dometic_ddmp.Session.Echo.{flag_items}
use dometic_ddmp.Session.Typed.{IsTypedFor}

module _ {F : Type 0} ⦃fl : Floats F⦄ where
  -- What a normal value of the two array codecs of writable topics is.
  abbrev ArrayShape : Codec → Value F → Type 0
  ArrayShape boolean_array v = (bs : List Bool) × (v ≡ many (flag_items bs))
  ArrayShape milli_array v =
      (ns : List ℤ) × All IsInt32 ns × (v ≡ many (map (λ n. atom (float_of n)) ns))
  ArrayShape c v = Unit

  array_shape : (c : Codec) (v : Value F) → IsNormal c v → ArrayShape c v
  array_shape c v (number n h) = tt
  array_shape c v (numbers ns h) = tt
  array_shape c v (flag b) = tt
  array_shape c v (flags bs) = (bs, refl)
  array_shape c v (scaled n h) = tt
  array_shape c v (scaleds ns h) = (ns, h, refl)
  array_shape c v (ranges rs h) = tt
  array_shape c v (text t raw solid stripped e) = tt
  array_shape c v (hardware raw h e) = tt
  array_shape c v (codes ns h) = tt
  array_shape c v (choice cls n h) = tt

  pub flags_of :
      (t : Topic) (v : Value F)
      → t.codec ≡ boolean_array
      → IsTypedFor t v
      → (bs : List Bool) × (v ≡ many (flag_items bs))
  unfolding decode
  flags_of t v e (inl normal) = array_shape boolean_array v (rw e at normal)
  flags_of t v e (inr (raw, same, plain, (x, bad))) = absurd (let h = rw e at bad in ground arith)

  pub scaleds_of :
      (t : Topic) (v : Value F)
      → t.codec ≡ milli_array
      → IsTypedFor t v
      → (ns : List ℤ) × All IsInt32 ns × (v ≡ many (map (λ n. atom (float_of n)) ns))
  unfolding decode
  scaleds_of t v e (inl normal) = array_shape milli_array v (rw e at normal)
  scaleds_of t v e (inr (raw, same, plain, (x, bad))) = absurd (let h = rw e at bad in ground arith)

  Rounded-eq :
      (laws : FloatLaws F) (ns ms : List ℤ)
      → All IsInt32 ns
      → Rounded (map (λ n. fl.of_milli n) ns) ms
      → ms ≡ ns
  Rounded-eq laws [] [] small r = refl
  Rounded-eq laws [] (m ∷ ms) small r = absurd r
  Rounded-eq laws (n ∷ ns) [] small r = absurd r
  Rounded-eq laws (n ∷ ns) (m ∷ ms) small r =
      let same_n : ok m ≡ ok n = sym r.0 ∙ laws.to_milli-of_milli n small.0 in
      ground (arith, same_n, Rounded-eq laws ns ms small.1 r.2)

  -- Floats that are thousandths already are rounded to themselves.
  pub Rounded-set :
      (laws : FloatLaws F) (ns : List ℤ) (idx : ℕ) (y : F) (ms : List ℤ)
      → All IsInt32 ns
      → idx < length ns
      → Rounded (set (map (λ n. fl.of_milli n) ns) idx y) ms
      → (n : ℤ) × (ms ≡ set ns idx n) × (fl.to_milli y ≡ ok n) × IsInt32 n
  Rounded-set laws [] idx y ms small h r = absurd (omega arith)
  Rounded-set laws (n ∷ ns) zero y [] small h r = absurd r
  Rounded-set laws (n ∷ ns) (suc idx) y [] small h r = absurd r
  Rounded-set laws (n ∷ ns) zero y (m ∷ ms) small h r =
      (m, ap (◌∷◌ m) (Rounded-eq laws ns ms small.1 r.2), r.0, r.1)
  Rounded-set laws (n ∷ ns) (suc idx) y (m ∷ ms) small h r =
      let (k, same, rounded, inside) = Rounded-set laws ns idx y ms small.1 (omega arith) r.2 in
      let same_n : ok m ≡ ok n = sym r.0 ∙ laws.to_milli-of_milli n small.0 in
      (k, ground (arith, same, same_n), rounded, inside)
