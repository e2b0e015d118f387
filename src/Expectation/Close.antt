-- ===== src/Expectation/Close.antt =====
-- What `_close` says of a value and of what its bytes decode to.
use dometic_ddmp.Base.{
  ℤ, ◌≡◌, refl, ap, ◌∙◌, sym, Bool, true, false, List, [], ◌∷◌, map, length, length-map, suc,
  ==_iff, arith,
}
use dometic_ddmp.Bytes.{Bytes}
use dometic_ddmp.Result.{ok, >>=-eq-ok, traverse, traverse-map}
use dometic_ddmp.Enums.{EnumClass}
use dometic_ddmp.Words.{IsInt32, pack_i32}
use dometic_ddmp.Words.Laws.{pack_i32-IsInt32, i32s-traverse}
use dometic_ddmp.Value.{
  bool, float, Item, atom, one, many, Floats, float_atom, items, item_atom, truthy_atom,
}
use dometic_ddmp.Value.Milli.{FloatLaws}
use dometic_ddmp.Codec.{milli_array, encode, decode, float_of, enum_value, pack_milli}
use dometic_ddmp.Expectation.{close, close_all, close_item, close_atom, close_numbers}

-- Each float and the thousandths that it is rounded to.
abbrev pub Rounded : {F : Type 0} ⦃fl : Floats F⦄ → List F → List ℤ → Type 0
Rounded [] [] = Unit
Rounded ⦃fl⦄ (x ∷ xs) (n ∷ ns) = (fl.to_milli x ≡ ok n) × IsInt32 n × Rounded xs ns
Rounded [] (n ∷ ns) = ⊥
Rounded (x ∷ xs) [] = ⊥

module _ (F : Type 0) ⦃fl : Floats F⦄ where
  abbrev pub floats : List F → List (Item F)
  floats xs = map (λ x. atom (float x)) xs

  -- The bytes of packed floats hold the numbers that they are rounded to.
  pub traverse-Rounded :
      (xs : List F) (chunks : List Bytes)
      → traverse (λ x. pack_milli {F = F} (float x)) xs ≡ ok chunks
      → (ns : List ℤ) × Rounded xs ns × (traverse pack_i32 ns ≡ ok chunks)
  unfolding pack_milli float_atom
  traverse-Rounded [] chunks h = ([], tt, h)
  traverse-Rounded (x ∷ xs) chunks h =
      let (raw, packed, more) = >>=-eq-ok (pack_milli (float x)) _ h in
      let (rest, later, e) = >>=-eq-ok (traverse (λ x. pack_milli (float x)) xs) _ more in
      let (n, rounded, word) = >>=-eq-ok (fl.to_milli x) pack_i32 packed in
      let (ns, all_rounded, words) = traverse-Rounded xs rest later in
      (n ∷ ns, (rounded, pack_i32-IsInt32 n raw word, all_rounded), rw (word, words) e)

  -- The bytes of an array of floats decode to the thousandths that they are rounded to.
  pub decode-encode-floats :
      (xs : List F) (raw : Bytes)
      → encode milli_array (many (floats xs)) ≡ ok raw
      → (ns : List ℤ) × Rounded xs ns
        × (decode {F = F} milli_array raw ≡ ok (many (map (λ n. atom (float_of n)) ns)))
  unfolding encode decode items item_atom
  decode-encode-floats xs raw h =
      let (chunks, e, same_raw) = >>=-eq-ok (traverse _ (floats xs)) _ h in
      let (ns, rounded, words) = traverse-Rounded xs chunks (sym (traverse-map _ _ xs) ∙ e) in
      let unpacked = i32s-traverse ns chunks words in
      (ns, rounded, ground (arith, same_raw, unpacked))

  module _ (laws : FloatLaws F) where
    -- Rounded to thousandths, the floats are as close as the tolerance of temperatures asks.
    close_all-Rounded :
        (xs : List F) (ns : List ℤ)
        → Rounded xs ns
        → close_all (map (λ n. atom (float_of n)) ns) (floats xs) fl.milli_tolerance ≡ ok true
    unfolding close_all close_item close_atom close_numbers float_atom
    close_all-Rounded [] [] h = refl
    close_all-Rounded [] (n ∷ ns) h = absurd h
    close_all-Rounded (x ∷ xs) [] h = absurd h
    close_all-Rounded (x ∷ xs) (n ∷ ns) h =
        rw (laws.within-of_milli x n h.0 h.1, close_all-Rounded xs ns h.2)

    length-Rounded : (xs : List F) (ns : List ℤ) → Rounded xs ns → length ns ≡ length xs
    length-Rounded [] [] h = refl
    length-Rounded [] (n ∷ ns) h = absurd h
    length-Rounded (x ∷ xs) [] h = absurd h
    length-Rounded (x ∷ xs) (n ∷ ns) h = ap suc (length-Rounded xs ns h.2)

    pub close-Rounded :
        (xs : List F) (ns : List ℤ)
        → Rounded xs ns
        → close (many (map (λ n. atom (float_of n)) ns)) (many (floats xs)) fl.milli_tolerance
          ≡ ok true
    unfolding close
    close-Rounded xs ns h =
        let lengths : length (map {B = Item F} (λ n. atom (float_of n)) ns) ≡ length (floats xs) =
          length-map _ ns ∙ (length-Rounded xs ns h ∙ sym (length-map _ xs)) in
        rw (lengths, (==_iff (length (floats xs)) _).1 refl) (close_all-Rounded xs ns h)

    -- A member of an enumeration, or its number, is close to itself.
    pub close-enum_value :
        (cls : EnumClass) (n : ℤ)
        → IsInt32 n
        → close (one (enum_value cls n)) (one (enum_value cls n)) fl.zero_tolerance ≡ ok true
    unfolding close close_atom close_numbers float_atom enum_value
    close-enum_value cls n h =
        let (x, e) = laws.of_int-total n h in ground (arith, e, laws.within_self n x h e)

  close_all-flags :
      (bs : List Bool) (tol : F)
      → close_all (map (λ b. atom (bool b)) bs) (map (λ b. atom (bool b)) bs) tol ≡ ok true
  unfolding close_all close_item close_atom truthy_atom
  close_all-flags [] tol = refl
  close_all-flags (true ∷ bs) tol = rw (close_all-flags bs tol)
  close_all-flags (false ∷ bs) tol = rw (close_all-flags bs tol)

  -- Flags are close to themselves.
  pub close-flags :
      (bs : List Bool) (tol : F)
      → close (many (map (λ b. atom (bool b)) bs)) (many (map (λ b. atom (bool b)) bs)) tol
        ≡ ok true
  unfolding close
  close-flags bs tol =
      rw ((==_iff (length (map {B = Item F} (λ b. atom (bool b)) bs)) _).1 refl)
        (close_all-flags bs tol)

  pub close-flag : (b : Bool) (tol : F) → close (one (bool b)) (one (bool b)) tol ≡ ok true
  unfolding close close_atom truthy_atom
  close-flag true tol = refl
  close-flag false tol = refl
