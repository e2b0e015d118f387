-- ===== src/Session/Limits.antt =====
-- `Session.set_frame` of src/ddmp/session.py for the set-point: the range that the cooler published.
use dometic_ddmp.Base.{
  ℕ, ℤ, pos, ◌≡◌, refl, sym, ap, ◌∙◌, true, false, Option, some, List, [], ◌∷◌, set, get_elem?,
  string_eq, text_eq, if◌then◌else◌, arith,
}
use dometic_ddmp.Result.{ok, >>=-eq-ok}
use dometic_ddmp.Frame.{Frame}
use dometic_ddmp.Value.{
  Atom, int, bool, float, str, bytes, member, Item, atom, pair, Value, many, Floats, items, len,
  truthy, unpack,
}
use dometic_ddmp.Topic.{topics, by_name}
use dometic_ddmp.Topic.Guard.{assert_writable_row}
use dometic_ddmp.Expectation.{WriteExpectation}
use dometic_ddmp.Session.{
  Session, set_frame, check_range, not_above, within_range, list_or_nil, value,
}
use dometic_ddmp.Session.Echo.{coerce_float}
use dometic_ddmp.Session.Outbound.{
  IsChosen, IsChosen-unique, compartment_index-IsChosen, set_compartment-steps,
}

module _ {F : Type 0} ⦃fl : Floats F⦄ where
  list_or_nil-many :
      (rs : List (Item F)) (idx : ℕ) (p : Item F)
      → get_elem? rs idx ≡ some p
      → list_or_nil (some (many rs)) ≡ ok rs
  unfolding list_or_nil truthy items
  list_or_nil-many [] idx p h = absurd (ground arith)
  list_or_nil-many (q ∷ rs) idx p h = refl

  within_range-eq-ok :
      (lo hi x : Atom F)
      → within_range (some (pair lo hi)) x ≡ ok tt
      → (not_above lo x ≡ ok true) × (not_above x hi ≡ ok true)
  unfolding unpack
  within_range-eq-ok lo hi x h =
      let (above, low, more) = >>=-eq-ok (not_above lo x) _ h in
      let (inside, high, last) = >>=-eq-ok (if above then not_above x hi else ok false) _ more in
      ground arith

  check_range-eq-ok :
      (s : Session F) (idx : ℕ) (rs : List (Item F)) (lo hi x : Atom F)
      → value s "ctemprng" ≡ some (many rs)
      → get_elem? rs idx ≡ some (pair lo hi)
      → check_range s idx x ≡ ok tt
      → (not_above lo x ≡ ok true) × (not_above x hi ≡ ok true)
  unfolding check_range value
  check_range-eq-ok s idx rs lo hi x known at_idx h =
      let listed = ap list_or_nil known ∙ list_or_nil-many rs idx (pair lo hi) at_idx in
      within_range-eq-ok lo hi x (rw at_idx at (rw listed at h))

  -- A limit that is a number, and at most the set-point.
  abbrev pub IsFrom : Atom F → F → Type 0
  IsFrom (int n) y = fl.le_int_float n y ≡ true
  IsFrom (bool true) y = fl.le_int_float (pos 1) y ≡ true
  IsFrom (bool false) y = fl.le_int_float (pos 0) y ≡ true
  IsFrom (float z) y = fl.le z y ≡ true
  IsFrom (member cls n) y = fl.le_int_float n y ≡ true
  IsFrom (str t) y = ⊥
  IsFrom (bytes raw) y = ⊥

  -- A limit that is a number, and at least the set-point.
  abbrev pub IsUpTo : Atom F → F → Type 0
  IsUpTo (int n) y = fl.le_float_int y n ≡ true
  IsUpTo (bool true) y = fl.le_float_int y (pos 1) ≡ true
  IsUpTo (bool false) y = fl.le_float_int y (pos 0) ≡ true
  IsUpTo (float z) y = fl.le y z ≡ true
  IsUpTo (member cls n) y = fl.le_float_int y n ≡ true
  IsUpTo (str t) y = ⊥
  IsUpTo (bytes raw) y = ⊥

  not_above-IsFrom : (lo : Atom F) (y : F) → not_above lo (float y) ≡ ok true → IsFrom lo y
  unfolding not_above
  not_above-IsFrom (int n) y h = ground arith
  not_above-IsFrom (bool true) y h = ground arith
  not_above-IsFrom (bool false) y h = ground arith
  not_above-IsFrom (float z) y h = ground arith
  not_above-IsFrom (member cls n) y h = ground arith
  not_above-IsFrom (str t) y h = absurd (ground arith)
  not_above-IsFrom (bytes raw) y h = absurd (ground arith)

  not_above-IsUpTo : (hi : Atom F) (y : F) → not_above (float y) hi ≡ ok true → IsUpTo hi y
  unfolding not_above
  not_above-IsUpTo (int n) y h = ground arith
  not_above-IsUpTo (bool true) y h = ground arith
  not_above-IsUpTo (bool false) y h = ground arith
  not_above-IsUpTo (float z) y h = ground arith
  not_above-IsUpTo (member cls n) y h = ground arith
  not_above-IsUpTo (str t) y h = absurd (ground arith)
  not_above-IsUpTo (bytes raw) y h = absurd (ground arith)

  -- A frame that `set_frame` makes for the topic `csettemp`, where the cooler has published a range for
  -- the chosen compartment, comes with an expectation that changes only this compartment of the
  -- remembered list, to a float between the two ends of the range, which are numbers.
  pub set_frame_in_range :
      (s : Session F) (v : Value F) (c : Option ℤ) (r : Frame × WriteExpectation F)
      (rs xs : List (Item F)) (idx : ℕ) (lo hi : Atom F)
      → value s "ctemprng" ≡ some (many rs)
      → value s "csettemp" ≡ some (many xs)
      → IsChosen c idx
      → get_elem? rs idx ≡ some (pair lo hi)
      → set_frame s (by_name "csettemp") v c ≡ ok r
      → (y : F) × (r.1.expected ≡ many (set xs idx (atom (float y)))) × IsFrom lo y × IsUpTo hi y
  unfolding set_frame value topics items len
  set_frame_in_range s v c r rs xs idx lo hi ranges known chosen at_idx h =
      let w = set_compartment-steps s _ v c r (rw (assert_writable_row 9 _ refl) at h) in
      let is_list : some w.current ≡ some (many xs) = sym w.known ∙ known in
      let current : w.current ≡ many xs = ground arith in
      let listed : ok xs ≡ ok w.xs = sym (ap items current) ∙ w.listed in
      let same_idx : idx ≡ w.idx =
        IsChosen-unique c idx w.idx chosen
          (compartment_index-IsChosen c w.count w.idx w.chosen).0 in
      let inside =
        check_range-eq-ok s w.idx rs lo hi w.x ranges (ground (arith, same_idx)) w.in_range in
      let (y, set_point) = coerce_float _ v w.x refl w.coerced in
      (
        y,
        ap (λ a. a.1.expected) w.result ∙ ground (arith, same_idx, listed, set_point),
        not_above-IsFrom lo y (rw set_point at inside.0),
        not_above-IsUpTo hi y (rw set_point at inside.1),
      )
