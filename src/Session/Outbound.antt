-- ===== src/Session/Outbound.antt =====
-- The steps of `Session.set_frame` for a topic with a value for each compartment.
use dometic_ddmp.Base.{
  ℕ, zero, suc, ℤ, pos, negsuc, ◌<◌, sym, string_eq, text_eq, ◌≡◌, refl, ap, ◌∙◌, Bool, Option,
  none, some, List, [], ◌∷◌, map, set, if◌then◌else◌, arith,
}
use dometic_ddmp.Base.Dict
use dometic_ddmp.Bytes.{Bytes}
use dometic_ddmp.Result.{ok, >>=-eq-ok}
use dometic_ddmp.Address.{address_eq}
use dometic_ddmp.Frame.{Frame}
use dometic_ddmp.Value.{
  Atom, bool, str, Item, atom, Value, one, many, Floats, truthy, as_atom, items, len,
}
use dometic_ddmp.Codec.{encode}
use dometic_ddmp.Topic.{Topic}
use dometic_ddmp.Expectation.{WriteExpectation}
use dometic_ddmp.Session.{
  Session, set_compartment, coerce, coerce_flag, current_value, compartment_index, check_range,
  is_true_word, reply,
}

-- The compartment that a caller means: the first one unless told otherwise, and none with a negative
-- number.
abbrev pub IsChosen : Option ℤ → ℕ → Type 0
IsChosen none idx = idx ≡ 0
IsChosen (some (pos i)) idx = idx ≡ i
IsChosen (some (negsuc i)) idx = ⊥

pub compartment_index-IsChosen :
    (c : Option ℤ) (count idx : ℕ)
    → compartment_index c count ≡ ok idx
    → IsChosen c idx × (idx < count)
unfolding compartment_index
compartment_index-IsChosen none count idx h = ground arith
compartment_index-IsChosen (some (pos i)) count idx h = ground arith
compartment_index-IsChosen (some (negsuc i)) count idx h = absurd (ground arith)

pub IsChosen-unique : (c : Option ℤ) (i j : ℕ) → IsChosen c i → IsChosen c j → i ≡ j
IsChosen-unique none i j h k = h ∙ sym k
IsChosen-unique (some (pos n)) i j h k = h ∙ sym k
IsChosen-unique (some (negsuc n)) i j h k = absurd h

module _ {ℓ κ} {A : Type ℓ} {B : Type κ} where
  pub set-map :
      (f : A → B) (xs : List A) (i : ℕ) (x : A) → set (map f xs) i (f x) ≡ map f (set xs i x)
  set-map f [] i x = refl
  set-map f (y ∷ xs) zero x = refl
  set-map f (y ∷ xs) (suc i) x = ap (◌∷◌ (f y)) (set-map f xs i x)

-- What a successful write to one compartment went through.
pub record CompartmentWrite (F : Type 0) ⦃fl : Floats F⦄ (s : Session F) (t : Topic) (v : Value F)
    (c : Option ℤ) (r : Frame × WriteExpectation F) : Type 0 where
  pub current : Value F
  pub count : ℕ
  pub idx : ℕ
  pub xs : List (Item F)
  pub x : Atom F
  pub payload : Bytes
  pub known : Dict.get t.name s.values ≡ some current
  pub counted : len current ≡ ok count
  pub chosen : compartment_index c count ≡ ok idx
  pub listed : items current ≡ ok xs
  pub coerced : coerce t v ≡ ok (one x)
  pub in_range : (if string_eq.beq t.name "csettemp" then check_range s idx x else ok tt) ≡ ok tt
  pub encoded : encode t.codec (many (set xs idx (atom x))) ≡ ok payload
  pub result : r ≡ reply t payload (many (set xs idx (atom x)))

module _ {F : Type 0} ⦃fl : Floats F⦄ where
  known_of_current : (o : Option (Value F)) (v : Value F) → current_value o ≡ ok v → o ≡ some v
  unfolding current_value
  known_of_current none v h = absurd (ground arith)
  known_of_current (some w) v h = ground arith

  one_of_atom : (v : Value F) (a : Atom F) → as_atom v ≡ ok a → v ≡ one a
  unfolding as_atom
  one_of_atom (one b) a h = ground arith
  one_of_atom (many xs) a h = absurd (ground arith)

  pub set_compartment-steps :
      (s : Session F) (t : Topic) (v : Value F) (c : Option ℤ) (r : Frame × WriteExpectation F)
      → set_compartment s t v c ≡ ok r
      → CompartmentWrite F s t v c r
  unfolding set_compartment
  set_compartment-steps s t v c r h0 =
      let (current, h_current, h1) = >>=-eq-ok (current_value (Dict.get t.name s.values)) _ h0 in
      let (count, h_count, h2) = >>=-eq-ok (len current) _ h1 in
      let (idx, h_idx, h3) = >>=-eq-ok (compartment_index c count) _ h2 in
      let (xs, h_xs, h4) = >>=-eq-ok (items current) _ h3 in
      let (w, h_w, h5) = >>=-eq-ok (coerce t v) _ h4 in
      let (x, h_x, h6) = >>=-eq-ok (as_atom w) _ h5 in
      let (u, h_range, h7) =
        >>=-eq-ok (if string_eq.beq t.name "csettemp" then check_range s idx x else ok tt) _ h6 in
      let (payload, h_payload, h8) = >>=-eq-ok (encode t.codec (many (set xs idx (atom x)))) _ h7 in
      record {
        current = current;
        count = count;
        idx = idx;
        xs = xs;
        x = x;
        payload = payload;
        known = known_of_current _ current h_current;
        counted = h_count;
        chosen = h_idx;
        listed = h_xs;
        coerced = h_w ∙ ap ok (one_of_atom w x h_x);
        in_range = h_range;
        encoded = h_payload;
        result = ground (arith, h8);
      }

  pub coerce_flag_shape : (v : Value F) → (b : Bool) × (coerce_flag v ≡ one (bool b))
  unfolding coerce_flag
  coerce_flag_shape (one (str t)) = (is_true_word t, refl)
  coerce_flag_shape v = (truthy v, refl)
