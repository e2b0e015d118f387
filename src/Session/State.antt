-- ===== src/Session/State.antt =====
-- `Session.state`: when the remembered values make a `CoolerState`.
use dometic_ddmp.Base.{
  ℕ, ltb, ℤ, pos, string_eq, Bool, true, false, ◌⊎◌, inl, inr, ◌≡◌, refl, ap, ◌∙◌, Option, none,
  some, List, [], ◌∷◌, length, get_elem?, if◌then◌else◌, beq_ℤ, arith,
}
use dometic_ddmp.Base.Dict
use dometic_ddmp.Base.Dict.{Dict}
use dometic_ddmp.Bytes.{Bytes}
use dometic_ddmp.Result.{ok, err, type_error}
use dometic_ddmp.Address.{address, address_eq}
use dometic_ddmp.Value.{int, Item, one, many, Floats, truthy, items}
use dometic_ddmp.Codec.{
  Codec, int32, boolean_array, milli_array, milli_pair_array, u16_array, decode, first_word, need,
  unpack_from,
}
use dometic_ddmp.Words.{word}
use dometic_ddmp.Session.Echo.{decoded_of}
use dometic_ddmp.Topic.{Topic, topics}
use dometic_ddmp.Topic.Table.{mccc}
use dometic_ddmp.CoolerState.{
  CoolerState, compartment, or_nil, count_of, with_count, larger_int, error_codes_of, from_values,
  arrays_of,
}
use dometic_ddmp.CoolerState.Compartments.{
  compartment_at, Lists, HasLists, setters, reach, from_values_compartments, longest_lists,
}
use dometic_ddmp.Session.{Session, state, value, decoded}
use dometic_ddmp.Session.Memory.{newer_value}
use dometic_ddmp.Session.Consistent.{IsConsistent, row-IsConsistent}

-- A payload of one to three bytes, which is no number.
abbrev pub is_short : Option Bytes → Bool
is_short none = false
is_short (some []) = false
is_short (some (b ∷ raw)) = ltb (length raw) 3

-- The codecs that give a list whatever the payload.
abbrev gives_list : Codec → Bool
gives_list boolean_array = true
gives_list milli_array = true
gives_list milli_pair_array = true
gives_list u16_array = true
gives_list c = false

module _ {F : Type 0} ⦃fl : Floats F⦄ where
  decode_list :
      (c : Codec) (payload : Bytes)
      → gives_list c ≡ true
      → (xs : List (Item F)) × (decode c payload ≡ ok (many xs))
  unfolding decode
  decode_list boolean_array payload h = (_, refl)
  decode_list milli_array payload h = (_, refl)
  decode_list milli_pair_array payload h = (_, refl)
  decode_list u16_array payload h = (_, refl)
  decode_list c payload h = absurd (ground arith)

  or_nil_many : (xs : List (Item F)) → or_nil (some (many xs)) ≡ many xs
  unfolding or_nil truthy
  or_nil_many [] = refl
  or_nil_many (x ∷ xs) = refl

  newer_list :
      (t : Topic) (raw : Option Bytes)
      → gives_list t.codec ≡ true
      → (newer_value {F = F} t raw none ≡ none)
        ⊎ ((xs : List (Item F)) × (newer_value t raw none ≡ some (many xs)))
  newer_list t none h = inl refl
  newer_list t (some payload) h =
      let (xs, e) = decode_list t.codec payload h in
      inr (xs, ap some (decoded_of t payload (many xs) e))

  row_list :
      (s : Session F) (i : ℕ) (t : Topic)
      → IsConsistent s
      → get_elem? topics i ≡ some t
      → gives_list t.codec ≡ true
      → (xs : List (Item F)) × (or_nil (Dict.get t.name s.values) ≡ many xs)
  unfolding value or_nil
  row_list s i t consistent at_i h = elim (newer_list t (Dict.get t.address s.raw) h) [
    | inl none_yet ↦ ([], ap or_nil (row-IsConsistent s i t consistent at_i ∙ none_yet) ∙ refl)
    | inr (xs, known) ↦
        (xs, ap or_nil (row-IsConsistent s i t consistent at_i ∙ known) ∙ or_nil_many xs)
  ]

first_word_long :
    (a b c d : ℕ) (rest : Bytes) → first_word (a ∷ b ∷ c ∷ d ∷ rest) ≡ ok (word a b c d)
unfolding first_word need unpack_from
first_word_long a b c d rest = ground arith

module _ (F : Type 0) ⦃fl : Floats F⦄ where
  count_int : (m : ℕ) (n : ℤ) → (count : ℕ) × (count_of {F = F} m (some (one (int n))) ≡ ok count)
  unfolding count_of with_count truthy
  count_int m n = (if beq_ℤ n (pos 0) then m else larger_int m n, ground arith)

  decoded_int :
      (t : Topic) (a b c d : ℕ) (rest : Bytes)
      → t.codec ≡ int32
      → decoded {F = F} t (a ∷ b ∷ c ∷ d ∷ rest) ≡ one (int (word a b c d))
  unfolding decode
  decoded_int t a b c d rest e =
      let number : decode {F = F} int32 (a ∷ b ∷ c ∷ d ∷ rest) ≡ ok (one (int (word a b c d))) =
        rw (first_word_long a b c d rest) in
      decoded_of t (a ∷ b ∷ c ∷ d ∷ rest) _ (rw e number)

  count_outcome :
      (t : Topic) (m : ℕ) (raw : Option Bytes)
      → t.codec ≡ int32
      → ((is_short raw ≡ true) × (count_of {F = F} m (newer_value t raw none) ≡ err type_error))
        ⊎ ((is_short raw ≡ false)
            × ((count : ℕ) × (count_of {F = F} m (newer_value t raw none) ≡ ok count)))
  unfolding count_of decoded decode first_word need unpack_from truthy with_count
  count_outcome t m none c = inr (refl, (m, refl))
  count_outcome t m (some []) c = inr (refl, (m, rw c refl))
  count_outcome t m (some (b ∷ [])) c = inl (refl, rw c refl)
  count_outcome t m (some (b ∷ b1 ∷ [])) c = inl (refl, rw c refl)
  count_outcome t m (some (b ∷ b1 ∷ b2 ∷ [])) c = inl (refl, rw c refl)
  count_outcome t m (some (b ∷ b1 ∷ b2 ∷ b3 ∷ rest)) c =
      let (count, e) = count_int m (word b b1 b2 b3) in
      inr
        (ground arith, (count, ap (λ v. count_of m (some v)) (decoded_int t b b1 b2 b3 rest c) ∙ e))

module _ {F : Type 0} ⦃fl : Floats F⦄ where
  -- The seven per-compartment topics are rows 7, 9, 8 and so on of the table.
  consistent_lists : (s : Session F) → IsConsistent s → (l : Lists F) × HasLists s.values l
  unfolding topics arrays_of
  consistent_lists s h =
      let (p, e1) = row_list s 7 _ h refl refl in
      let (t, e2) = row_list s 8 _ h refl refl in
      let (sp, e3) = row_list s 9 _ h refl refl in
      let (d, e4) = row_list s 11 _ h refl refl in
      let (r, e5) = row_list s 12 _ h refl refl in
      let (rr, e6) = row_list s 13 _ h refl refl in
      let (o, e7) = row_list s 14 _ h refl refl in
      (
        record {
          powered = p;
          temperatures = t;
          setpoints = sp;
          doors = d;
          ranges = r;
          recommended = rr;
          offsets = o;
        },
        rw (e1, e2, e3, e4, e5, e6, e7),
      )

  error_codes_many : (xs : List (Item F)) → error_codes_of (some (many xs)) ≡ ok xs
  unfolding error_codes_of truthy items
  error_codes_many [] = refl
  error_codes_many (x ∷ xs) = refl

  errors_ok :
      (t : Topic) (raw : Option Bytes)
      → gives_list t.codec ≡ true
      → (xs : List (Item F)) × (error_codes_of (newer_value t raw none) ≡ ok xs)
  unfolding error_codes_of
  errors_ok t raw h = elim (newer_list t raw h) [
    | inl none_yet ↦ ([], ap error_codes_of none_yet)
    | inr (xs, known) ↦ (xs, ap error_codes_of known ∙ error_codes_many xs)
  ]

  no_count_no_state :
      (s : Session F) (l : Lists F) (errors : List (Item F))
      → HasLists s.values l
      → error_codes_of (Dict.get "errst" s.values) ≡ ok errors
      → count_of (reach (setters l)) (Dict.get "nocpt" s.values) ≡ err type_error
      → state s ≡ err type_error
  unfolding state from_values
  no_count_no_state s l errors h e c = rw (e, h, longest_lists (setters l), c)

  -- A consistent session raises a `TypeError` for its state if the last payload of `nocpt` has one to
  -- three bytes. Otherwise there is a state, in which every compartment has the values that stand at its
  -- index in the lists of the per-compartment topics.
  pub session_state_outcome :
      (s : Session F) (i : ℕ)
      → IsConsistent s
      → ((is_short (Dict.get (mccc 2) s.raw) ≡ true) × (state s ≡ err type_error))
        ⊎ ((is_short (Dict.get (mccc 2) s.raw) ≡ false)
            × ((st : CoolerState F) × (l : Lists F) × (state s ≡ ok st)
                × HasLists s.values l
                × (compartment st i ≡ (
                    if ltb i (length st.compartments) then some (compartment_at l i) else none))))
  unfolding topics state value
  session_state_outcome s i h =
      let (l, lists) = consistent_lists s h in
      let (errors, e) = errors_ok _ (Dict.get (address 0x12 0 0 0x1a) s.raw) refl in
      let known_errors = ap error_codes_of (row-IsConsistent s 22 _ h refl) ∙ e in
      let row : (t : Topic) × (get_elem? topics 6 ≡ some t) = (_, refl) in
      let known_count = row-IsConsistent s 6 row.0 h row.1 in
      elim (count_outcome F row.0 (reach (setters l)) (Dict.get (mccc 2) s.raw) refl) [
        | inl (short, c) ↦ inl (
          short,
          no_count_no_state s l errors lists known_errors
              (ap (count_of (reach (setters l))) known_count ∙ c),
        )
        | inr (long, (count, c)) ↦
            let (st, run, codes, measured, at_i) =
              from_values_compartments s.values l errors count i lists known_errors
                (ap (count_of (reach (setters l))) known_count ∙ c) in
            inr (long, (st, l, run, lists, rw measured at_i))
      ]
