-- ===== src/CoolerState/Compartments.antt =====
-- `from_values`: every compartment gets the values that were published for it.
use dometic_ddmp.Base.{
  ℕ, ◌+◌, Bool, true, false, ltb, String, string_eq, ◌≡◌, refl, ap, ◌∙◌, sym, Option, none, some,
  List, [], ◌∷◌, map, length, get_elem?, if◌then◌else◌, arith,
}
use dometic_ddmp.Base.Dict
use dometic_ddmp.Base.Dict.{Dict}
use dometic_ddmp.Result.{ok}
use dometic_ddmp.Value.{Item, Value, many, Floats, len}
use dometic_ddmp.CoolerState.{
  Compartment, CoolerState, state_of, blank, blanks, larger, compartment, longest, error_codes_of,
  count_of, arrays_of, from_values,
}
use dometic_ddmp.CoolerState.Fill.{set_at, set_all, fill_all_lem, get_elem?-blanks, length-blanks}

-- The lists of the seven arrays.
pub record Lists (F : Type 0) : Type 0 where
  pub powered : List (Item F)
  pub temperatures : List (Item F)
  pub setpoints : List (Item F)
  pub doors : List (Item F)
  pub ranges : List (Item F)
  pub recommended : List (Item F)
  pub offsets : List (Item F)

module _ {F : Type 0} where
  abbrev pub setters : Lists F → List ((Item F → Compartment F → Compartment F) × List (Item F))
  setters l =
      (λ v c. record c { powered = some v }, l.powered)
      ∷ (λ v c. record c { temperature_c = some v }, l.temperatures)
      ∷ (λ v c. record c { setpoint_c = some v }, l.setpoints)
      ∷ (λ v c. record c { door_open = some v }, l.doors)
      ∷ (λ v c. record c { range_c = some v }, l.ranges)
      ∷ (λ v c. record c { recommended_range_c = some v }, l.recommended)
      ∷ (λ v c. record c { offset_c = some v }, l.offsets)
      ∷ []

  -- The compartment with the values at its index.
  abbrev pub compartment_at : Lists F → ℕ → Compartment F
  compartment_at l i = record {
    index = i;
    powered = get_elem? l.powered i;
    temperature_c = get_elem? l.temperatures i;
    setpoint_c = get_elem? l.setpoints i;
    door_open = get_elem? l.doors i;
    range_c = get_elem? l.ranges i;
    recommended_range_c = get_elem? l.recommended i;
    offset_c = get_elem? l.offsets i;
  }

  set_fresh :
      (setattr : Item F → Compartment F → Compartment F) (c : Compartment F)
      (attr : Option (Item F) → Compartment F)
      → attr none ≡ c
      → ((v : Item F) → attr (some v) ≡ setattr v c)
      → (v : Option (Item F)) → set_at setattr v (some c) ≡ some (attr v)
  set_fresh setattr c attr absent present none = ap some (sym absent)
  set_fresh setattr c attr absent present (some v) = ap some (sym (present v))

  set_all-none :
      (l : List ((Item F → Compartment F → Compartment F) × List (Item F))) (i : ℕ)
      → set_all l i none ≡ none
  set_all-none [] i = refl
  set_all-none ((setattr, vs) ∷ rest) i = set_all-none rest i

  set_all-setters :
      (l : Lists F) (i : ℕ) → set_all (setters l) i (some (blank i)) ≡ some (compartment_at l i)
  set_all-setters l i =
      let c1 = record (blank {F = F} i) { powered = get_elem? l.powered i } in
      let c2 = record c1 { temperature_c = get_elem? l.temperatures i } in
      let c3 = record c2 { setpoint_c = get_elem? l.setpoints i } in
      let c4 = record c3 { door_open = get_elem? l.doors i } in
      let c5 = record c4 { range_c = get_elem? l.ranges i } in
      let c6 = record c5 { recommended_range_c = get_elem? l.recommended i } in
      rw (
        set_fresh (λ v c. record c { powered = some v }) (blank i)
            (λ v. record (blank i) { powered = v }) refl (λ v. refl) (get_elem? l.powered i),
        set_fresh (λ v c. record c { temperature_c = some v }) c1
            (λ v. record c1 { temperature_c = v }) refl (λ v. refl) (get_elem? l.temperatures i),
        set_fresh (λ v c. record c { setpoint_c = some v }) c2 (λ v. record c2 { setpoint_c = v })
            refl (λ v. refl) (get_elem? l.setpoints i),
        set_fresh (λ v c. record c { door_open = some v }) c3 (λ v. record c3 { door_open = v })
            refl (λ v. refl) (get_elem? l.doors i),
        set_fresh (λ v c. record c { range_c = some v }) c4 (λ v. record c4 { range_c = v }) refl
            (λ v. refl) (get_elem? l.ranges i),
        set_fresh (λ v c. record c { recommended_range_c = some v }) c5
            (λ v. record c5 { recommended_range_c = v }) refl (λ v. refl)
            (get_elem? l.recommended i),
        set_fresh (λ v c. record c { offset_c = some v }) c6 (λ v. record c6 { offset_c = v }) refl
            (λ v. refl) (get_elem? l.offsets i),
      )

  set_all-blank :
      (l : Lists F) (i : ℕ) (b : Bool)
      → set_all (setters l) i (if b then some (blank i) else none)
        ≡ (if b then some (compartment_at l i) else none)
  set_all-blank l i true = set_all-setters l i
  set_all-blank l i false = set_all-none (setters l) i

  guarded :
      (b : Bool) (x y : Option (Compartment F))
      → x ≡ (if b then y else none)
      → (if b then x else none) ≡ (if b then y else none)
  guarded true x y h = h
  guarded false x y h = refl

  -- The length of the longest array.
  abbrev pub reach : List ((Item F → Compartment F → Compartment F) × List (Item F)) → ℕ
  reach [] = 0
  reach ((setattr, vs) ∷ rest) = larger (length vs) (reach rest)

  pub longest_lists :
      (l : List ((Item F → Compartment F → Compartment F) × List (Item F)))
      → longest (map (λ p. (p.0, many p.1)) l) ≡ ok (reach l)
  unfolding longest len
  longest_lists [] = refl
  longest_lists ((setattr, vs) ∷ rest) = rw (longest_lists rest)

module _ {F : Type 0} ⦃fl : Floats F⦄ where
  -- The values of the seven per-compartment topics are lists, or absent, or count as absent.
  abbrev pub HasLists : Dict String (Value F) → Lists F → Type 0
  HasLists values l = arrays_of values ≡ map (λ p. (p.0, many p.1)) (setters l)

  -- If the per-compartment values are lists, and the error codes and the count are well formed,
  -- `from_values` returns a state in which the compartment at every index below the count has the values
  -- at its index, those that no array reaches are `None`, and there is no compartment from the count on.
  pub from_values_compartments :
      (values : Dict String (Value F)) (l : Lists F) (errors : List (Item F)) (count i : ℕ)
      → HasLists values l
      → error_codes_of (Dict.get "errst" values) ≡ ok errors
      → count_of (reach (setters l)) (Dict.get "nocpt" values) ≡ ok count
      → (st : CoolerState F) × (from_values values ≡ ok st)
        × (st.error_codes ≡ errors)
        × (length st.compartments ≡ count)
        × (compartment st i ≡ (if ltb i count then some (compartment_at l i) else none))
  unfolding from_values compartment
  from_values_compartments values l errors count i h e c =
      let (out, run, seen, measured) =
        fill_all_lem count i (setters l) (blanks 0 count) (length-blanks F 0 count) in
      let index : 0 + i ≡ i = omega arith in
      let at_i : get_elem? (blanks 0 count) i ≡ (if ltb i count then some (blank i) else none) =
        rw index at (get_elem?-blanks F 0 i count) in
      (
        state_of values errors out,
        rw (e, h, longest_lists (setters l), c, run),
        refl,
        measured,
        rw measured (
            guarded (ltb i count) _ _
              (seen ∙ (ap (set_all (setters l) i) at_i ∙ set_all-blank l i (ltb i count)))),
      )
