-- ===== src/CoolerState/Fill.antt =====
-- The loops that fill the compartments, seen from one compartment.
use dometic_ddmp.Base.{
  ℕ, zero, suc, ◌+◌, ltb, ◌==◌, ◌<◌, ◌≡◌, refl, ap, ◌∙◌, sym, Option, none, some, List, [], ◌∷◌,
  map, length, get_elem?, if◌then◌else◌, arith,
}
use dometic_ddmp.Result.{ok}
use dometic_ddmp.Value.{Item, many, items}
use dometic_ddmp.CoolerState.{Compartment, blank, blanks, modify, fill, fill_all}

module _ {F : Type 0} where
  -- The value for a compartment, if the array reaches it, is set.
  abbrev pub set_at :
      (Item F → Compartment F → Compartment F)
      → Option (Item F)
      → Option (Compartment F)
      → Option (Compartment F)
  set_at setattr v none = none
  set_at setattr none (some c) = some c
  set_at setattr (some v) (some c) = some (setattr v c)

  set_at-none :
      (setattr : Item F → Compartment F → Compartment F) (c : Option (Compartment F))
      → c ≡ set_at setattr none c
  set_at-none setattr none = refl
  set_at-none setattr (some c) = refl

  get_elem?-modify :
      (cs : List (Compartment F)) (i j : ℕ) (setattr : Item F → Compartment F → Compartment F)
      (v : Item F)
      → get_elem? (modify cs i (setattr v)) j
        ≡ (if i == j then set_at setattr (some v) (get_elem? cs j) else get_elem? cs j)
  get_elem?-modify [] i j setattr v = ground arith
  get_elem?-modify (c ∷ cs) zero zero setattr v = refl
  get_elem?-modify (c ∷ cs) zero (suc j) setattr v = ground arith
  get_elem?-modify (c ∷ cs) (suc i) zero setattr v = ground arith
  get_elem?-modify (c ∷ cs) (suc i) (suc j) setattr v =
      ground (arith, get_elem?-modify cs i j setattr v)

  length-modify :
      (cs : List (Compartment F)) (i : ℕ) (f : Compartment F → Compartment F)
      → length (modify cs i f) ≡ length cs
  length-modify [] i f = refl
  length-modify (c ∷ cs) zero f = refl
  length-modify (c ∷ cs) (suc i) f = ap suc (length-modify cs i f)

  modify_beyond :
      (cs : List (Compartment F)) (i : ℕ) (f : Compartment F → Compartment F)
      → (if ltb i (length cs) then modify cs i f else cs) ≡ modify cs i f
  modify_beyond [] i f = ground arith
  modify_beyond (c ∷ cs) zero f = ground arith
  modify_beyond (c ∷ cs) (suc i) f = ground (arith, modify_beyond cs i f)

  -- The loop without its test, which is never false.
  abbrev pub modify_all :
      (Item F → Compartment F → Compartment F)
      → ℕ
      → List (Item F)
      → List (Compartment F)
      → List (Compartment F)
  modify_all setattr i [] cs = cs
  modify_all setattr i (v ∷ vs) cs = modify_all setattr (suc i) vs (modify cs i (setattr v))

  length-modify_all :
      (setattr : Item F → Compartment F → Compartment F) (i : ℕ) (vs : List (Item F))
      (cs : List (Compartment F))
      → length (modify_all setattr i vs cs) ≡ length cs
  length-modify_all setattr i [] cs = refl
  length-modify_all setattr i (v ∷ vs) cs =
      length-modify_all setattr (suc i) vs (modify cs i (setattr v))
      ∙ length-modify cs i (setattr v)

  fill-eq-modify_all :
      (setattr : Item F → Compartment F → Compartment F) (count i : ℕ) (vs : List (Item F))
      (cs : List (Compartment F))
      → count ≡ length cs
      → fill setattr count i vs cs ≡ modify_all setattr i vs cs
  unfolding fill
  fill-eq-modify_all setattr count i [] cs h = refl
  fill-eq-modify_all setattr count i (v ∷ vs) cs h =
      rw (h, modify_beyond cs i (setattr v))
        (fill-eq-modify_all setattr count (suc i) vs (modify cs i (setattr v))
          (h ∙ sym (length-modify cs i (setattr v))))

  modify_all_before :
      (setattr : Item F → Compartment F → Compartment F) (i j : ℕ) (vs : List (Item F))
      (cs : List (Compartment F))
      → j < i
      → get_elem? (modify_all setattr i vs cs) j ≡ get_elem? cs j
  modify_all_before setattr i j [] cs h = refl
  modify_all_before setattr i j (v ∷ vs) cs h =
      modify_all_before setattr (suc i) j vs (modify cs i (setattr v)) (omega arith)
      ∙ ground (arith, get_elem?-modify cs i j setattr v)

  modify_all_from :
      (setattr : Item F → Compartment F → Compartment F) (i j : ℕ) (vs : List (Item F))
      (cs : List (Compartment F))
      → get_elem? (modify_all setattr i vs cs) (i + j)
        ≡ set_at setattr (get_elem? vs j) (get_elem? cs (i + j))
  modify_all_from setattr i j [] cs = set_at-none setattr (get_elem? cs (i + j))
  modify_all_from setattr i zero (v ∷ vs) cs =
      modify_all_before setattr (suc i) (i + 0) vs (modify cs i (setattr v)) (omega arith)
      ∙ ground (arith, get_elem?-modify cs i (i + 0) setattr v)
  modify_all_from setattr i (suc j) (v ∷ vs) cs =
      let shifted : suc i + j ≡ i + suc j = omega arith in
      ground (
        arith,
        shifted,
        modify_all_from setattr (suc i) j vs (modify cs i (setattr v)),
        get_elem?-modify cs i (i + suc j) setattr v,
      )

  -- After the loop each compartment has the value that stands at its index in the array.
  pub fill_lem :
      (setattr : Item F → Compartment F → Compartment F) (count i : ℕ) (vs : List (Item F))
      (cs : List (Compartment F))
      → length cs ≡ count
      → (get_elem? (fill setattr count 0 vs cs) i
          ≡ set_at setattr (get_elem? vs i) (get_elem? cs i))
        × (length (fill setattr count 0 vs cs) ≡ count)
  fill_lem setattr count i vs cs h =
      let at_index : 0 + i ≡ i = omega arith in
      rw (fill-eq-modify_all setattr count 0 vs cs (sym h))
        (rw at_index at (modify_all_from setattr 0 i vs cs), length-modify_all setattr 0 vs cs ∙ h)

  -- What the loops make of the compartment at an index.
  abbrev pub set_all :
      List ((Item F → Compartment F → Compartment F) × List (Item F))
      → ℕ
      → Option (Compartment F)
      → Option (Compartment F)
  set_all [] i c = c
  set_all ((setattr, vs) ∷ rest) i c = set_all rest i (set_at setattr (get_elem? vs i) c)

  -- The arrays are lists: the loops end, and each compartment has the values at its index.
  pub fill_all_lem :
      (count i : ℕ) (lists : List ((Item F → Compartment F → Compartment F) × List (Item F)))
      (cs : List (Compartment F))
      → length cs ≡ count
      → (out : List (Compartment F)) × (fill_all count (map (λ l. (l.0, many l.1)) lists) cs
          ≡ ok out)
        × (get_elem? out i ≡ set_all lists i (get_elem? cs i))
        × (length out ≡ count)
  unfolding fill_all items
  fill_all_lem count i [] cs h = (cs, refl, refl, h)
  fill_all_lem count i ((setattr, vs) ∷ rest) cs h =
      let (at_index, same_length) = fill_lem setattr count i vs cs h in
      let (out, run, seen, measured) =
        fill_all_lem count i rest (fill setattr count 0 vs cs) same_length in
      (out, run, rw at_index at seen, measured)

module _ (F : Type 0) where
  pub get_elem?-blanks :
      (i j count : ℕ)
      → get_elem? (blanks {F = F} i count) j ≡ (if ltb j count then some (blank (i + j)) else none)
  unfolding blanks
  get_elem?-blanks i j zero = ground arith
  get_elem?-blanks i zero (suc count) = ground arith
  get_elem?-blanks i (suc j) (suc count) =
      let shifted : suc i + j ≡ i + suc j = omega arith in
      rw (get_elem?-blanks (suc i) j count, shifted) (ground arith)

  pub length-blanks : (i count : ℕ) → length (blanks {F = F} i count) ≡ count
  unfolding blanks
  length-blanks i zero = refl
  length-blanks i (suc count) = ap suc (length-blanks (suc i) count)
