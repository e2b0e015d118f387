-- ===== src/Discovery/Keyed.antt =====
-- Every entry that `discover` of src/ddmp/discovery.py keeps stands under its own key.
use dometic_ddmp.Base.{
  ℕ, ◌<◌, ◌-◌, length, drop, length-drop, ◌≡◌, refl, sym, ◌∙◌, inl, inr, some, List, [], ◌∷◌,
  text_eq, All, Option-cases, Bool-cases, arith,
}
use dometic_ddmp.Base.Dict
use dometic_ddmp.Base.Dict.{Dict}
use dometic_ddmp.Text.{Text}
use dometic_ddmp.Discovery.{
  Discovered, text_or, merge, short_id_of, key_of, key, last_six, remember, remember_all,
}

-- What holds of all entries holds after one more.
put-All :
    (P : Text × Discovered → Type 0) (k : Text) (v : Discovered) (d : Dict Text Discovered)
    → ((j : Text) → j ≡ k → P (j, v))
    → All P d
    → All P (Dict.put k v d)
unfolding Dict.put
put-All P k v [] new h = (new k refl, tt)
put-All P k v ((j, w) ∷ d) new h = elim (Bool-cases (text_eq.beq j k)) [
  | inl e ↦ rw (Dict.put, e) (new j ((text_eq.beq_iff j k).0 e), h.1)
  | inr e ↦ rw (Dict.put, e) (h.0, put-All P k v d new h.1)
]

pub get-All :
    (P : Text × Discovered → Type 0) (k : Text) (v : Discovered) (d : Dict Text Discovered)
    → Dict.get k d ≡ some v
    → All P d
    → P (k, v)
unfolding Dict.get
get-All P k v [] found h = absurd (ground arith)
get-All P k v ((j, w) ∷ d) found h = elim (Bool-cases (text_eq.beq j k)) [
  | inl e ↦
      let same_value : w ≡ v = ground (arith, rw e at found) in
      rw⁻¹ ((text_eq.beq_iff j k).0 e, same_value) h.0
  | inr e ↦ get-All P k v d (rw e at found) h.1
]

-- The end of a text that is not empty is not empty.
last_six_shape : (x : ℕ) (s : Text) → (y : ℕ) × (t : Text) × (last_six (x ∷ s) ≡ y ∷ t)
unfolding last_six
last_six_shape x s =
    shape (drop (length (x ∷ s) - 6) (x ∷ s))
      (omega (arith, length-drop (length (x ∷ s) - 6) (x ∷ s)))
  where
    shape : (t : Text) → 0 < length t → (y : ℕ) × (t' : Text) × (t ≡ y ∷ t')
    shape [] h = absurd (omega arith)
    shape (y ∷ t) h = (y, t, refl)

module _ (lower : Text → Text) where
  abbrev pub IsKeyed : Text × Discovered → Type 0
  IsKeyed entry = entry.0 ≡ key lower entry.1

  -- The key of an entry with an identifier.
  pub key_of_cooler : (x : ℕ) (s name : Text) → key_of lower (x ∷ s) name ≡ last_six (x ∷ s)
  unfolding key_of short_id_of text_or
  key_of_cooler x s name = let (y, t, e) = last_six_shape x s in rw (key_of, e) refl

  key_of-text_or :
      (c n c' n' : Text)
      → key_of lower c n ≡ key_of lower c' n'
      → key_of lower (text_or c c') (text_or n n') ≡ key_of lower c' n'
  unfolding text_or
  key_of-text_or (x ∷ c) n c' n' h =
      key_of_cooler x c (text_or n n') ∙ sym (key_of_cooler x c n) ∙ h
  key_of-text_or [] n (x ∷ c) n' h = key_of_cooler x c (text_or n n') ∙ sym (key_of_cooler x c n')
  key_of-text_or [] [] [] n' h = refl
  key_of-text_or [] (y ∷ n) [] n' h = h

  -- Two finds with the same key give an entry with that key.
  key-merge :
      (prev d : Discovered) → key lower prev ≡ key lower d → key lower (merge prev d) ≡ key lower d
  unfolding key merge
  key-merge prev d h = key_of-text_or prev.cooler_id prev.name d.cooler_id d.name h

  remember-IsKeyed :
      (found : Dict Text Discovered) (d : Discovered)
      → All IsKeyed found
      → All IsKeyed (remember lower found d)
  unfolding remember
  remember-IsKeyed found d h = elim (Option-cases (Dict.get (key lower d) found)) [
    | inl e ↦ rw (remember, e) (put-All IsKeyed (key lower d) d found (λ j same. same) h)
    | inr (prev, e) ↦
        let known = get-All IsKeyed (key lower d) prev found e h in
        rw (remember, e)
          (put-All IsKeyed (key lower d) (merge prev d) found
            (λ j same. same ∙ sym (key-merge prev d (sym known))) h)
  ]

  pub remember_all-IsKeyed :
      (found : Dict Text Discovered) (ds : List Discovered)
      → All IsKeyed found
      → All IsKeyed (remember_all lower found ds)
  unfolding remember_all
  remember_all-IsKeyed found [] h = h
  remember_all-IsKeyed found (d ∷ ds) h =
      remember_all-IsKeyed (remember lower found d) ds (remember-IsKeyed found d h)
