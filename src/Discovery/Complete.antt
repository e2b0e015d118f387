-- ===== src/Discovery/Complete.antt =====
-- `find_cooler` of src/ddmp/discovery.py finds every cooler with an identifier that answers.
use mathlib.Core.List.{Memᴰ}
use mathlib.Core.List.Memᴰ
use dometic_ddmp.Base.{
  ℕ, zero, suc, ◌-◌, ◌≡◌, refl, sym, ap, ◌∙◌, true, false, inl, inr, some, List, [], ◌∷◌, ◌++◌, map,
  length, drop, same_iff, text_eq, nat_eq, member, Option-cases, Bool-cases, arith,
}
use dometic_ddmp.Base.Dict
use dometic_ddmp.Base.Dict.{Dict}
use dometic_ddmp.Result.{ok}
use dometic_ddmp.Text.{Text, codes}
use dometic_ddmp.Discovery.{
  Discovered, Network, last_six, text_or, merge, finds, normalize_id, short_id_of, short_id,
  matches, key_of, key, remember, remember_all, merged, discover, first_match, find_cooler,
}
use dometic_ddmp.Discovery.Keyed.{IsKeyed, get-All, key_of_cooler, remember_all-IsKeyed}
use dometic_ddmp.Discovery.Sorting.{sorted_mem}

-- An entry that a search finds stands in the dictionary.
get_mem :
    (k : Text) (v : Discovered) (d : Dict Text Discovered)
    → Dict.get k d ≡ some v
    → Memᴰ v (map (λ entry. entry.1) d)
unfolding Dict.get
get_mem k v [] found = absurd (ground arith)
get_mem k v ((j, w) ∷ d) found = elim (Bool-cases (text_eq.beq j k)) [
  | inl e ↦ let same_value : w ≡ v = ground (arith, rw e at found) in Memᴰ.head (sym same_value)
  | inr e ↦ Memᴰ.tail (get_mem k v d (rw e at found))
]

member-drop : (c n : ℕ) (s : Text) → member c s ≡ false → member c (drop n s) ≡ false
member-drop c zero s h = h
member-drop c (suc n) [] h = h
member-drop c (suc n) (x ∷ s) h = member-drop c n s (ground arith)

put_self :
    (k : Text) (v : Discovered) (found : Dict Text Discovered)
    → Dict.get k (Dict.put k v found) ≡ some v
put_self k v found = Dict.get-put k k v found ∙ ground (arith, text_eq.beq_iff k k)

put_known :
    (k j : Text) (v : Discovered) (found : Dict Text Discovered) (e : Discovered)
    → Dict.get k found ≡ some e
    → (e' : Discovered) × (Dict.get k (Dict.put j v found) ≡ some e')
put_known k j v found e h = elim (Bool-cases (text_eq.beq j k)) [
  | inl hit ↦ (v, Dict.get-put j k v found ∙ rw hit refl)
  | inr miss ↦ (e, Dict.get-put j k v found ∙ rw miss h)
]

-- A key that is the end of an identifier is not made from a name.
short_of_end :
    (x : ℕ) (s short rest : Text)
    → member b':' (x ∷ s) ≡ false
    → text_or short (codes "name:" ++ rest) ≡ last_six (x ∷ s)
    → short ≡ last_six (x ∷ s)
unfolding text_or last_six
short_of_end x s [] rest plain e =
    absurd (ground (arith, ap (member b':') e, member-drop b':' (length (x ∷ s) - 6) (x ∷ s) plain))
short_of_end x s (y ∷ short) rest plain e = e

module _ (lower : Text → Text) where
  abbrev IsKnown : Text → Dict Text Discovered → Type 0
  IsKnown k found = (e : Discovered) × (Dict.get k found ≡ some e)

  remember_keeps :
      (k : Text) (found : Dict Text Discovered) (d : Discovered)
      → IsKnown k found
      → IsKnown k (remember lower found d)
  unfolding remember
  remember_keeps k found d (e, h) = elim (Option-cases (Dict.get (key lower d) found)) [
    | inl new ↦ rw (remember, new) (put_known k (key lower d) d found e h)
    | inr (prev, old) ↦ rw (remember, old) (put_known k (key lower d) (merge prev d) found e h)
  ]

  remember_knows :
      (found : Dict Text Discovered) (d : Discovered)
      → IsKnown (key lower d) (remember lower found d)
  unfolding remember
  remember_knows found d = elim (Option-cases (Dict.get (key lower d) found)) [
    | inl new ↦ rw (remember, new) (d, put_self (key lower d) d found)
    | inr (prev, old) ↦
        rw (remember, old) (merge prev d, put_self (key lower d) (merge prev d) found)
  ]

  remember_all_keeps :
      (k : Text) (found : Dict Text Discovered) (ds : List Discovered)
      → IsKnown k found
      → IsKnown k (remember_all lower found ds)
  unfolding remember_all
  remember_all_keeps k found [] h = h
  remember_all_keeps k found (d ∷ ds) h =
      remember_all_keeps k (remember lower found d) ds (remember_keeps k found d h)

  remember_all_knows :
      (found : Dict Text Discovered) (ds : List Discovered) (d : Discovered)
      → Memᴰ d ds
      → IsKnown (key lower d) (remember_all lower found ds)
  unfolding remember_all
  remember_all_knows found [] d m = absurd (Memᴰ.not-nil m)
  remember_all_knows found (x ∷ ds) d m = elim (Memᴰ.cases_cons m) [
    | inl e ↦
        rw e (remember_all_keeps (key lower x) (remember lower found x) ds (remember_knows found x))
    | inr rest ↦ remember_all_knows (remember lower found x) ds d rest
  ]

  -- An entry with the key of a find that has an identifier has its short identifier.
  short_of_key :
      (e : Discovered) (x : ℕ) (s name : Text)
      → member b':' (x ∷ s) ≡ false
      → key lower e ≡ key_of lower (x ∷ s) name
      → short_id lower e ≡ last_six (x ∷ s)
  unfolding key short_id key_of
  short_of_key e x s name plain h =
      short_of_end x s (short_id_of lower e.cooler_id e.name) (lower e.name) plain
        (h ∙ key_of_cooler lower x s name)

  first_match_finds :
      (wanted : Text) (ds : List Discovered) (d : Discovered)
      → Memᴰ d ds
      → matches lower d wanted ≡ true
      → (x : Discovered) × (first_match lower wanted ds ≡ some x) × (matches lower x wanted ≡ true)
  unfolding first_match
  first_match_finds wanted [] d m h = absurd (Memᴰ.not-nil m)
  first_match_finds wanted (x ∷ ds) d m h = elim (Bool-cases (matches lower x wanted)) [
    | inl fits ↦ rw (first_match, fits) (x, refl, fits)
    | inr other ↦ elim (Memᴰ.cases_cons m) [
      | inl e ↦ absurd (ground (arith, ap (λ d. matches lower d wanted) e))
      | inr rest ↦ rw (first_match, other) (first_match_finds wanted ds d rest h)
    ]
  ]

  matches_short :
      (e : Discovered) (x : ℕ) (s wanted : Text)
      → normalize_id lower wanted ≡ x ∷ s
      → short_id lower e ≡ last_six (x ∷ s)
      → matches lower e wanted ≡ true
  unfolding matches
  matches_short e x s wanted normal short =
      rw (normal, short) (ground (arith, same_iff (last_six (x ∷ s)) (last_six (x ∷ s))))

  merged_knows :
      (ds : List Discovered) (d : Discovered) (x : ℕ) (s : Text)
      → Memᴰ d ds
      → d.cooler_id ≡ x ∷ s
      → member b':' (x ∷ s) ≡ false
      → (e : Discovered) × Memᴰ e (merged lower ds) × (short_id lower e ≡ last_six (x ∷ s))
  unfolding merged key
  merged_knows ds d x s m id plain =
      let found = remember_all lower [] ds in
      let (e, h) = remember_all_knows [] ds d m in
      let keyed =
        get-All (IsKeyed lower) (key lower d) e found h (remember_all-IsKeyed lower [] ds tt) in
      (
        e,
        (sorted_mem e (map (λ entry. entry.1) found)).0 (get_mem (key lower d) e found h),
        short_of_key e x s d.name plain (sym keyed ∙ ap (λ c. key_of lower c d.name) id),
      )

  -- However texts are put in lower case: where the browsing and the probes do not raise, and some find of
  -- theirs has an identifier without a colon, `find_cooler` of a text that is normalised to that
  -- identifier returns an entry, and the entry matches the text.
  pub find_cooler_complete :
      (net : Network) (hosts : List Text) (wanted : Text) (ds : List Discovered) (d : Discovered)
      (x : ℕ) (s : Text)
      → finds net true true hosts ≡ ok ds
      → Memᴰ d ds
      → d.cooler_id ≡ x ∷ s
      → member b':' (x ∷ s) ≡ false
      → normalize_id lower wanted ≡ x ∷ s
      → (e : Discovered) × (find_cooler lower net wanted hosts ≡ ok (some e))
        × (matches lower e wanted ≡ true)
  unfolding find_cooler discover
  find_cooler_complete net hosts wanted ds d x s found m id plain normal =
      let (e, kept, short) = merged_knows ds d x s m id plain in
      let (first, hit, fits) =
        first_match_finds wanted (merged lower ds) e kept
          (matches_short e x s wanted normal short) in
      (first, rw (found, hit) refl, fits)
